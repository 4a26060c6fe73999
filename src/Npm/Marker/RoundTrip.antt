-- ===== src/Npm/Marker/RoundTrip.antt =====
-- A configuration that `withMarker` writes is taken apart again by `splitMarker`.
use mathlib.Core.List.{append-nil}
use npmplus_docker_sync.Base.{
  true, false, none, some, List, [], ◌∷◌, ◌++◌, ◌≡◌, refl, ap, ◌∙◌, All, Bool-cases, inl, inr,
}
use npmplus_docker_sync.Base.Text.{
  Text, text, trim_space, contains, has_prefix, contains_byte, split, join, is_space,
}
use npmplus_docker_sync.Base.Text.Laws.{
  trim_space_of_words, join-no_line, contains_byte_of_All, split-append, split_single, join-split,
}
use npmplus_docker_sync.Npm.Marker.Parsing.{
  IsPrintable, parse_trimmed-encode, pairs-IsWord, encode_prefix,
}
use npmplus_docker_sync.Npm.Marker.{
  Marker, marker_prefix, marker_notice, pairs, encode, parse_marker, is_marker_line, read_lines,
  collect, split_marker, with_marker, all_equal,
}

-- The marker's line up to its pairs, without the first byte.
abbrev header_tail : Text
header_tail = text " npmplus-docker-sync: " ++ (marker_notice ++ text " | ")

module _ (m : Marker) (p : IsPrintable m) where
  trim_space-encode : trim_space (encode m) ≡ encode m
  unfolding encode is_space
  trim_space-encode = trim_space_of_words b'#' header_tail (pairs m) refl refl (pairs-IsWord m p)

  -- `parseMarker` undoes `encode` on every marker with a key.
  parse_marker-encode : parse_marker (encode m) ≡ some m
  unfolding parse_marker
  parse_marker-encode = rw trim_space-encode (parse_trimmed-encode m p)

  is_marker_line-encode : is_marker_line (encode m) ≡ true
  unfolding is_marker_line
  is_marker_line-encode = rw trim_space-encode (encode_prefix m)

  encode-no_line : contains_byte (encode m) b'\n' ≡ false
  unfolding encode contains_byte
  encode-no_line =
      contains_byte_of_All (join (pairs m) b' ') b'\n' (join-no_line (pairs m) (pairs-IsWord m p))

  read_lines-encode :
      (ls : List Text)
      → read_lines (encode m ∷ ls)
        ≡ record (read_lines ls) { markers = m ∷ (read_lines ls).markers; found = true }
  unfolding read_lines
  read_lines-encode ls = rw (is_marker_line-encode, parse_marker-encode)

-- The lines that the user wrote.
abbrev pub IsUserText : Text → Type 0
IsUserText user = All (λ l. is_marker_line l ≡ false) (split user b'\n')

read_lines_of_user :
    (ls : List Text)
    → All (λ l. is_marker_line l ≡ false) ls
    → read_lines ls ≡ record { kept = ls; markers = []; broken = false; found = false }
unfolding read_lines
read_lines_of_user [] h = refl
read_lines_of_user (l ∷ ls) h = rw (h.0, read_lines) (rw (read_lines_of_user ls h.1))

-- A configuration with no marker line is not changed.
split_marker_of_user :
    (user : Text)
    → IsUserText user
    → split_marker user ≡ record { user = user; trusted = none; found = false }
unfolding split_marker
split_marker_of_user user h = elim (Bool-cases (contains user marker_prefix)) [
  | inl e ↦ rw e (ap collect (read_lines_of_user (split user b'\n') h) ∙ rw join-split)
  | inr e ↦ rw e
]

module _ (m : Marker) (p : IsPrintable m) where
  contains-encode : (s : Text) → contains (encode m ++ s) marker_prefix ≡ true
  unfolding encode contains has_prefix
  contains-encode s = refl

  collect-encode :
      (ls : List Text)
      → All (λ l. is_marker_line l ≡ false) ls
      → collect (read_lines (encode m ∷ ls))
        ≡ record { user = join ls b'\n'; trusted = some m; found = true }
  unfolding all_equal
  collect-encode ls h = rw (read_lines-encode m p ls) (rw (read_lines_of_user ls h))

  -- The user's configuration and the marker come back, whatever the user wrote, as long as it
  -- holds no line that looks like a marker.
  pub split_marker-with_marker :
      (user : Text)
      → IsUserText user
      → split_marker (with_marker user m) ≡ record { user = user; trusted = some m; found = true }
  unfolding split_marker with_marker join
  split_marker-with_marker [] h = rw (← append-nil (encode m)) (
      rw (contains-encode []) (
        rw append-nil (
          ap (λ ls. collect (read_lines ls)) (split_single (encode m) b'\n' (encode-no_line m p))
          ∙ collect-encode [] tt)))
  split_marker-with_marker (c ∷ user) h = rw (contains-encode (b'\n' ∷ c ∷ user)) (
      ap (λ ls. collect (read_lines ls))
        (split-append (encode m) (c ∷ user) b'\n' (encode-no_line m p))
      ∙ collect-encode (split (c ∷ user) b'\n') h
      ∙ rw join-split)
