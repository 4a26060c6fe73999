-- ===== src/Npm/Marker/Parsing.antt =====
-- `parseMarker` reads back what `marker.encode` prints.
use npmplus_docker_sync.Base.{
  ℕ, true, false, some, List, [], ◌∷◌, ◌++◌, ◌≡◌, refl, ap, ◌∙◌, arith, ◌==◌, ◌||◌, suc, All,
  All-append, All-map, ◌≢◌,
}
use npmplus_docker_sync.Base.Dict
use npmplus_docker_sync.Base.Dict.{Dict}
use npmplus_docker_sync.Base.Number.{ℤ, pos, negsuc, itoa, decimal, is_digit}
use npmplus_docker_sync.Base.Number.Laws.{IsInt64, atoi-itoa, decimal-IsDigit}
use npmplus_docker_sync.Base.Text.{
  Text, text, ◌=?◌, is_space, contains_byte, cut, fields, join, has_prefix,
}
use npmplus_docker_sync.Base.Text.Laws.{cut-append, IsWord, fields-join}
use npmplus_docker_sync.Npm.Marker.Escape.{
  IsByte, query_escape, query_unescape, unescape-escape, query_escape-not-space, unescape_verbatim,
}
use npmplus_docker_sync.Npm.Marker.{
  Marker, marker_prefix, marker_notice, marker_version, pair, optional, pairs, encode, read_pairs,
  value_at, marker_of, with_index, parse_trimmed,
}

-- What the fields of a marker hold: bytes, an index of 64 bits, and a key.
pub record IsPrintable (m : Marker) : Type 0 where
  pub key_set : m.key ≢ []
  pub key_bytes : All IsByte m.key
  pub container_bytes : All IsByte m.container
  pub container_id_bytes : All IsByte m.container_id
  pub index_fits : IsInt64 m.index
  pub instance_bytes : All IsByte m.instance_id
  pub prefix_bytes : All IsByte m.label_prefix

-- A pair whose name has no `=` is read as a name and a value.
read_pair :
    (name raw value : Text) (ps : List Text) (values : Dict Text)
    → contains_byte name b'=' ≡ false
    → query_unescape raw ≡ some value
    → read_pairs (pair name raw ∷ ps) values ≡ read_pairs ps (Dict.insert name value values)
unfolding read_pairs
read_pair name raw value ps values h k =
    rw (cut-append name raw b'=' h, read_pairs) (rw (k, read_pairs))

read_escaped :
    (name value : Text) (ps : List Text) (values : Dict Text)
    → contains_byte name b'=' ≡ false
    → All IsByte value
    → read_pairs (pair name (query_escape value) ∷ ps) values
      ≡ read_pairs ps (Dict.insert name value values)
read_escaped name value ps values h b =
    read_pair name (query_escape value) value ps values h (unescape-escape value b)

-- An optional pair leaves the value of its name at the text, if none was there.
abbrev put_optional : Text → Text → Dict Text → Dict Text
put_optional name [] values = values
put_optional name (c ∷ v) values = Dict.insert name (c ∷ v) values

read_optional :
    (name value : Text) (ps : List Text) (values : Dict Text)
    → contains_byte name b'=' ≡ false
    → All IsByte value
    → read_pairs (optional name value ++ ps) values ≡ read_pairs ps (put_optional name value values)
read_optional name [] ps values h b = refl
read_optional name (c ∷ v) ps values h b = read_escaped name (c ∷ v) ps values h b

-- Digits and a sign stand for themselves, and are no blanks.
abbrev IsVerbatim : ℕ → Type 0
IsVerbatim c = ((c == b'%' || c == b'+') ≡ false) × (is_space c ≡ false)

is_digit-IsVerbatim : (c : ℕ) → is_digit c ≡ true → IsVerbatim c
unfolding is_digit is_space
is_digit-IsVerbatim c h = (ground arith, ground arith)

decimal-IsVerbatim : (n : ℕ) → All IsVerbatim (decimal n)
decimal-IsVerbatim n = All-map _ is_digit-IsVerbatim (decimal n) (decimal-IsDigit n)

itoa-IsVerbatim : (z : ℤ) → All IsVerbatim (itoa z)
unfolding itoa is_space
itoa-IsVerbatim (pos n) = decimal-IsVerbatim n
itoa-IsVerbatim (negsuc n) = ((refl, refl), decimal-IsVerbatim (suc n))

unescape-itoa : (z : ℤ) → query_unescape (itoa z) ≡ some (itoa z)
unescape-itoa z = unescape_verbatim (itoa z) (All-map _ (λ c h. h.0) (itoa z) (itoa-IsVerbatim z))

-- The map that the loop builds from the pairs of a marker.
abbrev printed : Marker → Dict Text
printed m = put_optional (text "prefix") m.label_prefix (
    put_optional (text "instance") m.instance_id (
      put_optional (text "container_id") m.container_id (
        Dict.insert (text "index") (itoa m.index) (
          Dict.insert (text "container") m.container
            (Dict.insert (text "key") m.key (Dict.insert (text "v") marker_version []))))))

read_nil : (values : Dict Text) → read_pairs [] values ≡ some values
unfolding read_pairs
read_nil values = refl

read_optional_last :
    (name value : Text) (values : Dict Text)
    → contains_byte name b'=' ≡ false
    → All IsByte value
    → read_pairs (optional name value) values ≡ some (put_optional name value values)
read_optional_last name [] values h b = read_nil values
read_optional_last name (c ∷ v) values h b =
    read_escaped name (c ∷ v) [] values h b ∙ read_nil (Dict.insert name (c ∷ v) values)

read_pairs-pairs : (m : Marker) → IsPrintable m → read_pairs (pairs m) [] ≡ some (printed m)
unfolding contains_byte query_unescape
read_pairs-pairs m p =
    read_pair (text "v") marker_version marker_version _ [] refl refl
    ∙ read_escaped (text "key") m.key _ _ refl p.key_bytes
    ∙ read_escaped (text "container") m.container _ _ refl p.container_bytes
    ∙ read_pair (text "index") (itoa m.index) (itoa m.index) _ _ refl (unescape-itoa m.index)
    ∙ read_optional (text "container_id") m.container_id _ _ refl p.container_id_bytes
    ∙ read_optional (text "instance") m.instance_id _ _ refl p.instance_bytes
    ∙ read_optional_last (text "prefix") m.label_prefix _ refl p.prefix_bytes

marker_of-printed :
    (key container : Text) (index : ℤ) (container_id instance_id label_prefix : Text)
    → key ≢ []
    → IsInt64 index
    → let m : Marker = record {
      key = key;
      container = container;
      container_id = container_id;
      index = index;
      instance_id = instance_id;
      label_prefix = label_prefix;
    } in
      marker_of (some (printed m)) ≡ some m
unfolding marker_of value_at Dict.lookup Dict.insert ◌=?◌
marker_of-printed [] c n d i p k h = absurd (k refl)
marker_of-printed (a ∷ key) c n [] [] [] k h = rw (atoi-itoa n h, with_index)
marker_of-printed (a ∷ key) c n [] [] (x ∷ p) k h = rw (atoi-itoa n h, with_index)
marker_of-printed (a ∷ key) c n [] (x ∷ i) [] k h = rw (atoi-itoa n h, with_index)
marker_of-printed (a ∷ key) c n [] (x ∷ i) (y ∷ p) k h = rw (atoi-itoa n h, with_index)
marker_of-printed (a ∷ key) c n (x ∷ d) [] [] k h = rw (atoi-itoa n h, with_index)
marker_of-printed (a ∷ key) c n (x ∷ d) [] (y ∷ p) k h = rw (atoi-itoa n h, with_index)
marker_of-printed (a ∷ key) c n (x ∷ d) (y ∷ i) [] k h = rw (atoi-itoa n h, with_index)
marker_of-printed (a ∷ key) c n (x ∷ d) (y ∷ i) (z ∷ p) k h = rw (atoi-itoa n h, with_index)

-- Each pair is a word, so `strings.Fields` finds it again.
abbrev NotSpace : ℕ → Type 0
NotSpace c = is_space c ≡ false

pair-IsWord :
    (c : ℕ) (name value : Text)
    → All NotSpace (c ∷ name)
    → All NotSpace value
    → IsWord (pair (c ∷ name) value)
unfolding is_space
pair-IsWord c name value h k = (refl, All-append _ (c ∷ name) (b'=' ∷ value) h (refl, k))

optional-IsWord :
    (c : ℕ) (name value : Text)
    → All NotSpace (c ∷ name)
    → All IsByte value
    → All IsWord (optional (c ∷ name) value)
optional-IsWord c name [] h b = tt
optional-IsWord c name (v ∷ value) h b =
    (pair-IsWord c name _ h (query_escape-not-space (v ∷ value) b), tt)

pub pairs-IsWord : (m : Marker) → IsPrintable m → All IsWord (pairs m)
unfolding is_space
pairs-IsWord m p = (
  pair-IsWord b'v' [] marker_version (ground arith) (ground arith),
  (
    pair-IsWord b'k' (text "ey") _ (ground arith) (query_escape-not-space m.key p.key_bytes),
    (
      pair-IsWord b'c' (text "ontainer") _ (ground arith)
          (query_escape-not-space m.container p.container_bytes),
      (
        pair-IsWord b'i' (text "ndex") _ (ground arith)
            (All-map _ (λ c h. h.1) (itoa m.index) (itoa-IsVerbatim m.index)),
        All-append _ (optional (text "container_id") m.container_id) _
            (optional-IsWord b'c' (text "ontainer_id") m.container_id (ground arith)
              p.container_id_bytes)
            (All-append _ (optional (text "instance") m.instance_id) _
              (optional-IsWord b'i' (text "nstance") m.instance_id (ground arith) p.instance_bytes)
              (optional-IsWord b'p' (text "refix") m.label_prefix (ground arith) p.prefix_bytes)),
      ),
    ),
  ),
)

-- The marker's line starts with its prefix, and its pairs stand behind the first `|`.
pub encode_prefix : (m : Marker) → has_prefix (encode m) marker_prefix ≡ true
unfolding encode has_prefix
encode_prefix m = refl

cut-encode :
    (m : Marker)
    → cut (encode m) b'|'
      ≡ some (marker_prefix ++ (b' ' ∷ (marker_notice ++ b' ' ∷ [])), b' ' ∷ join (pairs m) b' ')
unfolding encode contains_byte
cut-encode m =
    cut-append (marker_prefix ++ (b' ' ∷ (marker_notice ++ b' ' ∷ []))) (b' ' ∷ join (pairs m) b' ')
      b'|' refl

fields_blank : (s : Text) → fields (b' ' ∷ s) ≡ fields s
unfolding fields
fields_blank s = refl

-- The trimmed line gives the marker back.
pub parse_trimmed-encode : (m : Marker) → IsPrintable m → parse_trimmed (encode m) ≡ some m
unfolding parse_trimmed
parse_trimmed-encode m p =
    rw (encode_prefix m, cut-encode m, parse_trimmed)
      (ap (λ ws. marker_of (read_pairs ws []))
          (fields_blank (join (pairs m) b' ') ∙ fields-join (pairs m) (pairs-IsWord m p))
        ∙ ap marker_of (read_pairs-pairs m p)
        ∙ marker_of-printed m.key m.container m.index m.container_id m.instance_id m.label_prefix
            p.key_set p.index_fits)
