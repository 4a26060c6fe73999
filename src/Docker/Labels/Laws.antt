-- ===== src/Docker/Labels/Laws.antt =====
-- `splitLabel` on the spellings of a label name.
use npmplus_docker_sync.Base.{
  ℕ, ◌^◌, ◌<◌, true, false, none, some, List, [], ◌∷◌, ◌++◌, ◌≡◌, refl, sym, ap, ◌∙◌, All-map, In,
  here, there, inr, is_empty,
}
use npmplus_docker_sync.Base.Dict.{lookup}
use npmplus_docker_sync.Base.Number.{pos, atoi, itoa, decimal, is_digit}
use npmplus_docker_sync.Base.Number.Laws.{atoi-itoa, decimal-IsDigit, decimal-ne-nil}
use npmplus_docker_sync.Base.Text.{Text, ◌=?◌, split, join}
use npmplus_docker_sync.Docker.Labels.{
  LabelName, no_name, kind_aliases, read_tokens, with_field, split_label,
}
use npmplus_docker_sync.Fields.Names.{normalize, parts_of}
use npmplus_docker_sync.Fields.Names.Laws.{
  IsSegment, parts_of-IsSegment, parts_of-cons, segments-split-join,
}
use npmplus_docker_sync.Npm.Kind.{Kind, kinds, to_text, proxy, redirect, stream, dead, other}
use npmplus_docker_sync.Docker.Labels.Words.{plain_byte, word-IsSegment}

-- The tokens of a name that begins with two segments.
tokens :
    (a b rest : Text)
    → IsSegment a
    → IsSegment b
    → split (normalize (a ++ (b'.' ∷ b ++ (b'.' ∷ rest)))) b'.' ≡ a ∷ b ∷ parts_of rest
unfolding normalize
tokens a b rest h k =
    ap (λ ps. split (join ps b'.') b'.')
      (parts_of-cons a (b ++ (b'.' ∷ rest)) h ∙ ap (λ r. a ∷ r) (parts_of-cons b rest k))
    ∙ segments-split-join a (b ∷ parts_of rest) (h, (k, parts_of-IsSegment rest))

-- The label name with both parts.
abbrev pub label_name : Kind → ℕ → LabelName
label_name kind n = record { kind = kind; kind_set = true; index = n; index_set = true }

read_tokens_done :
    (kind : Kind) (n : ℕ) (ts : List Text)
    → read_tokens (label_name kind n) ts ≡ inr (label_name kind n, ts)
unfolding read_tokens
read_tokens_done kind n [] = refl
read_tokens_done kind n (t ∷ ts) = refl

module _ (k i rest : Text) (kind : Kind) (n : ℕ) where
  read_kind_first :
      lookup k kind_aliases ≡ some kind
      → atoi i ≡ some (pos n)
      → read_tokens no_name (k ∷ i ∷ parts_of rest) ≡ inr (label_name kind n, parts_of rest)
  unfolding read_tokens
  read_kind_first h e = rw h (rw e (read_tokens_done kind n (parts_of rest)))

  read_index_first :
      lookup k kind_aliases ≡ some kind
      → atoi i ≡ some (pos n)
      → lookup i kind_aliases ≡ none
      → read_tokens no_name (i ∷ k ∷ parts_of rest) ≡ inr (label_name kind n, parts_of rest)
  unfolding read_tokens
  read_index_first h e g = rw g (rw e (rw h (read_tokens_done kind n (parts_of rest))))

  split_label_kind_first :
      IsSegment k
      → IsSegment i
      → lookup k kind_aliases ≡ some kind
      → atoi i ≡ some (pos n)
      → split_label (k ++ (b'.' ∷ i ++ (b'.' ∷ rest)))
        ≡ with_field (inr (label_name kind n, parts_of rest))
  unfolding split_label
  split_label_kind_first sk si h e =
      ap (λ ts. with_field (read_tokens no_name ts)) (tokens k i rest sk si)
      ∙ ap with_field (read_kind_first h e)

  -- The kind and the index may stand in either order: `<kind>.<index>.<field>` and
  -- `<index>.<kind>.<field>` are read alike, for a spelling of a kind and a number that is no
  -- spelling of a kind itself.
  pub split_label_swap :
      IsSegment k
      → IsSegment i
      → lookup k kind_aliases ≡ some kind
      → atoi i ≡ some (pos n)
      → lookup i kind_aliases ≡ none
      → split_label (i ++ (b'.' ∷ k ++ (b'.' ∷ rest)))
        ≡ split_label (k ++ (b'.' ∷ i ++ (b'.' ∷ rest)))
  unfolding split_label
  split_label_swap sk si h e g =
      ap (λ ts. with_field (read_tokens no_name ts)) (tokens i k rest si sk)
      ∙ ap with_field (read_index_first h e g)
      ∙ sym (split_label_kind_first sk si h e)

other-not_kinds : (k : Text) → In (other k) kinds → ⊥
other-not_kinds k (here e) = cc
other-not_kinds k (there (here e)) = cc
other-not_kinds k (there (there (here e))) = cc
other-not_kinds k (there (there (there (here e)))) = cc
other-not_kinds k (there (there (there (there i)))) = elim i [ ]

-- The name of a kind is a spelling of it, and a segment.
kind-IsSegment : (kind : Kind) → In kind kinds → IsSegment (to_text kind)
unfolding to_text plain_byte is_digit
kind-IsSegment proxy i = word-IsSegment _ (refl, (refl, (refl, (refl, (refl, tt))))) refl
kind-IsSegment redirect i =
    word-IsSegment _ (refl, (refl, (refl, (refl, (refl, (refl, (refl, (refl, tt)))))))) refl
kind-IsSegment stream i = word-IsSegment _ (refl, (refl, (refl, (refl, (refl, (refl, tt)))))) refl
kind-IsSegment dead i = word-IsSegment _ (refl, (refl, (refl, (refl, tt)))) refl
kind-IsSegment (other k) i = absurd (other-not_kinds k i)

kind-alias : (kind : Kind) → In kind kinds → lookup (to_text kind) kind_aliases ≡ some kind
unfolding to_text lookup ◌=?◌
kind-alias proxy i = refl
kind-alias redirect i = refl
kind-alias stream i = refl
kind-alias dead i = refl
kind-alias (other k) i = absurd (other-not_kinds k i)

number-IsSegment : (n : ℕ) → IsSegment (itoa (pos n))
unfolding itoa
number-IsSegment n =
    word-IsSegment (decimal n) (All-map _ digit_plain (decimal n) (decimal-IsDigit n))
      (decimal-ne-nil n)
  where
    digit_plain : (c : ℕ) → is_digit c ≡ true → plain_byte c ≡ true
    digit_plain c h = unfold plain_byte in rw h refl

with_field_kept :
    (p : LabelName) (field : Text)
    → is_empty (normalize field) ≡ false
    → with_field (inr (p, parts_of field)) ≡ inr (p, normalize field)
unfolding with_field normalize
with_field_kept p field h = rw h refl

-- The name of a resource's label gives the kind, the index and the normalised field back: for every
-- kind, every index of 63 bits, and every field whose normalised name is not empty.
pub split_label-itoa :
    (kind : Kind) (n : ℕ) (field : Text)
    → In kind kinds
    → n < 2 ^ 63
    → is_empty (normalize field) ≡ false
    → split_label (to_text kind ++ (b'.' ∷ itoa (pos n) ++ (b'.' ∷ field)))
      ≡ inr (label_name kind n, normalize field)
split_label-itoa kind n field i h e =
    split_label_kind_first (to_text kind) (itoa (pos n)) field kind n (kind-IsSegment kind i)
      (number-IsSegment n) (kind-alias kind i) (atoi-itoa (pos n) h)
    ∙ with_field_kept (label_name kind n) field e
