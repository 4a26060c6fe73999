-- ===== src/Docker/Labels/Negative.antt =====
-- No label has a negative index.
use npmplus_docker_sync.Base.{
  ℕ, Bool, true, false, Option, none, some, List, [], ◌∷◌, ◌⊎◌, ◌≡◌, ◌≢◌, refl, arith, All, All-map,
  inl, inr, if◌then◌else◌, is_empty,
}
use npmplus_docker_sync.Base.Dict.{lookup}
use npmplus_docker_sync.Base.Number.{ℤ, pos, negsuc, atoi}
use npmplus_docker_sync.Base.Number.Laws.{atoi-ne-negsuc}
use npmplus_docker_sync.Base.Text.{Text, split, join}
use npmplus_docker_sync.Docker.Labels.{
  LabelName, NameError, negative_index, missing_field, no_name, Read, if_kind, if_index,
  kind_aliases, unless, read_tokens, with_field, split_label,
}
use npmplus_docker_sync.Fields.Names.{normalize, parts_of}
use npmplus_docker_sync.Fields.Names.Laws.{
  IsSegment, IsFolded, parts_of-IsSegment, segments-split-join,
}
use npmplus_docker_sync.Npm.Kind.{Kind}

token-ne-negsuc : (t : Text) (n : ℕ) → All IsFolded t → atoi t ≢ some (negsuc n)
token-ne-negsuc [] n h k = unfold atoi in cc
token-ne-negsuc (c ∷ t) n h k = atoi-ne-negsuc c t n (ground (arith, h.0.1)) k

-- No token of a normalised name is read as a negative number.
read_tokens-ne-negative :
    (p : LabelName) (ts : List Text) → All (All IsFolded) ts → read_tokens p ts ≢ inl negative_index
unfolding read_tokens
read_tokens-ne-negative p [] h k = cc
read_tokens-ne-negative p (t ∷ ts) h k =
    step (unless p.kind_set (lookup t kind_aliases)) (unless p.index_set (atoi t))
      (fresh p.index_set) (λ q. read_tokens-ne-negative q ts h.1) k
  where
    fresh : (b : Bool) (n : ℕ) → unless b (atoi t) ≢ some (negsuc n)
    fresh true n e = cc
    fresh false n e = token-ne-negsuc t n h.0 e

    step :
        (a : Option Kind) (o : Option ℤ)
        → ((n : ℕ) → o ≢ some (negsuc n))
        → ((q : LabelName) → read_tokens q ts ≢ inl negative_index)
        → if_kind a
            (λ q. read_tokens (record p { kind = q; kind_set = true }) ts)
            (if_index o
              (λ n. read_tokens (record p { index = n; index_set = true }) ts)
              (inr (p, t ∷ ts)))
          ≡ inl negative_index
        → ⊥
    step (some q) o f ih j = ih (record p { kind = q; kind_set = true }) j
    step none none f ih j = cc
    step none (some (negsuc n)) f ih j = f n refl
    step none (some (pos n)) f ih j = ih (record p { index = n; index_set = true }) j

with_field-ne-negative : (r : Read) → r ≢ inl negative_index → with_field r ≢ inl negative_index
unfolding with_field
with_field-ne-negative (inl missing_field) h k = cc
with_field-ne-negative (inl negative_index) h k = h refl
with_field-ne-negative (inr (p, ts)) h k = step (is_empty (join ts b'.')) k
  where
    step :
        (b : Bool)
        → ◌≡◌ {A = NameError ⊎ LabelName × Text}
            (if b then inl missing_field else inr (p, join ts b'.'))
            (inl negative_index)
        → ⊥
    step true j = cc
    step false j = cc

segments-IsFolded : (ps : List Text) → All IsSegment ps → All (All IsFolded) ps
segments-IsFolded ps h = All-map IsSegment (λ p s. s.0) ps h

split-join-IsFolded :
    (ps : List Text) → All IsSegment ps → All (All IsFolded) (split (join ps b'.') b'.')
split-join-IsFolded [] h = unfold split join in (tt, tt)
split-join-IsFolded (p ∷ ps) h = rw (segments-split-join p ps h) (segments-IsFolded (p ∷ ps) h)

-- The index of a label is never negative: the test for it cannot fail, since the minus is read as a
-- separator before.
pub split_label-ne-negative : (rest : Text) → split_label rest ≢ inl negative_index
unfolding split_label normalize
split_label-ne-negative rest = with_field-ne-negative _ (
    read_tokens-ne-negative no_name _
      (split-join-IsFolded (parts_of rest) (parts_of-IsSegment rest)))
