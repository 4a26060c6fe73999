-- ===== src/Fields/Names/Laws.antt =====
-- `normalize` gives a name whose segments are trimmed and folded, and folds it no further.
use npmplus_docker_sync.Base.{
  ℕ, ◌==◌, Bool, true, false, ◌&&◌, List, [], ◌∷◌, ◌++◌, ◌≡◌, refl, ap, ◌∙◌, arith, if◌then◌else◌,
  is_empty, All, All-append,
}
use npmplus_docker_sync.Base.Text.{
  Text, to_lower, lower_byte, trim_space, trim_left, trim_right, is_space, split, push, join,
}
use npmplus_docker_sync.Base.Text.Laws.{split-append, split_single, contains_byte_of_All}
use npmplus_docker_sync.Fields.Names.{
  separator_byte, replace_separators, segments, parts_of, normalize,
}

-- A byte that neither the lower case nor the replacer changes.
abbrev pub IsFolded : ℕ → Type 0
IsFolded c = (lower_byte c ≡ c) × (separator_byte c ≡ c)

fold-IsFolded : (c : ℕ) → IsFolded (separator_byte (lower_byte c))
fold-IsFolded c = ground arith

replace_separators-IsFolded : (s : Text) → All IsFolded (replace_separators (to_lower s))
unfolding to_lower replace_separators
replace_separators-IsFolded [] = tt
replace_separators-IsFolded (c ∷ s) = (fold-IsFolded c, replace_separators-IsFolded s)

fold_of_IsFolded : (s : Text) → All IsFolded s → replace_separators (to_lower s) ≡ s
unfolding to_lower replace_separators
fold_of_IsFolded [] h = refl
fold_of_IsFolded (c ∷ s) h = rw (h.0.0) (rw (h.0.1) (ap (λ r. c ∷ r) (fold_of_IsFolded s h.1)))

abbrev NotDot : ℕ → Type 0
NotDot c = (c == b'.') ≡ false

-- A segment: folded, without a separator, and trimmed.
abbrev pub IsSegment : Text → Type 0
IsSegment p = All IsFolded p × (All NotDot p) × (is_empty p ≡ false) × (trim_space p ≡ p)

-- What trimming leaves begins with no blank.
abbrev pub Starts : Text → Type 0
Starts [] = Unit
Starts (c ∷ s) = is_space c ≡ false

pub trim_left-Starts : (s : Text) → Starts (trim_left s)
unfolding trim_left
trim_left-Starts [] = tt
trim_left-Starts (c ∷ s) = step c s (is_space c) refl (trim_left-Starts s)
  where
    step :
        (c : ℕ) (s : Text) (b : Bool)
        → is_space c ≡ b
        → Starts (trim_left s)
        → Starts (elim b [ true ↦ trim_left s | false ↦ c ∷ s ])
    step c s true e h = h
    step c s false e h = e

trim_left_of_Starts : (s : Text) → Starts s → trim_left s ≡ s
unfolding trim_left
trim_left_of_Starts [] h = refl
trim_left_of_Starts (c ∷ s) h = rw (h, trim_left) refl

pub trim_right-Starts : (s : Text) → Starts s → Starts (trim_right s)
unfolding trim_right
trim_right-Starts [] h = tt
trim_right-Starts (c ∷ s) h = step (is_empty (trim_right s))
  where
    step : (b : Bool) → Starts (if b && is_space c then [] else c ∷ trim_right s)
    step true = rw h h
    step false = h

trim_right_idem : (s : Text) → trim_right (trim_right s) ≡ trim_right s
unfolding trim_right
trim_right_idem [] = refl
trim_right_idem (c ∷ s) = step (trim_right s) (trim_right_idem s) (is_space c) refl
  where
    step :
        (r : Text)
        → trim_right r ≡ r
        → (b : Bool) → is_space c ≡ b
        → trim_right (if is_empty r && b then [] else c ∷ r)
          ≡ (if is_empty r && b then [] else c ∷ r)
    step [] e true h = refl
    step [] e false h = rw h refl
    step (x ∷ r) e b h = rw e refl

pub trim_space_idem : (s : Text) → trim_space (trim_space s) ≡ trim_space s
unfolding trim_space
trim_space_idem s =
    ap trim_right (trim_left_of_Starts _ (trim_right-Starts _ (trim_left-Starts s)))
    ∙ trim_right_idem (trim_left s)

-- Trimming keeps what holds of all bytes.
module _ (P : ℕ → Type 0) where
  trim_left-All : (s : Text) → All P s → All P (trim_left s)
  unfolding trim_left
  trim_left-All [] h = tt
  trim_left-All (c ∷ s) h = step (is_space c) (trim_left-All s h.1)
    where
      step :
          (b : Bool) → All P (trim_left s) → All P (elim b [ true ↦ trim_left s | false ↦ c ∷ s ])
      step true ih = ih
      step false ih = h

  trim_right-All : (s : Text) → All P s → All P (trim_right s)
  unfolding trim_right
  trim_right-All [] h = tt
  trim_right-All (c ∷ s) h = step (is_empty (trim_right s) && is_space c) (trim_right-All s h.1)
    where
      step : (b : Bool) → All P (trim_right s) → All P (if b then [] else c ∷ trim_right s)
      step true ih = tt
      step false ih = (h.0, ih)

  trim_space-All : (s : Text) → All P s → All P (trim_space s)
  unfolding trim_space
  trim_space-All s h = trim_right-All (trim_left s) (trim_left-All s h)

-- What holds of all bytes of a text holds of its pieces, which have no separator.
split-All : (P : ℕ → Type 0) (s : Text) → All P s → All (All P) (split s b'.')
unfolding split
split-All P [] h = (tt, tt)
split-All P (c ∷ s) h = step (c == b'.') (split s b'.') (split-All P s h.1)
  where
    step : (b : Bool) (r : List Text) → All (All P) r → All (All P) (if b then [] ∷ r else push c r)
    step true r ih = (tt, ih)
    step false [] ih = ((h.0, tt), tt)
    step false (q ∷ r) ih = ((h.0, ih.0), ih.1)

split-NotDot : (s : Text) → All (All NotDot) (split s b'.')
unfolding split
split-NotDot [] = (tt, tt)
split-NotDot (c ∷ s) = step c (c == b'.') refl (split s b'.') (split-NotDot s)
  where
    step :
        (c : ℕ) (b : Bool)
        → (c == b'.') ≡ b
        → (r : List Text) → All (All NotDot) r
        → All (All NotDot) (if b then [] ∷ r else push c r)
    step c true e r ih = (tt, ih)
    step c false e [] ih = ((e, tt), tt)
    step c false e (q ∷ r) ih = ((e, ih.0), ih.1)

segments-IsSegment :
    (ps : List Text) → All (All IsFolded) ps → All (All NotDot) ps → All IsSegment (segments ps)
unfolding segments
segments-IsSegment [] h k = tt
segments-IsSegment (p ∷ ps) h k =
    step (trim_space p) (trim_space-All IsFolded p h.0) (trim_space-All NotDot p k.0)
      (trim_space_idem p) (segments ps) (segments-IsSegment ps h.1 k.1)
  where
    step :
        (q : Text)
        → All IsFolded q
        → All NotDot q
        → trim_space q ≡ q
        → (r : List Text) → All IsSegment r
        → All IsSegment (if is_empty q then r else q ∷ r)
    step [] f d e r ih = ih
    step (c ∷ q) f d e r ih = ((f, d, refl, e), ih)

-- Every part of a name is a segment.
pub parts_of-IsSegment : (name : Text) → All IsSegment (parts_of name)
unfolding parts_of
parts_of-IsSegment name =
    let folded = replace_separators (to_lower name) in
    segments-IsSegment (split folded b'.')
      (split-All IsFolded folded (replace_separators-IsFolded name)) (split-NotDot folded)

join-IsFolded : (ps : List Text) → All IsSegment ps → All IsFolded (join ps b'.')
unfolding join
join-IsFolded [] h = tt
join-IsFolded (p ∷ []) h = h.0.0
join-IsFolded (p ∷ q ∷ ps) h =
    All-append IsFolded p _ h.0.0 ((ground arith, ground arith), join-IsFolded (q ∷ ps) h.1)

pub segments-split-join :
    (p : Text) (ps : List Text) → All IsSegment (p ∷ ps) → split (join (p ∷ ps) b'.') b'.' ≡ p ∷ ps
unfolding join
segments-split-join p [] h = split_single p b'.' (contains_byte_of_All p b'.' h.0.1)
segments-split-join p (q ∷ ps) h =
    split-append p _ b'.' (contains_byte_of_All p b'.' h.0.1)
    ∙ ap (λ r. p ∷ r) (segments-split-join q ps h.1)

segments_of_IsSegment : (ps : List Text) → All IsSegment ps → segments ps ≡ ps
unfolding segments
segments_of_IsSegment [] h = refl
segments_of_IsSegment (p ∷ ps) h =
    rw (h.0.3, h.0.2) (ap (λ r. p ∷ r) (segments_of_IsSegment ps h.1))

-- The parts of a name that is put together from segments are these segments.
parts_of-join : (ps : List Text) → All IsSegment ps → parts_of (join ps b'.') ≡ ps
unfolding parts_of
parts_of-join [] h =
    unfold join to_lower replace_separators split segments trim_space trim_left trim_right in refl
parts_of-join (p ∷ ps) h =
    rw (fold_of_IsFolded _ (join-IsFolded (p ∷ ps) h), segments-split-join p ps h)
      (segments_of_IsSegment (p ∷ ps) h)

fold-append :
    (a s : Text)
    → replace_separators (to_lower (a ++ s))
      ≡ replace_separators (to_lower a) ++ replace_separators (to_lower s)
unfolding to_lower replace_separators
fold-append [] s = refl
fold-append (c ∷ a) s = ap (λ r. separator_byte (lower_byte c) ∷ r) (fold-append a s)

fold-segment :
    (a s : Text)
    → All IsFolded a
    → replace_separators (to_lower (a ++ (b'.' ∷ s)))
      ≡ a ++ (b'.' ∷ replace_separators (to_lower s))
fold-segment a s h =
    fold-append a (b'.' ∷ s)
    ∙ ap (λ r. r ++ replace_separators (to_lower (b'.' ∷ s))) (fold_of_IsFolded a h)
    ∙ unfold to_lower replace_separators in refl

-- The parts of a name that begins with a segment.
pub parts_of-cons : (a s : Text) → IsSegment a → parts_of (a ++ (b'.' ∷ s)) ≡ a ∷ parts_of s
unfolding parts_of segments
parts_of-cons a s h =
    ap (λ r. segments (split r b'.')) (fold-segment a s h.0)
    ∙ ap segments (split-append a _ b'.' (contains_byte_of_All a b'.' h.1))
    ∙ rw (h.3, h.2) refl

-- Normalising a name twice is normalising it once.
normalize_idem : (name : Text) → normalize (normalize name) ≡ normalize name
unfolding normalize
normalize_idem name =
    ap (λ r. join r b'.') (parts_of-join (parts_of name) (parts_of-IsSegment name))
