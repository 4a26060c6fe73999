-- ===== src/Base/Text/Laws.antt =====
-- Laws of the functions on texts: the order, and what cutting, splitting and joining undo.
use mathlib.Core.List.{append-nil, append_assoc, List, [], ◌∷◌, ◌++◌}
use Prim.Native.Nat.{ℕ}
use mathlib.Core.Path.{◌≡◌, refl, sym, ap, ◌∙◌}
use mathlib.Core.Logic.{◌≢◌}
use mathlib.Core.Bool.{Bool, true, false}
use mathlib.Core.Option.{Option, none, some}
use native.Mathlib.Omega.{arith}
use npmplus_docker_sync.Base.Tests.{◌==◌, if◌then◌else◌}
use npmplus_docker_sync.Base.Lists.{All, All-append, All-map, is_empty}
use npmplus_docker_sync.Base.Text.{
  Text, ◌<?◌, is_space, cut_prefix, has_prefix, cut, push, split, join, flush, words, fields,
  contains_byte, trim_left, trim_right, trim_space,
}

-- The order on texts is total and strict.
pub <?_irrefl : (a : Text) → (a <? a) ≡ false
unfolding ◌<?◌
<?_irrefl [] = refl
<?_irrefl (x ∷ a) = ground (arith, <?_irrefl a)

pub <?_trans : (a b c : Text) → (a <? b) ≡ true → (b <? c) ≡ true → (a <? c) ≡ true
unfolding ◌<?◌
<?_trans [] [] c h k = cc
<?_trans [] (y ∷ b) [] h k = cc
<?_trans [] (y ∷ b) (z ∷ c) h k = refl
<?_trans (x ∷ a) [] c h k = cc
<?_trans (x ∷ a) (y ∷ b) [] h k = cc
<?_trans (x ∷ a) (y ∷ b) (z ∷ c) h k = ground (arith, <?_trans a b c)

pub <?_total : (a b : Text) → (a <? b) ≡ false → (b <? a) ≡ false → a ≡ b
unfolding ◌<?◌
<?_total [] [] h k = refl
<?_total [] (y ∷ b) h k = cc
<?_total (x ∷ a) [] h k = cc
<?_total (x ∷ a) (y ∷ b) h k = ground (arith, <?_total a b)

pub cut_prefix-append : (p s : Text) → cut_prefix (p ++ s) p ≡ some s
unfolding cut_prefix
cut_prefix-append [] s = refl
cut_prefix-append (x ∷ p) s = ground (arith, cut_prefix-append p s)

pub has_prefix-append : (p s : Text) → has_prefix (p ++ s) p ≡ true
unfolding has_prefix
has_prefix-append p s = rw (cut_prefix-append p s, has_prefix)

-- A text with no separator is cut nowhere but at the one behind it.
pub cut-append :
    (a b : Text) (c : ℕ) → contains_byte a c ≡ false → cut (a ++ (c ∷ b)) c ≡ some (a, b)
unfolding cut contains_byte
cut-append [] b c h = ground arith
cut-append (x ∷ a) b c h = ground (arith, cut-append a b c)

-- What `strings.Join` puts together after `strings.Split` is the text itself.
join-push : (x : ℕ) (rs : List Text) (c : ℕ) → rs ≢ [] → join (push x rs) c ≡ x ∷ join rs c
unfolding join
join-push x [] c h = absurd (h refl)
join-push x (r ∷ []) c h = refl
join-push x (r ∷ s ∷ rs) c h = refl

split-ne-nil : (s : Text) (c : ℕ) → split s c ≢ []
unfolding split
split-ne-nil [] c h = cc
split-ne-nil (x ∷ s) c h = go (split s c) (x == c) h
  where
    go : (rs : List Text) (b : Bool) → (if b then [] ∷ rs else push x rs) ≡ [] → ⊥
    go rs true h = cc
    go [] false h = cc
    go (r ∷ rs) false h = cc

join-nil-cons : (rs : List Text) (c : ℕ) → rs ≢ [] → join ([] ∷ rs) c ≡ c ∷ join rs c
unfolding join
join-nil-cons [] c h = absurd (h refl)
join-nil-cons (r ∷ rs) c h = refl

pub join-split : (s : Text) (c : ℕ) → join (split s c) c ≡ s
unfolding split
join-split [] c = unfold join in refl
join-split (x ∷ s) c = ground (
  arith,
  join-push x (split s c) c (split-ne-nil s c),
  join-nil-cons (split s c) c (split-ne-nil s c),
  join-split s c,
)

-- A piece with no separator, in front of one, is the first that `strings.Split` gives.
pub split-append :
    (a s : Text) (c : ℕ) → contains_byte a c ≡ false → split (a ++ (c ∷ s)) c ≡ a ∷ split s c
unfolding split contains_byte
split-append [] s c h = ground arith
split-append (x ∷ a) s c h = ground (arith, split-append a s c)

pub split_single : (a : Text) (c : ℕ) → contains_byte a c ≡ false → split a c ≡ a ∷ []
unfolding split contains_byte
split_single [] c h = refl
split_single (x ∷ a) c h = ground (arith, split_single a c)

-- Bytes that do not separate are read into the word.
pub words-append :
    (sep : ℕ → Bool) (a word s : Text)
    → All (λ c. sep c ≡ false) a
    → words sep word (a ++ s) ≡ words sep (word ++ a) s
unfolding words
words-append sep [] word s h = rw append-nil
words-append sep (c ∷ a) word s h =
    rw (h.0, words) (words-append sep a (word ++ (c ∷ [])) s h.1 ∙ rw append_assoc)

abbrev pub IsWord : Text → Type 0
IsWord w = (is_empty w ≡ false) × All (λ c. is_space c ≡ false) w

flush_word : (w : Text) (rest : List Text) → is_empty w ≡ false → flush w rest ≡ w ∷ rest
flush_word [] rest h = cc
flush_word (c ∷ w) rest h = refl

-- `strings.Fields` gives back the words that were joined by a blank.
pub fields-join : (ws : List Text) → All IsWord ws → fields (join ws b' ') ≡ ws
unfolding fields join words is_space
fields-join [] h = refl
fields-join (w ∷ []) h =
    ap (words is_space []) (sym (append-nil w))
    ∙ words-append is_space w [] [] h.0.1
    ∙ flush_word w [] h.0.0
fields-join (w ∷ v ∷ ws) h =
    words-append is_space w [] (b' ' ∷ join (v ∷ ws) b' ') h.0.1
    ∙ flush_word w _ h.0.0
    ∙ ap (λ r. w ∷ r) (fields-join (v ∷ ws) h.1)

-- A text that begins and ends with bytes that are no blanks is trimmed to itself.
trim_right_of_word : (w : Text) → All (λ c. is_space c ≡ false) w → trim_right w ≡ w
unfolding trim_right
trim_right_of_word [] h = refl
trim_right_of_word (c ∷ w) h = rw (trim_right_of_word w h.1) (let k = h.0 in ground arith)

pub trim_space_of_word : (w : Text) → All (λ c. is_space c ≡ false) w → trim_space w ≡ w
unfolding trim_space trim_right
trim_space_of_word [] h = unfold trim_left in refl
trim_space_of_word (c ∷ w) h = rw (h.0, trim_left) (trim_right_of_word (c ∷ w) h)

is_empty-append : (a b : Text) → is_empty b ≡ false → is_empty (a ++ b) ≡ false
is_empty-append [] b h = h
is_empty-append (c ∷ a) b h = refl

is_empty-append_left : (a b : Text) → is_empty a ≡ false → is_empty (a ++ b) ≡ false
is_empty-append_left [] b h = cc
is_empty-append_left (c ∷ a) b h = refl

join-ne-nil :
    (v : Text) (ws : List Text) → All IsWord (v ∷ ws) → is_empty (join (v ∷ ws) b' ') ≡ false
unfolding join
join-ne-nil v [] h = h.0.0
join-ne-nil v (w ∷ ws) h = is_empty-append_left v _ h.0.0

space_line : (c : ℕ) → is_space c ≡ false → (c == b'\n') ≡ false
unfolding is_space
space_line c h = ground arith

trim_right-append :
    (a b : Text) → is_empty b ≡ false → trim_right b ≡ b → trim_right (a ++ b) ≡ a ++ b
unfolding trim_right
trim_right-append [] b h k = k
trim_right-append (c ∷ a) b h k =
    rw (trim_right-append a b h k, trim_right) (rw (is_empty-append a b h))

trim_right-join : (ws : List Text) → All IsWord ws → trim_right (join ws b' ') ≡ join ws b' '
unfolding join
trim_right-join [] h = unfold trim_right in refl
trim_right-join (w ∷ []) h = trim_right_of_word w h.0.1
trim_right-join (w ∷ v ∷ ws) h = trim_right-append w (b' ' ∷ join (v ∷ ws) b' ') refl (
    trim_right-append (b' ' ∷ []) (join (v ∷ ws) b' ') (join-ne-nil v ws h.1)
      (trim_right-join (v ∷ ws) h.1))

join-ne-nil_of_words :
    (ws : List Text) → is_empty ws ≡ false → All IsWord ws → is_empty (join ws b' ') ≡ false
join-ne-nil_of_words [] e h = cc
join-ne-nil_of_words (v ∷ ws) e h = join-ne-nil v ws h

-- Joined words behind a text that begins with no blank stay as they are.
pub trim_space_of_words :
    (c : ℕ) (s : Text) (ws : List Text)
    → is_space c ≡ false
    → is_empty ws ≡ false
    → All IsWord ws
    → trim_space (c ∷ (s ++ join ws b' ')) ≡ c ∷ (s ++ join ws b' ')
unfolding trim_space
trim_space_of_words c s ws h e k =
    rw (h, trim_left)
      (trim_right-append (c ∷ s) (join ws b' ') (join-ne-nil_of_words ws e k)
        (trim_right-join ws k))

-- Words and the blanks that join them hold no line break.
pub join-no_line : (ws : List Text) → All IsWord ws → All (λ c. (c == b'\n') ≡ false) (join ws b' ')
unfolding join
join-no_line [] h = tt
join-no_line (w ∷ []) h = All-map _ space_line w h.0.1
join-no_line (w ∷ v ∷ ws) h =
    All-append _ w _ (All-map _ space_line w h.0.1) (refl, join-no_line (v ∷ ws) h.1)

pub contains_byte_of_All :
    (s : Text) (c : ℕ) → All (λ x. (x == c) ≡ false) s → contains_byte s c ≡ false
unfolding contains_byte
contains_byte_of_All [] c h = refl
contains_byte_of_All (x ∷ s) c h = let k = h.0 in ground (arith, contains_byte_of_All s c h.1)

-- What `strings.CutPrefix` and `strings.Cut` return puts the text together again.
pub cut_prefix_sound : (s p r : Text) → cut_prefix s p ≡ some r → s ≡ p ++ r
unfolding cut_prefix
cut_prefix_sound s [] r h = ground arith
cut_prefix_sound [] (y ∷ p) r h = cc
cut_prefix_sound (x ∷ s) (y ∷ p) r h = ground (arith, cut_prefix_sound s p r)

cut_step :
    (x c : ℕ) (s : Text) (o : Option (Text × Text)) (a b : Text)
    → ((a' b' : Text) → o ≡ some (a', b') → (s ≡ a' ++ (c ∷ b')) × (contains_byte a' c ≡ false))
    → if◌then◌else◌ {A = Option (Text × Text)}
        (x == c)
        (some ([], s))
        (elim o [ none ↦ none | some (a, b) ↦ some (x ∷ a, b) ])
      ≡ some (a, b)
    → (x ∷ s ≡ a ++ (c ∷ b)) × (contains_byte a c ≡ false)
unfolding contains_byte
cut_step x c s none a b ih h = ground arith
cut_step x c s (some (a', b')) a b ih h = ground (arith, ih a' b' refl)

pub cut_sound :
    (s : Text) (c : ℕ) (a b : Text)
    → cut s c ≡ some (a, b)
    → (s ≡ a ++ (c ∷ b)) × (contains_byte a c ≡ false)
unfolding cut
cut_sound [] c a b h = absurd (cc)
cut_sound (x ∷ s) c a b h = cut_step x c s (cut s c) a b (λ a' b'. cut_sound s c a' b') h
