-- ===== src/Base/Text.antt =====
-- Go's strings as lists of bytes, and the functions of `strings` that the program calls. The
-- letters and blanks of `strings.ToLower` and `strings.TrimSpace` are those of ASCII.
pub mod Laws
use Prim.Native.Char.{code}
use Prim.Native.String.{String}
use Prim.Native.Nat.{ℕ, ◌+◌}
use mathlib.Core.Path.{◌≡◌, refl}
use mathlib.Core.Logic.{◌↔◌}
use mathlib.Core.Bool.{Bool, true, false, not, ◌&&◌, ◌||◌}
use mathlib.Core.Option.{Option, none, some}
use mathlib.Core.List.{List, [], ◌∷◌, ◌++◌, reverse}
use native.Mathlib.Omega.{arith}
use npmplus_docker_sync.Base.Lists.{is_empty}
use npmplus_docker_sync.Base.Tests.{ltb, leb, ◌==◌, if◌then◌else◌}

abbrev pub Text : Type 0
Text = List ℕ

-- The bytes of an ASCII literal.
abbrev pub text : String → Text
text String.[] = []
text (String.◌∷◌ c s) = code c ∷ text s

infix 50 ◌=?◌ ◌<?◌
-- `a == b`
unfoldable pub ◌=?◌ : Text → Text → Bool
[] =? [] = true
(x ∷ xs) =? (y ∷ ys) = x == y && xs =? ys
_ =? _ = false

-- `a < b`
unfoldable pub ◌<?◌ : Text → Text → Bool
[] <? [] = false
[] <? (y ∷ ys) = true
(x ∷ xs) <? [] = false
(x ∷ xs) <? (y ∷ ys) = ltb x y || x == y && xs <? ys

unfoldable pub is_space : ℕ → Bool
is_space c = c == b' ' || leb 9 c && leb c 13

abbrev pub lower_byte : ℕ → ℕ
lower_byte c = if leb b'A' c && leb c b'Z' then c + 32 else c

-- `strings.ToLower`
unfoldable pub to_lower : Text → Text
to_lower [] = []
to_lower (c ∷ s) = lower_byte c ∷ to_lower s

unfoldable pub trim_left : Text → Text
trim_left [] = []
trim_left (c ∷ s) = elim (is_space c) [ true ↦ trim_left s | false ↦ c ∷ s ]

unfoldable pub trim_right : Text → Text
unfolding is_space
trim_right [] = []
trim_right (c ∷ s) = let rest = trim_right s in if is_empty rest && is_space c then [] else c ∷ rest

-- `strings.TrimSpace`
unfoldable pub trim_space : Text → Text
unfolding trim_left trim_right is_space
trim_space s = trim_right (trim_left s)

-- `strings.EqualFold`
unfoldable pub equal_fold : Text → Text → Bool
unfolding to_lower ◌=?◌
equal_fold a b = to_lower a =? to_lower b

-- `strings.CutPrefix(s, p)`: what follows the prefix, if it is there.
unfoldable pub cut_prefix : Text → Text → Option Text
cut_prefix s [] = some s
cut_prefix [] (y ∷ p) = none
cut_prefix (x ∷ s) (y ∷ p) = if x == y then cut_prefix s p else none

-- `strings.HasPrefix(s, p)`
unfoldable pub has_prefix : Text → Text → Bool
unfolding cut_prefix
has_prefix s p = elim (cut_prefix s p) [ none ↦ false | some rest ↦ true ]

-- `strings.TrimPrefix(s, p)`
unfoldable pub trim_prefix : Text → Text → Text
unfolding cut_prefix
trim_prefix s p = elim (cut_prefix s p) [ none ↦ s | some rest ↦ rest ]

-- `strings.TrimSuffix(s, ".")`, for a suffix of one byte.
unfoldable pub trim_suffix : Text → ℕ → Text
trim_suffix [] c = []
trim_suffix (x ∷ []) c = if x == c then [] else x ∷ []
trim_suffix (x ∷ y ∷ s) c = x ∷ trim_suffix (y ∷ s) c

-- `strings.Cut(s, c)`, for a separator of one byte.
unfoldable pub cut : Text → ℕ → Option (Text × Text)
cut [] c = none
cut (x ∷ s) c =
    let rest = cut s c in
    if x == c then some ([], s) else elim rest [ none ↦ none | some (a, b) ↦ some (x ∷ a, b) ]

abbrev pub push : ℕ → List Text → List Text
push x [] = (x ∷ []) ∷ []
push x (r ∷ rs) = (x ∷ r) ∷ rs

-- `strings.Split(s, c)`, for a separator of one byte.
unfoldable pub split : Text → ℕ → List Text
split [] c = [] ∷ []
split (x ∷ s) c = let rest = split s c in if x == c then [] ∷ rest else push x rest

-- `strings.Join(parts, c)`, for a separator of one byte.
unfoldable pub join : List Text → ℕ → Text
join [] c = []
join (a ∷ []) c = a
join (a ∷ b ∷ more) c = a ++ (c ∷ join (b ∷ more) c)

abbrev pub flush : Text → List Text → List Text
flush [] rest = rest
flush (c ∷ cs) rest = (c ∷ cs) ∷ rest

-- The words of the text at the bytes that separate, behind the word read so far.
unfoldable pub words : (ℕ → Bool) → Text → Text → List Text
words sep word [] = flush word []
words sep word (c ∷ s) = elim (sep c) [
  | true ↦ flush word (words sep [] s)
  | false ↦ words sep (word ++ (c ∷ [])) s
]

-- `strings.Fields`
unfoldable pub fields : Text → List Text
unfolding words is_space
fields = words is_space []

-- `strings.FieldsFunc`
unfoldable pub fields_func : (ℕ → Bool) → Text → List Text
unfolding words
fields_func sep = words sep []

-- `strings.ContainsRune`, for a byte.
unfoldable pub contains_byte : Text → ℕ → Bool
contains_byte [] c = false
contains_byte (x ∷ s) c = x == c || contains_byte s c

-- `strings.Contains(s, p)`
unfoldable pub contains : Text → Text → Bool
unfolding has_prefix
contains [] p = has_prefix [] p
contains (x ∷ s) p = has_prefix (x ∷ s) p || contains s p

pub =?_iff : (a b : Text) → ((a =? b) ≡ true) ↔ (a ≡ b)
unfolding ◌=?◌
=?_iff (x ∷ a) (y ∷ b) = ground (arith, =?_iff a b)
=?_iff _ _ = ground arith

pub =?_refl : (a : Text) → (a =? a) ≡ true
=?_refl a = (=?_iff a a).1 refl
