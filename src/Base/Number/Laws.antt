-- ===== src/Base/Number/Laws.antt =====
-- `strconv.Atoi` reads back what `strconv.Itoa` prints.
use Prim.Native.Nat.{ℕ, zero, suc, ◌+◌, ◌-◌, ◌*◌, ◌/◌, ◌%◌, ◌^◌, ◌<◌}
use mathlib.Core.Path.{◌≡◌, refl, ap, ◌∙◌}
use mathlib.Core.Logic.{◌≢◌, inl, inr}
use mathlib.Core.Bool.{Bool, true, false}
use mathlib.Core.Option.{Option, none, some}
use mathlib.Core.List.{[], ◌∷◌, ◌++◌}
use native.Mathlib.Omega.{arith}
use npmplus_docker_sync.Base.Tests.{ltb, leb, ◌==◌, if◌then◌else◌, Bool-cases, ltb→lt}
use npmplus_docker_sync.Base.Lists.{All, All-append, is_empty}
use npmplus_docker_sync.Base.Text.{Text}
use npmplus_docker_sync.Base.Number.{
  ℤ, pos, negsuc, equal_int, digits, decimal, itoa, is_digit, read_digits, unsigned, within_pos,
  within_neg, atoi, max_int,
}

pub equal_int_refl : (z : ℤ) → equal_int z z ≡ true
unfolding equal_int
equal_int_refl (pos n) = ground arith
equal_int_refl (negsuc n) = ground arith

pub equal_int_sound : (a b : ℤ) → equal_int a b ≡ true → a ≡ b
unfolding equal_int
equal_int_sound (pos a) (pos b) h = ground arith
equal_int_sound (pos a) (negsuc b) h = ground arith
equal_int_sound (negsuc a) (pos b) h = ground arith
equal_int_sound (negsuc a) (negsuc b) h = ground arith

read_digits-append :
    (s t : Text) (acc n : ℕ)
    → read_digits acc s ≡ some n
    → read_digits acc (s ++ t) ≡ read_digits n t
unfolding read_digits
read_digits-append [] t acc n h = ground arith
read_digits-append (c ∷ s) t acc n h =
    ground (arith, read_digits-append s t (acc * 10 + (c - 48)) n)

digit_is_digit : (d : ℕ) → d < 10 → is_digit (48 + d) ≡ true
unfolding is_digit
digit_is_digit d h = ground arith

read_digit : (acc d : ℕ) → d < 10 → read_digits acc ((48 + d) ∷ []) ≡ some (acc * 10 + d)
unfolding read_digits
read_digit acc d h = rw (digit_is_digit d h) (ap some (omega arith))

read_digits-digits : (f n : ℕ) → n < f → read_digits 0 (digits f n) ≡ some n
unfolding digits
read_digits-digits zero n h = absurd (omega arith)
read_digits-digits (suc f) n h = elim (Bool-cases (ltb n 10)) [
  | inl small ↦ rw small (read_digit 0 n (ltb→lt n 10 small) ∙ ap some (omega arith))
  | inr big ↦ rw big (
      read_digits-append (digits f (n / 10)) _ 0 (n / 10)
        (read_digits-digits f (n / 10) (ground arith))
      ∙ read_digit (n / 10) (n % 10) (omega arith)
      ∙ ap some (omega arith))
]

digits-IsDigit : (f n : ℕ) → All (λ c. is_digit c ≡ true) (digits f n)
unfolding digits
digits-IsDigit zero n = tt
digits-IsDigit (suc f) n = elim (Bool-cases (ltb n 10)) [
  | inl small ↦ rw small (digit_is_digit n (ltb→lt n 10 small), tt)
  | inr big ↦ rw big (
      All-append _ (digits f (n / 10)) _ (digits-IsDigit f (n / 10))
        (digit_is_digit (n % 10) (omega arith), tt))
]

digits-ne-nil : (f n : ℕ) → is_empty (digits (suc f) n) ≡ false
unfolding digits
digits-ne-nil f n = go (digits f (n / 10)) (ltb n 10)
  where
    go :
        (more : Text) (b : Bool)
        → is_empty (if b then (48 + n) ∷ [] else more ++ ((48 + n % 10) ∷ [])) ≡ false
    go more true = refl
    go [] false = refl
    go (c ∷ more) false = refl

unsigned_lem : (s : Text) → is_empty s ≡ false → unsigned s ≡ read_digits 0 s
unfolding unsigned
unsigned_lem [] h = cc
unsigned_lem (c ∷ s) h = refl

atoi_digits :
    (s : Text)
    → is_empty s ≡ false
    → All (λ c. is_digit c ≡ true) s
    → atoi s ≡ within_pos (unsigned s)
unfolding atoi is_digit
atoi_digits [] h d = cc
atoi_digits (c ∷ s) h d = let k = d.0 in ground arith

-- The digits and the sign of a number.
pub decimal-IsDigit : (n : ℕ) → All (λ c. is_digit c ≡ true) (decimal n)
decimal-IsDigit n = digits-IsDigit (suc n) n

pub decimal-ne-nil : (n : ℕ) → is_empty (decimal n) ≡ false
decimal-ne-nil n = digits-ne-nil n n

read_decimal : (n : ℕ) → unsigned (decimal n) ≡ some n
read_decimal n =
    unsigned_lem (decimal n) (decimal-ne-nil n) ∙ read_digits-digits (suc n) n (omega arith)

-- An `int` of 64 bits.
abbrev pub IsInt64 : ℤ → Type 0
IsInt64 (pos n) = n < 2 ^ 63
IsInt64 (negsuc n) = n < 2 ^ 63

pub atoi-itoa : (z : ℤ) → IsInt64 z → atoi (itoa z) ≡ some z
unfolding itoa
atoi-itoa (pos n) h =
    atoi_digits (decimal n) (decimal-ne-nil n) (decimal-IsDigit n)
    ∙ rw (read_decimal n) (unfold within_pos in ground arith)
atoi-itoa (negsuc n) h =
    unfold atoi in rw (read_decimal (suc n)) (unfold within_neg in ground arith)

within_pos-ne-negsuc : (o : Option ℕ) (n : ℕ) → within_pos o ≢ some (negsuc n)
unfolding within_pos
within_pos-ne-negsuc none n h = cc
within_pos-ne-negsuc (some m) n h = step (leb m max_int) h
  where
    step : (b : Bool) → ◌≡◌ {A = Option ℤ} (if b then some (pos m) else none) (some (negsuc n)) → ⊥
    step true k = cc
    step false k = cc

-- A number that is read is negative only where a minus stands in front.
pub atoi-ne-negsuc :
    (c : ℕ) (t : Text) (n : ℕ) → (c == b'-') ≡ false → atoi (c ∷ t) ≢ some (negsuc n)
unfolding atoi
atoi-ne-negsuc c t n h k = step (c == b'+') (rw h at k)
  where
    step :
        (d : Bool)
        → (if d then within_pos (unsigned t) else within_pos (unsigned (c ∷ t))) ≡ some (negsuc n)
        → ⊥
    step true j = within_pos-ne-negsuc (unsigned t) n j
    step false j = within_pos-ne-negsuc (unsigned (c ∷ t)) n j
