-- ===== src/Base/Number.antt =====
-- Go's `int` and the functions of `strconv` on it: `Itoa` and `Atoi` at 64 bits.
pub mod Laws
use Prim.Native.Nat.{ℕ, zero, suc, ◌+◌, ◌-◌, ◌*◌, ◌/◌, ◌%◌, ◌^◌}
use mathlib.Core.Bool.{Bool, true, false, ◌&&◌}
use mathlib.Core.Option.{Option, none, some}
use mathlib.Core.List.{List, [], ◌∷◌, ◌++◌}
use npmplus_docker_sync.Base.Tests.{ltb, leb, ◌==◌, if◌then◌else◌}
use npmplus_docker_sync.Base.Text.{Text}

-- `negsuc n` is -(n + 1).
pub data ℤ : Type 0 where
  pos : ℕ → ℤ
  negsuc : ℕ → ℤ

-- `a == b`
unfoldable pub equal_int : ℤ → ℤ → Bool
equal_int (pos a) (pos b) = a == b
equal_int (negsuc a) (negsuc b) = a == b
equal_int _ _ = false

-- The fuel is one more than the number, and a digit uses one.
unfoldable pub digits : ℕ → ℕ → Text
digits zero n = []
digits (suc f) n =
    let more = digits f (n / 10) in if ltb n 10 then (48 + n) ∷ [] else more ++ ((48 + n % 10) ∷ [])

abbrev pub decimal : ℕ → Text
decimal n = digits (suc n) n

-- `strconv.Itoa`
unfoldable pub itoa : ℤ → Text
unfolding digits
itoa (pos n) = decimal n
itoa (negsuc n) = b'-' ∷ decimal (suc n)

unfoldable pub is_digit : ℕ → Bool
is_digit c = leb b'0' c && leb c b'9'

-- The number that the digits stand for, behind those read so far.
unfoldable pub read_digits : ℕ → Text → Option ℕ
unfolding is_digit
read_digits acc [] = some acc
read_digits acc (c ∷ s) = if is_digit c then read_digits (acc * 10 + (c - 48)) s else none

abbrev max_int : ℕ
max_int = 2 ^ 63 - 1

within_pos : Option ℕ → Option ℤ
within_pos none = none
within_pos (some n) = if leb n max_int then some (pos n) else none

within_neg : Option ℕ → Option ℤ
within_neg none = none
within_neg (some zero) = some (pos 0)
within_neg (some (suc n)) = if leb n max_int then some (negsuc n) else none

unsigned : Text → Option ℕ
unfolding read_digits
unsigned [] = none
unsigned (c ∷ s) = read_digits 0 (c ∷ s)

-- `strconv.Atoi`; `none` is its error, for the syntax or the range.
unfoldable pub atoi : Text → Option ℤ
unfolding within_pos within_neg unsigned
atoi [] = none
atoi (c ∷ s) =
    if c == b'-'
    then within_neg (unsigned s)
    else if c == b'+'
    then within_pos (unsigned s)
    else within_pos (unsigned (c ∷ s))
