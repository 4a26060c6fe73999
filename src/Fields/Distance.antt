-- ===== src/Fields/Distance.antt =====
-- `levenshtein` of internal/fields/fields.go. The two rows of the source are one row that is read
-- and one that is written, from left to right.
mod Rows
mod Script
pub mod Laws
use npmplus_docker_sync.Base.{
  ℕ, zero, suc, ◌+◌, ltb, ◌==◌, Bool, List, [], ◌∷◌, if◌then◌else◌, length,
}
use npmplus_docker_sync.Base.Text.{Text, ◌=?◌}

-- `min3`
abbrev pub min3 : ℕ → ℕ → ℕ → ℕ
min3 a b c = let a = if ltb b a then b else a in if ltb c a then c else a

abbrev pub cost : ℕ → ℕ → ℕ
cost x y = if x == y then 0 else 1

-- `curr[j]` for the rest of the row: `left` is `curr[j-1]` and `diagonal` is `prev[j-1]`.
unfoldable pub fill : ℕ → Text → ℕ → ℕ → List ℕ → List ℕ
fill x (y ∷ b) left diagonal (up ∷ prev) =
    let entry = min3 (left + 1) (up + 1) (diagonal + cost x y) in entry ∷ fill x b entry up prev
fill x _ left diagonal prev = []

-- The body of the outer loop: the row `curr` of the byte with number `i`.
unfoldable pub next_row : ℕ → ℕ → Text → List ℕ → List ℕ
unfolding fill
next_row x i b [] = []
next_row x i b (corner ∷ prev) = i ∷ fill x b i corner prev

unfoldable pub rows : ℕ → Text → Text → List ℕ → List ℕ
unfolding next_row
rows i [] b prev = prev
rows i (x ∷ a) b prev = rows (suc i) a b (next_row x i b prev)

-- The first row, `prev[j] = j`.
unfoldable pub count_up : ℕ → Text → List ℕ
count_up j [] = j ∷ []
count_up j (y ∷ b) = j ∷ count_up (suc j) b

-- `prev[len(b)]`
unfoldable pub last : List ℕ → ℕ
last [] = 0
last (n ∷ []) = n
last (n ∷ m ∷ row) = last (m ∷ row)

-- `levenshtein`
unfoldable pub levenshtein : Text → Text → ℕ
unfolding rows count_up last ◌=?◌
levenshtein a b = if a =? b then 0 else last (rows 1 a b (count_up 0 b))
