-- ===== src/Base/Sort.antt =====
-- `sort.SliceStable` by a Boolean `less`, and what it keeps.
pub mod Laws
use mathlib.Core.Path.{◌≡◌, refl}
use mathlib.Core.Bool.{Bool, true, false}
use mathlib.Core.List.{List, [], ◌∷◌}
use native.Mathlib.Omega.{arith}
use npmplus_docker_sync.Base.Lists.{length, All, In, here, there}
use npmplus_docker_sync.Base.Text.{Text, ◌<?◌}

module _ {ℓ} {A : Type ℓ} (less : A → A → Bool) where
  -- An element goes behind those that are less than it, in front of its equals.
  unfoldable pub insert_sorted : A → List A → List A
  insert_sorted x [] = x ∷ []
  insert_sorted x (y ∷ ys) =
      let rest = insert_sorted x ys in elim (less y x) [ true ↦ y ∷ rest | false ↦ x ∷ y ∷ ys ]

  unfoldable pub sort : List A → List A
  unfolding insert_sorted
  sort [] = []
  sort (x ∷ xs) = insert_sorted x (sort xs)

  -- No element is less than an element in front of it.
  abbrev pub IsSorted : List A → Type ℓ
  IsSorted [] = Unit
  IsSorted (x ∷ xs) = All (λ y. less y x ≡ false) xs × IsSorted xs

-- `sort.Strings`
unfoldable pub sort_texts : List Text → List Text
unfolding sort ◌<?◌
sort_texts = sort ◌<?◌
