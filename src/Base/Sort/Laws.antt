-- ===== src/Base/Sort/Laws.antt =====
-- What sorting keeps: the elements and their number; and that the result is in order.
use Prim.Native.Nat.{suc}
use mathlib.Core.Path.{◌≡◌, refl, ap, ◌∙◌}
use mathlib.Core.Logic.{inl, inr}
use mathlib.Core.Bool.{Bool, true, false}
use mathlib.Core.List.{List, [], ◌∷◌, Perm}
use mathlib.Core.List.Perm
use native.Mathlib.Omega.{arith}
use npmplus_docker_sync.Base.Tests.{Bool-cases}
use npmplus_docker_sync.Base.Lists.{length, All, All-map, In, All-In, All-of_In}
use npmplus_docker_sync.Base.Sort.{insert_sorted, sort, IsSorted}

module _ {ℓ} {A : Type ℓ} (less : A → A → Bool) where
  length-insert_sorted : (x : A) (xs : List A) → length (insert_sorted less x xs) ≡ suc (length xs)
  unfolding insert_sorted
  length-insert_sorted x [] = refl
  length-insert_sorted x (y ∷ ys) = ground (arith, length-insert_sorted x ys)

  pub length-sort : (xs : List A) → length (sort less xs) ≡ length xs
  unfolding sort
  length-sort [] = refl
  length-sort (x ∷ xs) = length-insert_sorted x (sort less xs) ∙ ap suc (length-sort xs)

  insert_sorted-perm : (x : A) (xs : List A) → Perm (insert_sorted less x xs) (x ∷ xs)
  unfolding insert_sorted
  insert_sorted-perm x [] = Perm.refl (x ∷ [])
  insert_sorted-perm x (y ∷ ys) = elim (Bool-cases (less y x)) [
    | inl e ↦
        rw (e, insert_sorted)
          (Perm.trans (Perm.cons y (insert_sorted-perm x ys)) (Perm.swap x y ys))
    | inr e ↦ rw (e, insert_sorted) (Perm.refl (x ∷ y ∷ ys))
  ]

  -- Sorting only reorders.
  pub sort-perm : (xs : List A) → Perm (sort less xs) xs
  unfolding sort
  sort-perm [] = Perm.refl []
  sort-perm (x ∷ xs) = Perm.trans (insert_sorted-perm x (sort less xs)) (Perm.cons x (sort-perm xs))

  module _ {κ} (P : A → Type κ) where
    pub All-insert_sorted : (x : A) (xs : List A) → P x → All P xs → All P (insert_sorted less x xs)
    unfolding insert_sorted
    All-insert_sorted x [] h hs = (h, tt)
    All-insert_sorted x (y ∷ ys) h hs = elim (Bool-cases (less y x)) [
      | inl e ↦ rw (e, insert_sorted) (hs.0, All-insert_sorted x ys h hs.1)
      | inr e ↦ rw (e, insert_sorted) (h, hs)
    ]

    pub All-sort : (xs : List A) → All P xs → All P (sort less xs)
    unfolding sort
    All-sort [] h = tt
    All-sort (x ∷ xs) h = All-insert_sorted x (sort less xs) h.0 (All-sort xs h.1)

    All-of_insert_sorted : (x : A) (xs : List A) → All P (insert_sorted less x xs) → P x × All P xs
    unfolding insert_sorted
    All-of_insert_sorted x [] h = (h.0, tt)
    All-of_insert_sorted x (y ∷ ys) h = elim (Bool-cases (less y x)) [
      | inl e ↦
          let k : P y × All P (insert_sorted less x ys) = rw (e, insert_sorted) at h in
          let r = All-of_insert_sorted x ys k.1 in (r.0, (k.0, r.1))
      | inr e ↦ rw (e, insert_sorted) at h
    ]

    All-of_sort : (xs : List A) → All P (sort less xs) → All P xs
    unfolding sort
    All-of_sort [] h = tt
    All-of_sort (x ∷ xs) h =
        let r = All-of_insert_sorted x (sort less xs) h in (r.0, All-of_sort xs r.1)

  pub In-sort : {a : A} (xs : List A) → In a (sort less xs) → In a xs
  In-sort xs m =
      All-In (λ y. In y xs) (sort less xs)
        (All-sort (λ y. In y xs) xs (All-of_In (λ y. In y xs) xs (λ y i. i))) m

  pub In_sort_of_In : {a : A} (xs : List A) → In a xs → In a (sort less xs)
  In_sort_of_In xs m =
      All-In (λ y. In y (sort less xs)) xs
        (All-of_sort (λ y. In y (sort less xs)) xs
          (All-of_In (λ y. In y (sort less xs)) (sort less xs) (λ y i. i)))
        m

  module _ (asym : (a b : A) → less a b ≡ true → less b a ≡ false)
      (not_less_trans : (a b c : A) → less b a ≡ false → less c b ≡ false → less c a ≡ false) where
    insert_sorted-IsSorted :
        (x : A) (xs : List A) → IsSorted less xs → IsSorted less (insert_sorted less x xs)
    unfolding insert_sorted
    insert_sorted-IsSorted x [] s = (tt, tt)
    insert_sorted-IsSorted x (y ∷ ys) s = elim (Bool-cases (less y x)) [
      | inl e ↦
          rw (e, insert_sorted)
            (
              All-insert_sorted (λ z. less z y ≡ false) x ys (asym y x e) s.0,
              insert_sorted-IsSorted x ys s.1,
            )
      | inr e ↦ rw (e, insert_sorted) ((e, All-map _ (λ z h. not_less_trans x y z e h) ys s.0), s)
    ]

    -- The result is in order.
    pub sort-IsSorted : (xs : List A) → IsSorted less (sort less xs)
    unfolding sort
    sort-IsSorted [] = tt
    sort-IsSorted (x ∷ xs) = insert_sorted-IsSorted x (sort less xs) (sort-IsSorted xs)
