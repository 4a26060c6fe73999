-- ===== src/Npm/Locations/Access/Laws.antt =====
-- What `normalizeIDs` forgets: the order of the ids and their repetitions.
use npmplus_docker_sync.Base.{
  ℕ, ◌<◌, ◌==◌, ltb, true, false, ◌||◌, List, [], ◌∷◌, ◌≡◌, refl, ap, ◌∙◌, subst, ◌⊎◌, inl, inr,
  any, Bool-cases, arith, All, All-map, All-In, In, here, there, sym, ||-split_false,
}
use npmplus_docker_sync.Base.Sort.{insert_sorted, sort}
use npmplus_docker_sync.Base.Sort.Laws.{All-insert_sorted, All-sort, In-sort, In_sort_of_In}
use npmplus_docker_sync.Npm.Locations.Access.{distinct_ids, normalize_ids}

-- Each id is less than all behind it.
abbrev IsStrict : List ℕ → Type 0
IsStrict [] = Unit
IsStrict (x ∷ xs) = All (λ y. x < y) xs × IsStrict xs

In-cases : {x y : ℕ} {ys : List ℕ} → In x (y ∷ ys) → (y ≡ x) ⊎ In x ys
In-cases (here e) = inl e
In-cases (there m) = inr m

-- A member of a strictly ordered list that is not below its head.
head-least : {x y : ℕ} {ys : List ℕ} → IsStrict (y ∷ ys) → In x (y ∷ ys) → (y ≡ x) ⊎ (y < x)
head-least {ys = ys} s (here e) = inl e
head-least {ys = ys} s (there m) = inr (All-In _ ys s.0 m)

heads_agree :
    {x y : ℕ} {xs ys : List ℕ}
    → IsStrict (x ∷ xs)
    → IsStrict (y ∷ ys)
    → In x (y ∷ ys)
    → In y (x ∷ xs)
    → x ≡ y
heads_agree s t m n = let p = head-least t m in let q = head-least s n in ground arith

tail-members :
    {x y : ℕ} {xs ys : List ℕ}
    → IsStrict (x ∷ xs)
    → x ≡ y
    → ((z : ℕ) → In z (x ∷ xs) → In z (y ∷ ys))
    → (z : ℕ) → In z xs
    → In z ys
tail-members {xs = xs} s e f z m =
    let below = All-In _ xs s.0 m in
    elim (In-cases (f z (there m))) [ inl h ↦ ground arith | inr k ↦ k ]

-- A strictly ordered list is given by its members.
IsStrict-unique :
    (xs ys : List ℕ)
    → IsStrict xs
    → IsStrict ys
    → ((x : ℕ) → In x xs → In x ys)
    → ((x : ℕ) → In x ys → In x xs)
    → xs ≡ ys
IsStrict-unique [] [] s t f g = refl
IsStrict-unique [] (y ∷ ys) s t f g = elim (g y (here refl)) [ ]
IsStrict-unique (x ∷ xs) [] s t f g = elim (f x (here refl)) [ ]
IsStrict-unique (x ∷ xs) (y ∷ ys) s t f g =
    let e = heads_agree s t (f x (here refl)) (g y (here refl)) in
    ap (λ z. z ∷ xs) e
    ∙ ap (λ zs. y ∷ zs)
        (IsStrict-unique xs ys s.1 t.1 (tail-members s e f) (tail-members t (sym e) g))

insert_sorted-IsStrict :
    (x : ℕ) (xs : List ℕ)
    → IsStrict xs
    → All (λ y. (x == y) ≡ false) xs
    → IsStrict (insert_sorted ltb x xs)
unfolding insert_sorted
insert_sorted-IsStrict x [] s n = (tt, tt)
insert_sorted-IsStrict x (y ∷ ys) s n = elim (Bool-cases (ltb y x)) [
  | inl e ↦
      rw (e, insert_sorted)
        (
          All-insert_sorted ltb (λ z. y < z) x ys (ground arith) s.0,
          insert_sorted-IsStrict x ys s.1 n.1,
        )
  | inr e ↦
      let h = n.0 in
      let below : x < y = ground arith in
      rw (e, insert_sorted) ((below, All-map _ (λ z k. ground arith) ys s.0), s)
]

-- What is in the result of the loop: not the placeholder, and nothing seen.
distinct_ids-fresh :
    (seen ids : List ℕ)
    → All
        (λ x. In x ids × ((x == 0) ≡ false) × (any (λ s. s == x) seen ≡ false))
        (distinct_ids seen ids)
unfolding distinct_ids
distinct_ids-fresh seen [] = tt
distinct_ids-fresh seen (id ∷ ids) = elim (Bool-cases (id == 0 || any (λ s. s == id) seen)) [
  | inl h ↦ rw h (
      All-map _ (λ x k. (there k.0, k.1, k.2)) (distinct_ids seen ids)
        (distinct_ids-fresh seen ids))
  | inr h ↦
      let r = ||-split_false (id == 0) _ h in
      rw h (
        (here refl, r.0, r.1),
        All-map _ (λ x k. (there k.0, k.1, (||-split_false (id == x) _ k.2).1))
            (distinct_ids (id ∷ seen) ids) (distinct_ids-fresh (id ∷ seen) ids),
      )
]

-- An id that the loop meets and that is not skipped.
met :
    (seen : List ℕ) (id x : ℕ)
    → id ≡ x
    → (x == 0) ≡ false
    → any (λ s. s == x) seen ≡ false
    → (id == 0 || any (λ s. s == id) seen) ≡ true
    → In x []
met seen id x e z n h =
    let k = subst (λ y. (y == 0 || any (λ s. s == y) seen) ≡ true) e h in
    let c : (x == 0 || any (λ s. s == x) seen) ≡ false = rw z n in
    let d : true ≡ false = sym k ∙ c in subst (λ b. elim b [ true ↦ Unit | false ↦ In x [] ]) d tt

distinct_ids-all :
    (seen ids : List ℕ) (x : ℕ)
    → In x ids
    → (x == 0) ≡ false
    → any (λ s. s == x) seen ≡ false
    → In x (distinct_ids seen ids)
unfolding distinct_ids
distinct_ids-all seen [] x m z n = elim m [ ]
distinct_ids-all seen (id ∷ ids) x m z n = elim (Bool-cases (id == 0 || any (λ s. s == id) seen)) [
  | inl h ↦ rw h (elim (In-cases m) [
    | inl e ↦ elim (met seen id x e z n h) [ ]
    | inr k ↦ distinct_ids-all seen ids x k z n
  ])
  | inr h ↦ rw h (elim (Bool-cases (id == x)) [
    | inl e ↦ here (ground arith)
    | inr e ↦ elim (In-cases m) [
      | inl d ↦ here d
      | inr k ↦ there (distinct_ids-all (id ∷ seen) ids x k z (rw e n))
    ]
  ])
]

sort-distinct_ids : (seen ids : List ℕ) → IsStrict (sort ltb (distinct_ids seen ids))
unfolding distinct_ids sort
sort-distinct_ids seen [] = tt
sort-distinct_ids seen (id ∷ ids) = elim (Bool-cases (id == 0 || any (λ s. s == id) seen)) [
  | inl h ↦ rw h (sort-distinct_ids seen ids)
  | inr h ↦ rw h (
      insert_sorted-IsStrict id (sort ltb (distinct_ids (id ∷ seen) ids))
        (sort-distinct_ids (id ∷ seen) ids)
        (All-sort ltb _ (distinct_ids (id ∷ seen) ids) (
          All-map _ (λ x k. (||-split_false (id == x) _ k.2).0) (distinct_ids (id ∷ seen) ids)
            (distinct_ids-fresh (id ∷ seen) ids))))
]

-- The members of one list of ids that count are those of the other.
abbrev pub Within : List ℕ → List ℕ → Type 0
Within ids others = (x : ℕ) → In x ids → In x others

normalize_ids-Within :
    (ids others : List ℕ) → Within ids others → Within (normalize_ids ids) (normalize_ids others)
unfolding normalize_ids
normalize_ids-Within ids others f x m =
    let k =
      All-In _ (distinct_ids [] ids) (distinct_ids-fresh [] ids)
        (In-sort ltb (distinct_ids [] ids) m) in
    In_sort_of_In ltb (distinct_ids [] others) (distinct_ids-all [] others x (f x k.0) k.1 refl)

-- Two lists with the same ids have one normal form.
pub normalize_ids_same :
    (ids others : List ℕ)
    → Within ids others
    → Within others ids
    → normalize_ids ids ≡ normalize_ids others
normalize_ids_same ids others f g =
    IsStrict-unique (normalize_ids ids) (normalize_ids others)
      (unfold normalize_ids in sort-distinct_ids [] ids)
      (unfold normalize_ids in sort-distinct_ids [] others) (normalize_ids-Within ids others f)
      (normalize_ids-Within others ids g)
