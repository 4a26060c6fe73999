-- ===== src/Base/Dict.antt =====
-- Go's maps with text keys, as association lists. Only lookups, insertions and deletions are
-- observed: where the program ranges over a map, it sorts the keys first.
use mathlib.Core.Path.{◌≡◌, refl}
use mathlib.Core.Bool.{Bool, true, false}
use mathlib.Core.Option.{Option, none, some}
use mathlib.Core.List.{List, [], ◌∷◌}
use native.Mathlib.Omega.{arith}
use npmplus_docker_sync.Base.Tests.{if◌then◌else◌}
use npmplus_docker_sync.Base.Lists.{In, here, there}
use npmplus_docker_sync.Base.Text.{Text, ◌=?◌, =?_iff, =?_refl}

abbrev pub Dict {ℓ} : Type ℓ → Type ℓ
Dict V = List (Text × V)

module _ {ℓ} {V : Type ℓ} where
  -- `m[k]`
  unfoldable pub lookup : Text → Dict V → Option V
  lookup k [] = none
  lookup k ((j, v) ∷ m) = if j =? k then some v else lookup k m

  -- `m[k] = v`
  unfoldable pub insert : Text → V → Dict V → Dict V
  insert k v [] = (k, v) ∷ []
  insert k v ((j, w) ∷ m) = if j =? k then (k, v) ∷ m else (j, w) ∷ insert k v m

  -- `delete(m, k)`
  unfoldable pub erase : Text → Dict V → Dict V
  erase k [] = []
  erase k ((j, v) ∷ m) = let rest = erase k m in if j =? k then rest else (j, v) ∷ rest

  -- `_, ok := m[k]`
  unfoldable pub has_key : Text → Dict V → Bool
  unfolding lookup
  has_key k m = elim (lookup k m) [ none ↦ false | some v ↦ true ]

  unfoldable pub keys : Dict V → List Text
  keys [] = []
  keys ((j, v) ∷ m) = j ∷ keys m

  pub lookup-insert :
      (k j : Text) (v : V) (m : Dict V)
      → lookup j (insert k v m) ≡ (if k =? j then some v else lookup j m)
  unfolding lookup insert
  lookup-insert k j v [] = refl
  lookup-insert k j v ((i, w) ∷ m) =
      ground (arith, =?_iff k j, =?_iff i k, =?_iff i j, lookup-insert k j v m)

  pub lookup-erase :
      (k j : Text) (m : Dict V) → lookup j (erase k m) ≡ (if k =? j then none else lookup j m)
  unfolding lookup erase
  lookup-erase k j [] = ground arith
  lookup-erase k j ((i, w) ∷ m) =
      ground (arith, =?_iff k j, =?_iff i k, =?_iff i j, lookup-erase k j m)

  -- A key that is listed has a value, and one that has a value is listed.
  pub lookup_of_In-keys : (k : Text) (m : Dict V) → In k (keys m) → (v : V) × (lookup k m ≡ some v)
  unfolding lookup keys
  lookup_of_In-keys k [] i = elim i [ ]
  lookup_of_In-keys k ((j, v) ∷ m) (here e) = (v, ground (arith, =?_iff j k))
  lookup_of_In-keys k ((j, v) ∷ m) (there i) =
      let (w, e) = lookup_of_In-keys k m i in first j v m w e (j =? k) refl
    where
      first :
          (j : Text) (v : V) (m : Dict V) (w : V)
          → lookup k m ≡ some w
          → (b : Bool) → (j =? k) ≡ b
          → (u : V) × ((if j =? k then some v else lookup k m) ≡ some u)
      first j v m w e true t = (v, rw t)
      first j v m w e false t = (w, rw t e)

  In-keys_step :
      (k j : Text) (w : V) {v : V} (m : Dict V) (b : Bool)
      → (j =? k) ≡ b
      → (if b then some w else lookup k m) ≡ some v
      → (lookup k m ≡ some v → In k (keys m))
      → In k (j ∷ keys m)
  In-keys_step k j w m true t h ih = here ((=?_iff j k).0 t)
  In-keys_step k j w m false t h ih = there (ih h)

  pub In-keys_of_lookup : (k : Text) {v : V} (m : Dict V) → lookup k m ≡ some v → In k (keys m)
  unfolding lookup keys
  In-keys_of_lookup k [] h = absurd (cc)
  In-keys_of_lookup k ((j, w) ∷ m) h = In-keys_step k j w m (j =? k) refl h (In-keys_of_lookup k m)

  pub lookup-insert_self : (k : Text) (v : V) (m : Dict V) → lookup k (insert k v m) ≡ some v
  lookup-insert_self k v m = rw lookup-insert (rw =?_refl)

  pub lookup-insert_other :
      (k j : Text) (v : V) (m : Dict V) → (k =? j) ≡ false → lookup j (insert k v m) ≡ lookup j m
  lookup-insert_other k j v m h = rw lookup-insert (rw h refl)
