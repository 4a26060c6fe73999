-- ===== src/Syncer/Collection/Indexes.antt =====
-- What the indexes of internal/syncer/worker.go hold: `indexResources` and `indexTargets`.
use mathlib.Core.Path.{subst}
use npmplus_docker_sync.Base.{
  Bool, true, false, Option, none, some, List, [], ◌∷◌, ◌≡◌, refl, sym, ap, ◌∙◌, ◌⊎◌, inl, inr,
  if◌then◌else◌, arith, In, here, there,
}
use npmplus_docker_sync.Base.Dict
use npmplus_docker_sync.Base.Dict.{Dict}
use npmplus_docker_sync.Base.Sort.{sort}
use npmplus_docker_sync.Base.Sort.Laws.{In-sort, In_sort_of_In}
use npmplus_docker_sync.Base.Text.{Text, ◌=?◌, =?_iff}
use npmplus_docker_sync.Docker.Types.{Target, key}
use npmplus_docker_sync.Syncer.Ownership.{
  index_resources, put_resource, put_target, put_targets, index_targets, before,
}
use npmplus_docker_sync.Syncer.Types.{Env}

module _ (E : Env) where
  -- Under `k` stands a resource of the list with this key, or what stood there before.
  put_resource-lookup :
      (k : Text) (r c : E.Resource) (out : Dict E.Resource)
      → Dict.lookup k (put_resource E r out) ≡ some c
      → ((r ≡ c) × (E.resource_key r ≡ k)) ⊎ (Dict.lookup k out ≡ some c)
  put_resource-lookup k r c out h =
      ground (arith, Dict.lookup-insert (E.resource_key r) k r out, =?_iff (E.resource_key r) k)

  index_resources_step :
      (k : Text) (c : E.Resource) (rs : List E.Resource) (out : Dict E.Resource)
      → Dict.lookup k (index_resources E rs out) ≡ some c
      → (In c rs × (E.resource_key c ≡ k)) ⊎ (Dict.lookup k out ≡ some c)
  unfolding index_resources
  index_resources_step k c [] out h = inr h
  index_resources_step k c (r ∷ rs) out h = elim (index_resources_step k c rs _ h) [
    | inl (m, e) ↦ inl (there m, e)
    | inr e ↦ elim (put_resource-lookup k r c out e) [
      | inl (same, f) ↦ inl (here same, ap E.resource_key (sym same) ∙ f)
      | inr f ↦ inr f
    ]
  ]

  -- What the index of the live resources holds under a key is one of them, with this key.
  pub index_resources-In :
      (k : Text) (c : E.Resource) (live : List E.Resource)
      → Dict.lookup k (index_resources E live []) ≡ some c
      → In c live × (E.resource_key c ≡ k)
  unfolding Dict.lookup
  index_resources-In k c live h = elim (index_resources_step k c live [] h) [
    | inl m ↦ m
    | inr e ↦ absurd (cc)
  ]

-- Under `k` stands the target with this key that was put, or what stood there before.
put_target-lookup :
    (k : Text) (t c : Target) (out : Dict Target) (conflicts : List Target)
    → Dict.lookup k (put_target t (out, conflicts)).0 ≡ some c
    → ((t ≡ c) × (key t ≡ k)) ⊎ (Dict.lookup k out ≡ some c)
put_target-lookup k t c out conflicts h =
    ground (arith, Dict.lookup-insert (key t) k t out, =?_iff (key t) k)

put_targets-lookup :
    (k : Text) (c : Target) (ts : List Target) (out : Dict Target) (conflicts : List Target)
    → Dict.lookup k (put_targets ts (out, conflicts)).0 ≡ some c
    → (In c ts × (key c ≡ k)) ⊎ (Dict.lookup k out ≡ some c)
unfolding put_targets
put_targets-lookup k c [] out conflicts h = inr h
put_targets-lookup k c (t ∷ ts) out conflicts h =
    let (out', conflicts') = put_target t (out, conflicts) in
    elim (put_targets-lookup k c ts out' conflicts' h) [
      | inl (m, e) ↦ inl (there m, e)
      | inr e ↦ elim (put_target-lookup k t c out conflicts e) [
        | inl (same, g) ↦ inl (here same, ap key (sym same) ∙ g)
        | inr g ↦ inr g
      ]
    ]

-- What the index of the targets holds under a key is one of them, with this key.
pub index_targets-In :
    (k : Text) (c : Target) (ts : List Target)
    → Dict.lookup k (index_targets ts).0 ≡ some c
    → In c ts × (key c ≡ k)
unfolding index_targets Dict.lookup
index_targets-In k c ts h = elim (put_targets-lookup k c (sort before ts) [] [] h) [
  | inl (m, e) ↦ (In-sort before ts m, e)
  | inr e ↦ absurd (cc)
]

abbrev HasKey : Text → Dict Target → Type 0
HasKey k out = Dict.has_key k out ≡ true

abbrev present : Option Target → Bool
present none = false
present (some t) = true

HasKey-insert :
    (k j : Text) (t : Target) (out : Dict Target) → HasKey k out → HasKey k (Dict.insert j t out)
unfolding Dict.has_key
HasKey-insert k j t out h = ap present (Dict.lookup-insert j k t out) ∙ either (j =? k) h
  where
    either : (b : Bool) → HasKey k out → present (if b then some t else Dict.lookup k out) ≡ true
    either true g = refl
    either false g = g

put_target-keeps :
    (k : Text) (t : Target) (acc : Dict Target × List Target)
    → HasKey k acc.0
    → HasKey k (put_target t acc).0
put_target-keeps k t acc h = ground (arith, HasKey-insert k (key t) t acc.0)

put_targets-keeps :
    (k : Text) (ts : List Target) (acc : Dict Target × List Target)
    → HasKey k acc.0
    → HasKey k (put_targets ts acc).0
unfolding put_targets
put_targets-keeps k [] acc h = h
put_targets-keeps k (t ∷ ts) acc h =
    put_targets-keeps k ts (put_target t acc) (put_target-keeps k t acc h)

HasKey-insert_self : (k : Text) (t : Target) (out : Dict Target) → HasKey k (Dict.insert k t out)
unfolding Dict.has_key Dict.insert
HasKey-insert_self k t out = ap present (Dict.lookup-insert_self k t out)

put_target-HasKey :
    (t : Target) (acc : Dict Target × List Target)
    → (key t =? []) ≡ false
    → HasKey (key t) (put_target t acc).0
put_target-HasKey t acc h = ground (arith, HasKey-insert_self (key t) t acc.0)

put_targets-HasKey :
    (t : Target) (ts : List Target) (acc : Dict Target × List Target)
    → (key t =? []) ≡ false
    → In t ts
    → HasKey (key t) (put_targets ts acc).0
unfolding put_targets
put_targets-HasKey t [] acc h m = elim m [ ]
put_targets-HasKey t (u ∷ ts) acc h (here e) =
    put_targets-keeps (key t) ts (put_target u acc)
      (subst (λ v. HasKey (key t) (put_target v acc).0) (sym e) (put_target-HasKey t acc h))
put_targets-HasKey t (u ∷ ts) acc h (there m) = put_targets-HasKey t ts (put_target u acc) h m

-- Every target that has a key is in the index under it, or another one with the same key.
pub index_targets-HasKey :
    (t : Target) (ts : List Target)
    → (key t =? []) ≡ false
    → In t ts
    → HasKey (key t) (index_targets ts).0
unfolding index_targets
index_targets-HasKey t ts h m =
    put_targets-HasKey t (sort before ts) ([], []) h (In_sort_of_In before ts m)
