-- ===== src/Syncer/Lookups/Laws.antt =====
-- Access lists by name (`resolveAccessLists` of internal/syncer/resolve.go).
use npmplus_docker_sync.Base.{
  Option, none, some, List, [], ◌∷◌, ◌++◌, ◌≡◌, refl, sym, ap, ◌⊎◌, inl, inr, map, ℕ, subst, Bool,
}
use npmplus_docker_sync.Base.Dict
use npmplus_docker_sync.Base.Dict.{Dict}
use npmplus_docker_sync.Base.Text.{Text, to_lower, trim_space}
use npmplus_docker_sync.Docker.Types.{Target}
use npmplus_docker_sync.Npm.Kind.{Kind}
use npmplus_docker_sync.Npm.Types.{Location}
use npmplus_docker_sync.Syncer.Lookups.{
  add_id, add_location, location_with, resolve_names, resolve_locations, resolve_access_lists,
  target_with,
}

-- The id of an access list, by its name in any case and with space around it.
abbrev pub id_of : Dict ℕ → Text → Option ℕ
id_of index name = Dict.lookup (to_lower (trim_space name)) index

add_id-inr :
    (o : Option ℕ) (rest : Text ⊎ List ℕ) (name : Text) (ids : List ℕ)
    → add_id o rest name ≡ inr ids
    → (id : ℕ) × (more : List ℕ) × (o ≡ some id) × (rest ≡ inr more) × (ids ≡ id ∷ more)
add_id-inr none rest name ids h = absurd (cc)
add_id-inr (some id) (inl unknown) name ids h = absurd (cc)
add_id-inr (some id) (inr more) name ids h = (id, more, refl, refl, cc)

resolve_names-inr :
    (index : Dict ℕ) (names : List Text) (ids : List ℕ)
    → resolve_names index names ≡ inr ids
    → map (id_of index) names ≡ map some ids
unfolding resolve_names
resolve_names-inr index [] ids h = let e : [] ≡ ids = cc in ap (map some) e
resolve_names-inr index (name ∷ names) ids h =
    let (id, more, found, rest, e) =
      add_id-inr (id_of index name) (resolve_names index names) name ids h in
    let tail = resolve_names-inr index names more rest in cc (found, tail, ap (map some) e)

target_with-inr :
    (t : Target) (ids : Text ⊎ List ℕ) (ls : Text ⊎ List Location) (u : Target)
    → target_with t ids ls ≡ inr u
    → (new : List ℕ) × (ids ≡ inr new)
      × (u.access_list_ids ≡ t.access_list_ids ++ new)
      × (u.access_list_names ≡ [])
      × (ls ≡ inr u.locations)
target_with-inr t (inl unknown) ls u h = absurd (cc)
target_with-inr t (inr new) (inl unknown) u h = absurd (cc)
target_with-inr t (inr new) (inr ls) u h =
    let e : record t {
      access_list_ids = t.access_list_ids ++ new;
      access_list_names = [];
      locations = ls;
    }
        ≡ u =
      cc in
    (
      new,
      refl,
      ap (λ v. v.access_list_ids) (sym e),
      ap (λ v. v.access_list_names) (sym e),
      ap (λ v. inr v.locations) e,
    )

-- Each location has, behind the ids it had, those of the names it gave, and no name is left.
abbrev pub AllResolved : Dict ℕ → List Location → List Location → Type 0
AllResolved index [] [] = Unit
AllResolved index (l ∷ ls) (m ∷ ms) =
    ((new : List ℕ) × (map (id_of index) l.access_list_names ≡ map some new)
      × (m ≡ record l { access_list_ids = l.access_list_ids ++ new; access_list_names = [] }))
    × AllResolved index ls ms
AllResolved index [] (m ∷ ms) = ⊥
AllResolved index (l ∷ ls) [] = ⊥

add_location-inr :
    (l : Location) (ids : Text ⊎ List ℕ) (rest : Text ⊎ List Location) (ms : List Location)
    → add_location l ids rest ≡ inr ms
    → (new : List ℕ) × (more : List Location) × (ids ≡ inr new)
      × (rest ≡ inr more)
      × (ms ≡ location_with l new ∷ more)
add_location-inr l (inl unknown) rest ms h = absurd (cc)
add_location-inr l (inr new) (inl unknown) ms h = absurd (cc)
add_location-inr l (inr new) (inr more) ms h = (new, more, refl, refl, cc)

resolve_locations-inr :
    (index : Dict ℕ) (ls ms : List Location)
    → resolve_locations index ls ≡ inr ms
    → AllResolved index ls ms
unfolding resolve_locations
resolve_locations-inr index [] ms h = let e : [] ≡ ms = cc in subst (AllResolved index []) e tt
resolve_locations-inr index (l ∷ ls) ms h =
    let (new, more, names, rest, e) =
      add_location-inr l (resolve_names index l.access_list_names) (resolve_locations index ls) ms
        h in
    subst (AllResolved index (l ∷ ls)) (sym e) (
      (new, resolve_names-inr index l.access_list_names new names, refl),
      resolve_locations-inr index ls more rest,
    )

-- A target is only written with an access list for every name its labels give: where resolving
-- succeeds, each name of the host and of each of its locations is in the index, the ids are added in
-- the order of the names behind those that were there, and no name is left.
pub resolve_access_lists-All :
    (index : Dict ℕ) (t u : Target)
    → resolve_access_lists index t ≡ inr u
    → (new : List ℕ) × (map (id_of index) t.access_list_names ≡ map some new)
      × (u.access_list_ids ≡ t.access_list_ids ++ new)
      × (u.access_list_names ≡ [])
      × AllResolved index t.locations u.locations
unfolding resolve_access_lists
resolve_access_lists-All index t u h =
    let (new, e, ids, names, ls) =
      target_with-inr t (resolve_names index t.access_list_names)
        (resolve_locations index t.locations) u h in
    (
      new,
      resolve_names-inr index t.access_list_names new e,
      ids,
      names,
      resolve_locations-inr index t.locations u.locations ls,
    )

target_with-kind :
    (t : Target) (ids : Text ⊎ List ℕ) (ls : Text ⊎ List Location) (u : Target)
    → target_with t ids ls ≡ inr u
    → ◌≡◌ {A = Kind × Bool} (u.kind, u.running) (t.kind, t.running)
target_with-kind t (inl unknown) ls u h = absurd (cc)
target_with-kind t (inr new) (inl unknown) u h = absurd (cc)
target_with-kind t (inr new) (inr ls) u h =
    let e : record t {
      access_list_ids = t.access_list_ids ++ new;
      access_list_names = [];
      locations = ls;
    }
        ≡ u =
      cc in
    ap (λ v. (v.kind, v.running)) (sym e)

-- Resolving its access lists leaves a target the kind, and the state of its container.
pub resolve_access_lists-kind :
    (index : Dict ℕ) (t u : Target)
    → resolve_access_lists index t ≡ inr u
    → ◌≡◌ {A = Kind × Bool} (u.kind, u.running) (t.kind, t.running)
unfolding resolve_access_lists
resolve_access_lists-kind index t u h =
    target_with-kind t (resolve_names index t.access_list_names)
      (resolve_locations index t.locations) u h
