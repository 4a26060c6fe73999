-- ===== src/Npm/Marker/Ownership.antt =====
-- What `liftOwnership` makes of a resource read from the server: a trusted marker restores the
-- ownership, and one that cannot be trusted takes it away.
use npmplus_docker_sync.Base.{
  Bool, true, false, ◌&&◌, Option, none, some, List, [], ◌∷◌, ◌≡◌, refl, ◌∙◌, ap, arith,
  if◌then◌else◌, Bool-cases, any, inl, inr,
}
use npmplus_docker_sync.Base.Dict
use npmplus_docker_sync.Base.Text.{Text, ◌=?◌, =?_refl}
use npmplus_docker_sync.Npm.Marker.Lift.{
  record_ownership, discard_ownership, lift_trusted, lift_split, lift_ownership, erase_all,
  set_or_delete, ownership_keys,
}
use npmplus_docker_sync.Npm.Marker.Parsing.{IsPrintable}
use npmplus_docker_sync.Npm.Marker.RoundTrip.{IsUserText, split_marker-with_marker}
use npmplus_docker_sync.Npm.Marker.{Marker, Split, split_marker, with_marker}
use npmplus_docker_sync.Npm.Meta.{
  Meta, string, int, is_managed, managed_by, managed_by_value, managed_by_key, container,
  container_id, instance_of, prefix_of, index_of, text_of, string_of, int_of, Value, prefix_key,
  instance_key, container_id_key, index_key, container_key,
}

lifted_with_marker :
    (user : Text) (m : Marker) (meta : Meta)
    → IsPrintable m
    → IsUserText user
    → lift_ownership (with_marker user m) meta m.key ≡ (user, record_ownership meta m, true)
unfolding lift_ownership
lifted_with_marker user m meta p u =
    ap (λ s. lift_split (with_marker user m) s meta m.key) (split_marker-with_marker m p user u)
    ∙ rw =?_refl

-- The ownership that is recorded is the marker's.
pub record Records (meta : Meta) (m : Marker) : Type 0 where
  pub managed : is_managed meta ≡ true
  pub container_is : container meta ≡ m.container
  pub container_id_is : container_id meta ≡ m.container_id
  pub instance_is : instance_of meta ≡ m.instance_id
  pub prefix_is : prefix_of meta ≡ m.label_prefix
  pub index_is : index_of meta ≡ m.index

lookup-set_or_delete :
    (meta : Meta) (k j v : Text)
    → Dict.lookup j (set_or_delete meta k v)
      ≡ (if k =? j then (if v =? [] then none else some (string v)) else Dict.lookup j meta)
unfolding set_or_delete ◌=?◌
lookup-set_or_delete meta k j [] = Dict.lookup-erase k j meta
lookup-set_or_delete meta k j (c ∷ v) = Dict.lookup-insert k j (string (c ∷ v)) meta

abbrev set_value : Text → Option Value
set_value v = if v =? [] then none else some (string v)

lookup-record_ownership :
    (meta : Meta) (m : Marker) (j : Text)
    → Dict.lookup j (record_ownership meta m) ≡ (
        if prefix_key =? j
        then set_value m.label_prefix
        else if instance_key =? j
        then set_value m.instance_id
        else if container_id_key =? j
        then set_value m.container_id
        else if index_key =? j
        then some (int m.index)
        else if container_key =? j
        then some (string m.container)
        else if managed_by_key =? j
        then some (string managed_by_value)
        else Dict.lookup j meta)
unfolding record_ownership
lookup-record_ownership meta m j = simp (lookup-set_or_delete, Dict.lookup-insert)

string_of-set_value : (v : Text) → string_of (set_value v) ≡ v
unfolding ◌=?◌
string_of-set_value [] = refl
string_of-set_value (c ∷ v) = refl

-- After a trusted marker was read, every accessor of the meta object gives the marker's value.
record_ownership-Records : (meta : Meta) (m : Marker) → Records (record_ownership meta m) m
unfolding is_managed text_of index_of ◌=?◌
record_ownership-Records meta m = record {
  managed = rw (lookup-record_ownership meta m managed_by_key);
  container_is = rw (lookup-record_ownership meta m container_key);
  container_id_is =
      ap string_of (lookup-record_ownership meta m container_id_key)
      ∙ string_of-set_value m.container_id;
  instance_is =
      ap string_of (lookup-record_ownership meta m instance_key)
      ∙ string_of-set_value m.instance_id;
  prefix_is =
      ap string_of (lookup-record_ownership meta m prefix_key) ∙ string_of-set_value m.label_prefix;
  index_is = ap int_of (lookup-record_ownership meta m index_key);
}

-- A resource that carries the marker of its own key is read as the user's configuration, trusted, and
-- its meta object says that it is managed, and has the container, the container's id, the index, the
-- instance and the label prefix of the marker, whatever the server kept of the meta object. The marker
-- is one of printable values, and the configuration one of lines that are no markers.
pub lift_ownership-with_marker :
    (user : Text) (m : Marker) (meta : Meta)
    → IsPrintable m
    → IsUserText user
    → (owned : Meta) × (lift_ownership (with_marker user m) meta m.key ≡ (user, owned, true))
      × Records owned m
lift_ownership-with_marker user m meta p u =
    (record_ownership meta m, lifted_with_marker user m meta p u, record_ownership-Records meta m)

lookup-erase_all :
    (ks : List Text) (j : Text) (meta : Meta)
    → Dict.lookup j (erase_all ks meta)
      ≡ (if any (λ k. k =? j) ks then none else Dict.lookup j meta)
unfolding erase_all
lookup-erase_all [] j meta = refl
lookup-erase_all (k ∷ ks) j meta =
    ground (arith, lookup-erase_all ks j (Dict.erase k meta), Dict.lookup-erase k j meta)

-- What is left of a meta object when its ownership is discarded: all of it where another tool manages
-- the resource or none does, and otherwise what is under no key of the ownership.
abbrev pub Disowned : Meta → Meta → Type 0
Disowned meta rest =
    (is_managed rest ≡ false)
    × ((j : Text)
        → Dict.lookup j rest ≡ (
            if is_managed meta && any (λ k. k =? j) ownership_keys
            then none
            else Dict.lookup j meta))

discard-Disowned : (meta : Meta) → Disowned meta (discard_ownership meta)
unfolding is_managed discard_ownership
discard-Disowned meta = elim (Bool-cases (managed_by meta managed_by_value)) [
  | inl e ↦ rw e (
    unfold managed_by ◌=?◌ in rw (lookup-erase_all ownership_keys managed_by_key meta),
    λ j. lookup-erase_all ownership_keys j meta,
  )
  | inr e ↦ rw e (e, λ j. refl)
]

lift_trusted-Disowned :
    (user : Text) (o : Option Marker) (meta : Meta) (k : Text)
    → (lift_trusted user o meta k).2 ≡ false
    → Disowned meta (lift_trusted user o meta k).1
unfolding lift_trusted
lift_trusted-Disowned user none meta k u = discard-Disowned meta
lift_trusted-Disowned user (some m) meta k u = by_key (m.key =? k) u
  where
    lifted : Bool → Text × Meta × Bool
    lifted b =
        if b then (user, record_ownership meta m, true) else (user, discard_ownership meta, false)

    by_key : (b : Bool) → (lifted b).2 ≡ false → Disowned meta (lifted b).1
    by_key true v = absurd (cc)
    by_key false v = discard-Disowned meta

lift_split-Disowned :
    (advanced : Text) (s : Split) (meta : Meta) (k : Text) (b : Bool)
    → b ≡ true
    → (if b then lift_trusted s.user s.trusted meta k else (advanced, meta, false)).2 ≡ false
    → Disowned meta (if b then lift_trusted s.user s.trusted meta k else (advanced, meta, false)).1
lift_split-Disowned advanced s meta k true h u = lift_trusted-Disowned s.user s.trusted meta k u
lift_split-Disowned advanced s meta k false h u = absurd (cc)

-- A resource with a marker that is found but not trusted (unreadable, contradictory, or written for
-- another key) is not managed by this tool afterwards. Where its meta object claimed that it is, all
-- keys of the ownership are gone; a meta object that does not is left as it is, so another tool keeps
-- its ownership.
pub lift_ownership_untrusted :
    (advanced : Text) (meta : Meta) (k : Text)
    → (split_marker advanced).found ≡ true
    → (lift_ownership advanced meta k).2 ≡ false
    → Disowned meta (lift_ownership advanced meta k).1
unfolding lift_ownership
lift_ownership_untrusted advanced meta k h =
    lift_split-Disowned advanced (split_marker advanced) meta k (split_marker advanced).found h
