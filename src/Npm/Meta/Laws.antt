-- ===== src/Npm/Meta/Laws.antt =====
-- What adopting the server's meta object keeps of the desired one.
use npmplus_docker_sync.Base.{
  Bool, Option, none, some, List, [], ◌∷◌, ◌≡◌, arith, if◌then◌else◌, ◌||◌, any, inl, inr,
  Option-cases,
}
use npmplus_docker_sync.Base.Dict
use npmplus_docker_sync.Base.Text.{Text, ◌=?◌, =?_iff}
use npmplus_docker_sync.Npm.Meta.{
  Meta, Value, redth_keys, directory_key, adopt_key, adopt_keys, adopt_meta,
}

-- The first value that there is.
abbrev or_else : Option Value → Option Value → Option Value
or_else (some v) o = some v
or_else none o = o

adopt_key_lem :
    (d live : Meta) (k j : Text)
    → Dict.lookup j (adopt_key d live k)
      ≡ or_else (Dict.lookup j d) (if k =? j then Dict.lookup j live else none)
unfolding adopt_key Dict.has_key
adopt_key_lem d live k j = elim (Option-cases (Dict.lookup k live)) [
  | inl e ↦ ground (arith, =?_iff k j)
  | inr (v, e) ↦ ground (arith, =?_iff k j, Dict.lookup-insert k j v d)
]

adopt_keys_lem :
    (ks : List Text) (d live : Meta) (j : Text)
    → Dict.lookup j (adopt_keys ks d live)
      ≡ or_else (Dict.lookup j d) (if any (λ k. k =? j) ks then Dict.lookup j live else none)
unfolding adopt_keys
adopt_keys_lem [] d live j = ground arith
adopt_keys_lem (k ∷ ks) d live j =
    ground (arith, adopt_keys_lem ks (adopt_key d live k) live j, adopt_key_lem d live k j)

-- The keys that `AdoptMeta` carries over from the live resource.
abbrev is_adopted : Text → Bool
is_adopted j = any (λ k. k =? j) redth_keys || directory_key =? j

-- `AdoptMeta` never overwrites a key of the desired meta object, and takes over from the live
-- one exactly the keys of Redth's tool and the UI group.
lookup-adopt_meta :
    (d live : Meta) (j : Text)
    → Dict.lookup j (adopt_meta d live)
      ≡ or_else (Dict.lookup j d) (if is_adopted j then Dict.lookup j live else none)
unfolding adopt_meta
lookup-adopt_meta d live j = ground (
  arith,
  adopt_keys_lem redth_keys d live j,
  adopt_key_lem (adopt_keys redth_keys d live) live directory_key j,
)
