-- ===== src/Syncer/Cache/Laws.antt =====
-- The cache under its operations: resources of different kinds never meet, even under one key.
use npmplus_docker_sync.Base.{◌&&◌, none, some, [], ◌∷◌, ◌≡◌, refl, arith, if◌then◌else◌, ◌∙◌, ap}
use npmplus_docker_sync.Base.Dict
use npmplus_docker_sync.Base.Dict.{Dict}
use npmplus_docker_sync.Base.Text.{Text, ◌=?◌}
use npmplus_docker_sync.Npm.Kind.{Kind, equal_kind, equal_kind_iff}
use npmplus_docker_sync.Syncer.Cache.{Entry, Cache, bucket, replace_kind, get, set, delete}

bucket-replace_kind :
    (k j : Kind) (entries : Dict Entry) (c : Cache)
    → bucket j (replace_kind k entries c) ≡ (if equal_kind k j then entries else bucket j c)
unfolding bucket replace_kind
bucket-replace_kind k j entries [] = refl
bucket-replace_kind k j entries ((i, old) ∷ c) = ground (
  arith,
  equal_kind_iff k j,
  equal_kind_iff i k,
  equal_kind_iff i j,
  bucket-replace_kind k j entries c,
)

bucket-delete :
    (k j : Kind) (key : Text) (c : Cache)
    → bucket j (delete k key c)
      ≡ (if equal_kind k j then Dict.erase key (bucket j c) else bucket j c)
unfolding bucket delete Dict.erase
bucket-delete k j key [] = ground arith
bucket-delete k j key ((i, old) ∷ c) =
    ground
      (arith, equal_kind_iff k j, equal_kind_iff i k, equal_kind_iff i j, bucket-delete k j key c)

-- Replacing a kind leaves the other kinds alone.
pub get-replace_kind :
    (k j : Kind) (key : Text) (entries : Dict Entry) (c : Cache)
    → get j key (replace_kind k entries c)
      ≡ (if equal_kind k j then Dict.lookup key entries else get j key c)
unfolding get
get-replace_kind k j key entries c =
    ap (Dict.lookup key) (bucket-replace_kind k j entries c) ∙ ground arith

-- An entry that is set is found under its kind and key, and under no other.
pub get-set :
    (k j : Kind) (key other : Text) (e : Entry) (c : Cache)
    → get j other (set k key e c)
      ≡ (if equal_kind k j && key =? other then some e else get j other c)
unfolding get set
get-set k j key other e c =
    ap (Dict.lookup other) (bucket-replace_kind k j (Dict.insert key e (bucket k c)) c)
    ∙ ground (arith, equal_kind_iff k j, Dict.lookup-insert key other e (bucket k c))

-- An entry that is deleted is gone, and no other is.
pub get-delete :
    (k j : Kind) (key other : Text) (c : Cache)
    → get j other (delete k key c)
      ≡ (if equal_kind k j && key =? other then none else get j other c)
unfolding get
get-delete k j key other c =
    ap (Dict.lookup other) (bucket-delete k j key c)
    ∙ ground (arith, Dict.lookup-erase key other (bucket j c))
