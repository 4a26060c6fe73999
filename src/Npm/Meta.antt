-- ===== src/Npm/Meta.antt =====
-- The meta object of a resource and the ownership that it records (internal/npm/models.go).
-- A nil map and an empty one are the same value here: no function of the program tells them apart
-- but the JSON encoder.
pub mod Laws
use npmplus_docker_sync.Base.{
  Bool, true, false, ◌&&◌, ◌||◌, Option, none, some, List, [], ◌∷◌, if◌then◌else◌,
}
use npmplus_docker_sync.Base.Dict
use npmplus_docker_sync.Base.Dict.{Dict}
use npmplus_docker_sync.Base.Number.{ℤ, pos}
use npmplus_docker_sync.Base.Text.{Text, text, ◌=?◌, trim_space}

-- The values of the `any` in a meta object. A `float64` is given by its integer part.
pub data Value : Type 0 where
  string : Text → Value
  int : ℤ → Value
  float : ℤ → Value
  bool : Bool → Value

abbrev pub Meta : Type 0
Meta = Dict Value

abbrev pub managed_by_key : Text
managed_by_key = text "managed_by"

abbrev pub container_key : Text
container_key = text "managed_container"

abbrev pub index_key : Text
index_key = text "managed_index"

abbrev pub container_id_key : Text
container_id_key = text "managed_container_id"

abbrev pub instance_key : Text
instance_key = text "managed_instance"

abbrev pub prefix_key : Text
prefix_key = text "managed_prefix"

abbrev pub directory_key : Text
directory_key = text "directory"

abbrev pub managed_by_value : Text
managed_by_value = text "npmplus-docker-sync"

abbrev redth_value : Text
redth_value = text "npm-docker-sync"

-- `redthMetaKeys`
abbrev pub redth_keys : List Text
redth_keys = text "container_id" ∷ text "sync_instance_id" ∷ text "npm_url" ∷ text "created_at" ∷ []

abbrev pub string_of : Option Value → Text
string_of (some (string s)) = s
string_of _ = []

-- `Meta.text`
unfoldable pub text_of : Meta → Text → Text
unfolding Dict.lookup
text_of m k = string_of (Dict.lookup k m)

abbrev is_string : Option Value → Text → Bool
is_string (some (string s)) v = s =? v
is_string _ v = false

-- `Meta.ManagedBy`
unfoldable pub managed_by : Meta → Text → Bool
managed_by m v = is_string (Dict.lookup managed_by_key m) v

-- `Meta.Container`, `Meta.ContainerID`, `Meta.Instance` and `Meta.Prefix`
abbrev pub container : Meta → Text
container m = text_of m container_key

abbrev pub container_id : Meta → Text
container_id m = text_of m container_id_key

abbrev pub instance_of : Meta → Text
instance_of m = text_of m instance_key

abbrev pub prefix_of : Meta → Text
prefix_of m = text_of m prefix_key

-- `Meta.Directory` and `Meta.SetDirectory`
unfoldable pub directory : Meta → Text
directory m = trim_space (text_of m directory_key)

unfoldable set_directory : Meta → Text → Meta
set_directory m group = Dict.insert directory_key (string (trim_space group)) m

-- `IsManaged`. `LegacyManagedByValues` is empty.
unfoldable pub is_managed : Meta → Bool
unfolding managed_by
is_managed m = managed_by m managed_by_value

-- `IsRedth`
unfoldable pub is_redth : Meta → Bool
unfolding managed_by
is_redth m = managed_by m redth_value

-- `OwnedByInstance`
unfoldable pub owned_by_instance : Meta → Text → Bool
owned_by_instance m instance' =
    let stamped = instance_of m in stamped =? [] || (instance' =? [] || stamped =? instance')

-- `Owner`
unfoldable pub owner : Meta → Text
owner m = text_of m managed_by_key

-- One round of a loop of `AdoptMeta`: a key that is free is taken over.
adopt_key : Meta → Meta → Text → Meta
adopt_key desired live k =
    if Dict.has_key k desired
    then desired
    else elim (Dict.lookup k live) [ none ↦ desired | some v ↦ Dict.insert k v desired ]

adopt_keys : List Text → Meta → Meta → Meta
unfolding adopt_key
adopt_keys [] desired live = desired
adopt_keys (k ∷ ks) desired live = adopt_keys ks (adopt_key desired live k) live

-- `AdoptMeta`
unfoldable pub adopt_meta : Meta → Meta → Meta
unfolding adopt_keys adopt_key
adopt_meta desired live = adopt_key (adopt_keys redth_keys desired live) live directory_key

abbrev pub int_of : Option Value → ℤ
int_of (some (int n)) = n
int_of (some (float n)) = n
int_of _ = pos 0

-- The index that `ownership` reads.
unfoldable pub index_of : Meta → ℤ
index_of m = int_of (Dict.lookup index_key m)
