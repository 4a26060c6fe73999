-- ===== src/Npm/Marker/Lift.antt =====
-- How internal/npm/marker.go moves the ownership between the marker and the meta object.
use npmplus_docker_sync.Base.{
  Bool, true, false, not, ◌||◌, Option, none, some, List, [], ◌∷◌, if◌then◌else◌,
}
use npmplus_docker_sync.Base.Dict
use npmplus_docker_sync.Base.Text.{Text, ◌=?◌, trim_space}
use npmplus_docker_sync.Npm.Marker.{Marker, Split, split_marker}
use npmplus_docker_sync.Npm.Meta.{
  Meta, string, int, managed_by, managed_by_value, container, container_id, index_of, instance_of,
  prefix_of, managed_by_key, container_key, container_id_key, index_key, instance_key, prefix_key,
  directory_key,
}

-- `markerFor`
unfoldable marker_for : Meta → Text → Option Marker
marker_for meta k =
    if not (managed_by meta managed_by_value) || k =? []
    then none
    else some (record {
      key = k;
      container = container meta;
      container_id = container_id meta;
      index = index_of meta;
      instance_id = instance_of meta;
      label_prefix = prefix_of meta;
    })

-- `ownershipKeys`
abbrev pub ownership_keys : List Text
ownership_keys =
    managed_by_key ∷ container_key ∷ container_id_key ∷ index_key ∷ instance_key ∷ prefix_key ∷ []

unfoldable pub erase_all : List Text → Meta → Meta
erase_all [] meta = meta
erase_all (k ∷ ks) meta = erase_all ks (Dict.erase k meta)

-- `setOrDelete`
unfoldable pub set_or_delete : Meta → Text → Text → Meta
set_or_delete meta k [] = Dict.erase k meta
set_or_delete meta k (c ∷ v) = Dict.insert k (string (c ∷ v)) meta

-- What a trusted marker records in the meta object.
unfoldable pub record_ownership : Meta → Marker → Meta
unfolding set_or_delete
record_ownership meta m =
    let a = Dict.insert managed_by_key (string managed_by_value) meta in
    let b = Dict.insert container_key (string m.container) a in
    let c = Dict.insert index_key (int m.index) b in
    let d = set_or_delete c container_id_key m.container_id in
    let e = set_or_delete d instance_key m.instance_id in set_or_delete e prefix_key m.label_prefix

unfoldable pub discard_ownership : Meta → Meta
unfolding erase_all
discard_ownership meta =
    if managed_by meta managed_by_value then erase_all ownership_keys meta else meta

unfoldable pub lift_trusted : Text → Option Marker → Meta → Text → Text × Meta × Bool
lift_trusted user none meta k = (user, discard_ownership meta, false)
lift_trusted user (some m) meta k =
    if m.key =? k
    then (user, record_ownership meta m, true)
    else (user, discard_ownership meta, false)

abbrev pub lift_split : Text → Split → Meta → Text → Text × Meta × Bool
lift_split advanced s meta k =
    if s.found then lift_trusted s.user s.trusted meta k else (advanced, meta, false)

-- `liftOwnership`
unfoldable pub lift_ownership : Text → Meta → Text → Text × Meta × Bool
unfolding lift_trusted discard_ownership
lift_ownership advanced meta k = lift_split advanced (split_marker advanced) meta k

-- `liftDirectory`
unfoldable lift_directory : Meta → Text → Meta
lift_directory meta column =
    let group = trim_space column in
    if group =? [] || Dict.has_key directory_key meta
    then meta
    else Dict.insert directory_key (string group) meta
