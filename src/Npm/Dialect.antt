-- ===== src/Npm/Dialect.antt =====
-- What a server accepts in a request: `Dialect`, `Version` and `WriteSchema` of internal/npm
-- (flavor.go and capabilities.go).
pub mod Ownership
use npmplus_docker_sync.Base.{
  ℕ, ◌==◌, Bool, true, false, not, ◌&&◌, ◌||◌, Option, none, some, List, [], ◌∷◌, if◌then◌else◌,
  any, ltb, leb,
}
use npmplus_docker_sync.Base.Dict
use npmplus_docker_sync.Base.Dict.{Dict}
use npmplus_docker_sync.Base.Text.{Text, text, ◌=?◌, has_prefix}
use npmplus_docker_sync.Npm.Kind.{Kind, proxy, redirect, stream, dead, other, equal_kind}

-- `Flavour`; the empty value reads as `auto`.
pub data Flavour : Type 0 where
  auto npmplus npm : Flavour

abbrev pub is_npm : Flavour → Bool
is_npm npm = true
is_npm _ = false

abbrev is_npmplus : Flavour → Bool
is_npmplus npmplus = true
is_npmplus _ = false

-- `Version`
pub record Version : Type 0 where
  pub major : ℕ
  pub minor : ℕ
  pub revision : ℕ

-- `Version.AtLeast`; an unknown version counts as new enough.
unfoldable at_least : Version → ℕ → ℕ → Bool
at_least v major minor =
    if v.major == 0 && (v.minor == 0 && v.revision == 0)
    then true
    else if not (v.major == major)
    then ltb major v.major
    else leb minor v.minor

-- `Property`; `none` stands for no enum.
pub record Property : Type 0 where
  pub type_name : Text
  pub values : Option (List Text)

-- `Dialect`; a kind that the schema lacks has no entry.
pub record Dialect : Type 0 where
  pub flavour : Flavour
  pub version : Version
  pub schema : List (Kind × Dict Property)
  pub meta_retired : Bool

-- `d.Schema[kind]`
unfoldable pub schema_of : Kind → List (Kind × Dict Property) → Option (Dict Property)
schema_of k [] = none
schema_of k ((j, fields) ∷ schema) = if equal_kind j k then some fields else schema_of k schema

abbrev member : Text → List Text → Bool
member f = any (λ g. g =? f)

abbrev legacy_proxy_switches : List Text
legacy_proxy_switches =
    text "allow_websocket_upgrade"
    ∷ text "http2_support"
    ∷ text "block_exploits"
    ∷ text "caching_enabled"
    ∷ text "trust_forwarded_proto"
    ∷ []

abbrev column_fields : List Text
column_fields =
    text "npmplus_directory"
    ∷ text "npmplus_dns_challenge"
    ∷ text "npmplus_dns_provider"
    ∷ text "npmplus_dns_provider_credentials"
    ∷ text "npmplus_propagation_seconds"
    ∷ []

abbrev is_kind : Kind → Kind → Bool
is_kind = equal_kind

-- `Dialect.assumes` for upstream NPM.
unfoldable pub assumes_npm : Version → Kind → Text → Bool
unfolding at_least
assumes_npm v k field =
    if has_prefix field (text "npmplus_") || has_prefix field (text "locations/npmplus_")
    then false
    else if field =? text "trust_forwarded_proto"
    then at_least v 2 12
    else if is_kind k stream && field =? text "certificate_id"
    then at_least v 2 12
    else true

-- `Dialect.assumes` for every other flavour.
unfoldable pub assumes_plus : Bool → Kind → Text → Bool
assumes_plus retired k field =
    if field =? text "meta" || field =? text "locations/npmplus_location_config"
    then not retired
    else if member field column_fields
    then retired
    else if is_kind k proxy && member field legacy_proxy_switches
    then not retired
    else if is_kind k redirect && (field =? text "block_exploits" || field =? text "http2_support")
    then not retired
    else if is_kind k dead && field =? text "http2_support"
    then not retired
    else true

-- `Dialect.assumes`
unfoldable pub assumes : Dialect → Kind → Text → Bool
assumes d k field =
    if is_npm d.flavour then assumes_npm d.version k field else assumes_plus d.meta_retired k field

-- `Dialect.Accepts`
unfoldable pub accepts : Dialect → Kind → Text → Bool
accepts d k field = elim (schema_of k d.schema) [
  | none ↦ assumes d k field
  | some fields ↦ Dict.has_key field fields
]

abbrev in_enum : Option (List Text) → Text → Bool
in_enum none v = true
in_enum (some values) v = member v values

-- `Dialect.AcceptsValue`
unfoldable accepts_value : Dialect → Kind → Text → Text → Bool
accepts_value d k field v = elim (schema_of k d.schema) [
  | some fields ↦ elim (Dict.lookup field fields) [
    | none ↦ false
    | some property ↦ in_enum property.values v
  ]
  | none ↦
      if is_kind k redirect && field =? text "forward_scheme"
      then (if is_npm d.flavour
          then not (v =? text "$scheme")
          else if d.meta_retired
          then not (v =? text "auto")
          else true)
      else true
]

-- `advancedField`
unfoldable pub advanced_field : Kind → Text
advanced_field k =
    if is_kind k stream then text "npmplus_advanced_config" else text "advanced_config"

-- `Dialect.CarriesMarker`
unfoldable pub carries_marker : Dialect → Kind → Bool
unfolding accepts advanced_field
carries_marker d k = accepts d k (advanced_field k)

-- `Dialect.KeepsOwnership`
unfoldable pub keeps_ownership : Dialect → Kind → Bool
unfolding carries_marker accepts
keeps_ownership d k = carries_marker d k || accepts d k (text "meta")
