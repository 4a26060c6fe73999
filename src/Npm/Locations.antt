-- ===== src/Npm/Locations.antt =====
-- A location block of a proxy host, and access lists: `Location` of internal/npm/models.go and the
-- helpers of internal/npm/resources.go.
pub mod Access
pub mod Laws
use npmplus_docker_sync.Base.{
  ℕ, Bool, true, false, not, ◌&&◌, ◌||◌, Option, none, some, List, [], ◌∷◌, if◌then◌else◌, is_empty,
}
use npmplus_docker_sync.Base.Text.{Text, text, ◌=?◌, to_lower, trim_space}
use npmplus_docker_sync.Npm.Locations.Access.{normalize_ids, access_list_custom, access_list_global}
use npmplus_docker_sync.Npm.Types.{Location}

-- `Location.stripPlus`
unfoldable strip_plus : Location → Location
strip_plus l = record l {
  location_type = [];
  location_config = [];
  access_list_ids = [];
  access_list_type = [];
  no_index = false;
  disable_crowdsec_appsec = false;
  disable_request_buffering = false;
  disable_response_buffering = false;
  upstream_compression = false;
  fancy_index = false;
  x_frame_options = [];
  auth_request = [];
  auth_request_upstream = [];
}

-- The scheme that the rules of a location go by: `http` when it has none.
unfoldable pub scheme_or_http : Text → Text
scheme_or_http raw = let scheme = to_lower raw in if is_empty scheme then text "http" else scheme

-- The schemes at which the switches for buffering, for compression and for the index are kept.
unfoldable pub may_buffer : Text → Bool
may_buffer s = s =? text "empty" || (s =? text "http" || s =? text "https")

unfoldable pub may_compress : Text → Bool
may_compress s = s =? text "empty" || not (s =? text "path")

unfoldable pub may_index : Text → Bool
may_index s = s =? text "empty" || s =? text "path"

-- What authorises requests: the test on `auth` takes nothing and `none` for nobody.
unfoldable pub has_auth : Text → Bool
has_auth raw = let auth = trim_space raw in not (is_empty auth || auth =? text "none")

unfoldable pub clean_scheme : Text → Location → Location
clean_scheme scheme l = record l {
  disable_request_buffering = l.disable_request_buffering && may_buffer scheme;
  disable_response_buffering = l.disable_response_buffering && may_buffer scheme;
  upstream_compression = l.upstream_compression && may_compress scheme;
  fancy_index = l.fancy_index && may_index scheme;
}

unfoldable pub clean_crowdsec : Location → Location
clean_crowdsec l = record l {
  disable_request_buffering = l.disable_request_buffering && l.disable_crowdsec_appsec;
}

unfoldable pub clean_auth : Location → Location
clean_auth l = record l {
  auth_request_upstream = if has_auth l.auth_request then l.auth_request_upstream else [];
}

-- `Location.cleanForwardOptions`
unfoldable pub clean_forward_options : Location → Location
unfolding clean_scheme clean_crowdsec clean_auth
clean_forward_options l =
    clean_auth (clean_crowdsec (clean_scheme (scheme_or_http l.forward_scheme) l))

-- `Location.IsEnabled`
unfoldable pub is_enabled : Location → Bool
is_enabled l = elim l.enabled [ none ↦ true | some b ↦ b ]

-- `Location.accessListType`
unfoldable pub access_list_type : Location → Text
access_list_type l =
    if not (is_empty l.access_list_type)
    then l.access_list_type
    else if not (is_empty l.access_list_ids)
    then access_list_custom
    else access_list_global

-- `adoptLocationDefaults`: what a location takes from the one that the server has stored.
abbrev take_defaults : Location → Location → Location
take_defaults l stored = record l {
  x_frame_options =
      if is_empty l.x_frame_options then stored.x_frame_options else l.x_frame_options;
  auth_request = if is_empty l.auth_request then stored.auth_request else l.auth_request;
}

abbrev same_place : Location → Location → Bool
same_place stored l = stored.path =? l.path && stored.location_type =? l.location_type

-- The inner loop, which stops at the first location with the same path and type.
unfoldable adopt_defaults : Location → List Location → Location
adopt_defaults l [] = l
adopt_defaults l (stored ∷ live) =
    let rest = adopt_defaults l live in if same_place stored l then take_defaults l stored else rest

unfoldable adopt_location_defaults : List Location → List Location → List Location
unfolding adopt_defaults
adopt_location_defaults [] live = []
adopt_location_defaults (l ∷ ls) live = adopt_defaults l live ∷ adopt_location_defaults ls live

-- The body of the loop of `canonicalLocations`, from the cleaned location.
unfoldable pub canonical_location : Location → Location
unfolding access_list_type is_enabled
canonical_location l =
    let list_type = access_list_type l in
    record {
      path = trim_space l.path;
      location_type = l.location_type;
      advanced_config = trim_space l.advanced_config;
      location_config = trim_space l.location_config;
      forward_scheme = to_lower l.forward_scheme;
      forward_host = to_lower l.forward_host;
      forward_port = l.forward_port;
      access_list_ids =
          if list_type =? access_list_custom then normalize_ids l.access_list_ids else [];
      access_list_type = list_type;
      access_list_names = [];
      enabled = some (is_enabled l);
      no_index = l.no_index;
      disable_crowdsec_appsec = l.disable_crowdsec_appsec;
      disable_request_buffering = l.disable_request_buffering;
      disable_response_buffering = l.disable_response_buffering;
      upstream_compression = l.upstream_compression;
      fancy_index = l.fancy_index;
      x_frame_options = trim_space l.x_frame_options;
      auth_request = trim_space l.auth_request;
      auth_request_upstream = trim_space l.auth_request_upstream;
    }

-- `canonicalLocations`
unfoldable pub canonical_locations : List Location → List Location
unfolding canonical_location clean_forward_options
canonical_locations [] = []
canonical_locations (l ∷ ls) = canonical_location (clean_forward_options l) ∷ canonical_locations ls
