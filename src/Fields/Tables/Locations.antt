-- ===== src/Fields/Tables/Locations.antt =====
-- `LocationFields` of internal/fields/fields.go.
use npmplus_docker_sync.Base.{true, false, List, [], ◌∷◌}
use npmplus_docker_sync.Base.Text.{text}
use npmplus_docker_sync.Fields.Types.{
  Field, string_type, bool_type, port_type, enum_type, list_type,
}
use npmplus_docker_sync.Fields.Shared.Constants.{
  name_enable, name_enabled, name_advanced_config, name_forward_host, name_forward_port,
  name_forward_scheme, name_access_list, name_access_list_type, name_auth_request,
  name_auth_request_upstream, name_location_config, name_no_index, name_crowdsec_appsec,
  name_request_buffering, name_response_buffering, name_upstream_compression, name_fancy_index,
  name_xframe_options, scheme_values, auth_request_values, xframe_options_values,
  location_access_list_type_values, location_type_values,
}

abbrev location_path : Field
location_path = record {
  name = text "path";
  aliases = [];
  value_type = string_type;
  enum = [];
  default = [];
  api_field = text "path";
  plus = false;
  invert = false;
}

abbrev location_type : Field
location_type = record {
  name = text "type";
  aliases = text "location_type" ∷ text "modifier" ∷ [];
  value_type = enum_type;
  enum = location_type_values;
  default = text "prefix";
  api_field = text "location_type";
  plus = true;
  invert = false;
}

abbrev location_forward_host : Field
location_forward_host = record {
  name = name_forward_host;
  aliases = text "host" ∷ text "upstream" ∷ [];
  value_type = string_type;
  enum = [];
  default = [];
  api_field = text "forward_host";
  plus = false;
  invert = false;
}

abbrev location_forward_port : Field
location_forward_port = record {
  name = name_forward_port;
  aliases = text "port" ∷ [];
  value_type = port_type;
  enum = [];
  default = [];
  api_field = text "forward_port";
  plus = false;
  invert = false;
}

abbrev location_forward_scheme : Field
location_forward_scheme = record {
  name = name_forward_scheme;
  aliases = text "scheme" ∷ [];
  value_type = enum_type;
  enum = scheme_values;
  default = [];
  api_field = text "forward_scheme";
  plus = false;
  invert = false;
}

abbrev location_advanced_config : Field
location_advanced_config = record {
  name = name_advanced_config;
  aliases = text "advanced" ∷ text "advanced.config" ∷ [];
  value_type = string_type;
  enum = [];
  default = [];
  api_field = text "advanced_config";
  plus = false;
  invert = false;
}

abbrev location_location_config : Field
location_location_config = record {
  name = name_location_config;
  aliases = [];
  value_type = string_type;
  enum = [];
  default = [];
  api_field = text "npmplus_location_config";
  plus = true;
  invert = false;
}

abbrev location_access_list : Field
location_access_list = record {
  name = name_access_list;
  aliases =
      text "access_list_id" ∷ text "access_list_ids" ∷ text "access_lists" ∷ text "accesslist" ∷ [];
  value_type = list_type;
  enum = [];
  default = [];
  api_field = text "npmplus_access_list_ids";
  plus = true;
  invert = false;
}

abbrev location_access_list_type : Field
location_access_list_type = record {
  name = name_access_list_type;
  aliases = [];
  value_type = enum_type;
  enum = location_access_list_type_values;
  default = [];
  api_field = text "npmplus_access_list_type";
  plus = true;
  invert = false;
}

abbrev location_enabled : Field
location_enabled = record {
  name = name_enabled;
  aliases = name_enable ∷ [];
  value_type = bool_type;
  enum = [];
  default = text "true";
  api_field = text "npmplus_enabled";
  plus = true;
  invert = false;
}

abbrev location_no_index : Field
location_no_index = record {
  name = name_no_index;
  aliases = [];
  value_type = bool_type;
  enum = [];
  default = [];
  api_field = text "npmplus_noindex";
  plus = true;
  invert = false;
}

abbrev location_crowdsec_appsec : Field
location_crowdsec_appsec = record {
  name = name_crowdsec_appsec;
  aliases = text "crowdsec" ∷ text "appsec" ∷ [];
  value_type = bool_type;
  enum = [];
  default = [];
  api_field = text "npmplus_crowdsec_appsec";
  plus = true;
  invert = true;
}

abbrev location_request_buffering : Field
location_request_buffering = record {
  name = name_request_buffering;
  aliases = [];
  value_type = bool_type;
  enum = [];
  default = [];
  api_field = text "npmplus_proxy_request_buffering";
  plus = true;
  invert = true;
}

abbrev location_response_buffering : Field
location_response_buffering = record {
  name = name_response_buffering;
  aliases = [];
  value_type = bool_type;
  enum = [];
  default = [];
  api_field = text "npmplus_proxy_response_buffering";
  plus = true;
  invert = true;
}

abbrev location_upstream_compression : Field
location_upstream_compression = record {
  name = name_upstream_compression;
  aliases = text "compression" ∷ [];
  value_type = bool_type;
  enum = [];
  default = [];
  api_field = text "npmplus_upstream_compression";
  plus = true;
  invert = false;
}

abbrev location_fancy_index : Field
location_fancy_index = record {
  name = name_fancy_index;
  aliases = text "fancy_index" ∷ [];
  value_type = bool_type;
  enum = [];
  default = [];
  api_field = text "npmplus_fancyindex";
  plus = true;
  invert = false;
}

abbrev location_xframe_options : Field
location_xframe_options = record {
  name = name_xframe_options;
  aliases = text "xframe_options" ∷ [];
  value_type = enum_type;
  enum = xframe_options_values;
  default = [];
  api_field = text "npmplus_x_frame_options";
  plus = true;
  invert = false;
}

abbrev location_auth_request : Field
location_auth_request = record {
  name = name_auth_request;
  aliases = text "auth" ∷ [];
  value_type = enum_type;
  enum = auth_request_values;
  default = [];
  api_field = text "npmplus_auth_request";
  plus = true;
  invert = false;
}

abbrev location_auth_request_upstream : Field
location_auth_request_upstream = record {
  name = name_auth_request_upstream;
  aliases = [];
  value_type = string_type;
  enum = [];
  default = [];
  api_field = text "npmplus_auth_request_upstream";
  plus = true;
  invert = false;
}

-- `LocationFields`
abbrev pub location_fields : List Field
location_fields =
    location_path ∷ location_type ∷ location_forward_host ∷ location_forward_port
    ∷ location_forward_scheme ∷ location_advanced_config ∷ location_location_config
    ∷ location_access_list ∷ location_access_list_type ∷ location_enabled ∷ location_no_index
    ∷ location_crowdsec_appsec ∷ location_request_buffering ∷ location_response_buffering
    ∷ location_upstream_compression ∷ location_fancy_index ∷ location_xframe_options
    ∷ location_auth_request ∷ location_auth_request_upstream ∷ []
