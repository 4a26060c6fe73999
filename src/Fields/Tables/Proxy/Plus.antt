-- ===== src/Fields/Tables/Proxy/Plus.antt =====
-- The fields of a proxy host that NPMplus adds and the configuration, from `proxyFields`.
use npmplus_docker_sync.Base.{true, false, [], ◌∷◌}
use npmplus_docker_sync.Base.Text.{text}
use npmplus_docker_sync.Fields.Types.{Field, string_type, bool_type, enum_type}
use npmplus_docker_sync.Fields.Shared.Constants.{
  name_advanced_config, name_auth_request_upstream, name_location_config, name_no_index,
  name_crowdsec_appsec, name_request_buffering, name_response_buffering, name_upstream_compression,
  name_fancy_index, name_xframe_options, xframe_options_values,
}

abbrev pub proxy_auth_request_upstream : Field
proxy_auth_request_upstream = record {
  name = name_auth_request_upstream;
  aliases = text "auth.upstream" ∷ [];
  value_type = string_type;
  enum = [];
  default = [];
  api_field = text "npmplus_auth_request_upstream";
  plus = true;
  invert = false;
}

abbrev pub proxy_location_config : Field
proxy_location_config = record {
  name = name_location_config;
  aliases = [];
  value_type = string_type;
  enum = [];
  default = [];
  api_field = text "npmplus_location_config";
  plus = true;
  invert = false;
}

abbrev pub proxy_advanced_config : Field
proxy_advanced_config = record {
  name = name_advanced_config;
  aliases = text "advanced" ∷ text "custom_config" ∷ text "advanced.config" ∷ [];
  value_type = string_type;
  enum = [];
  default = [];
  api_field = text "advanced_config";
  plus = false;
  invert = false;
}

abbrev pub proxy_no_index : Field
proxy_no_index = record {
  name = name_no_index;
  aliases = text "no_index" ∷ [];
  value_type = bool_type;
  enum = [];
  default = text "false";
  api_field = text "npmplus_noindex";
  plus = true;
  invert = false;
}

abbrev pub proxy_crowdsec_appsec : Field
proxy_crowdsec_appsec = record {
  name = name_crowdsec_appsec;
  aliases = text "crowdsec" ∷ text "appsec" ∷ [];
  value_type = bool_type;
  enum = [];
  default = text "true";
  api_field = text "npmplus_crowdsec_appsec";
  plus = true;
  invert = true;
}

abbrev pub proxy_request_buffering : Field
proxy_request_buffering = record {
  name = name_request_buffering;
  aliases = text "proxy_request_buffering" ∷ [];
  value_type = bool_type;
  enum = [];
  default = text "true";
  api_field = text "npmplus_proxy_request_buffering";
  plus = true;
  invert = true;
}

abbrev pub proxy_response_buffering : Field
proxy_response_buffering = record {
  name = name_response_buffering;
  aliases = text "proxy_response_buffering" ∷ [];
  value_type = bool_type;
  enum = [];
  default = text "true";
  api_field = text "npmplus_proxy_response_buffering";
  plus = true;
  invert = true;
}

abbrev pub proxy_upstream_compression : Field
proxy_upstream_compression = record {
  name = name_upstream_compression;
  aliases = text "compression" ∷ [];
  value_type = bool_type;
  enum = [];
  default = text "false";
  api_field = text "npmplus_upstream_compression";
  plus = true;
  invert = false;
}

abbrev pub proxy_fancy_index : Field
proxy_fancy_index = record {
  name = name_fancy_index;
  aliases = text "fancy_index" ∷ [];
  value_type = bool_type;
  enum = [];
  default = text "false";
  api_field = text "npmplus_fancyindex";
  plus = true;
  invert = false;
}

abbrev pub proxy_xframe_options : Field
proxy_xframe_options = record {
  name = name_xframe_options;
  aliases = text "xframe_options" ∷ text "frame_options" ∷ [];
  value_type = enum_type;
  enum = xframe_options_values;
  default = [];
  api_field = text "npmplus_x_frame_options";
  plus = true;
  invert = false;
}
