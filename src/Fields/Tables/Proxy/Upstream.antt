-- ===== src/Fields/Tables/Proxy/Upstream.antt =====
-- The fields of a proxy host for its upstream and its access, from `proxyFields`.
use npmplus_docker_sync.Base.{true, false, [], ◌∷◌}
use npmplus_docker_sync.Base.Text.{text}
use npmplus_docker_sync.Fields.Types.{
  Field, auto, string_type, bool_type, port_type, enum_type, list_type,
}
use npmplus_docker_sync.Fields.Shared.Constants.{
  name_forward_host, name_forward_port, name_forward_scheme, name_websockets, name_caching,
  name_block_exploits, name_trust_forwarded_proto, name_access_list, name_access_list_type,
  name_auth_request, name_resolve_ip, scheme_values, auth_request_values, access_list_type_values,
}

abbrev pub proxy_forward_host : Field
proxy_forward_host = record {
  name = name_forward_host;
  aliases = text "host" ∷ text "upstream" ∷ text "forward_ip" ∷ text "ip" ∷ text "target" ∷ [];
  value_type = string_type;
  enum = [];
  default = [];
  api_field = text "forward_host";
  plus = false;
  invert = false;
}

abbrev pub proxy_forward_port : Field
proxy_forward_port = record {
  name = name_forward_port;
  aliases = text "port" ∷ text "upstream_port" ∷ [];
  value_type = port_type;
  enum = [];
  default = auto;
  api_field = text "forward_port";
  plus = false;
  invert = false;
}

abbrev pub proxy_resolve_ip : Field
proxy_resolve_ip = record {
  name = name_resolve_ip;
  aliases = text "resolve_container_ip" ∷ [];
  value_type = bool_type;
  enum = [];
  default = [];
  api_field = text "forward_host";
  plus = false;
  invert = false;
}

abbrev pub proxy_forward_scheme : Field
proxy_forward_scheme = record {
  name = name_forward_scheme;
  aliases = text "scheme" ∷ text "upstream_scheme" ∷ [];
  value_type = enum_type;
  enum = scheme_values;
  default = text "http";
  api_field = text "forward_scheme";
  plus = false;
  invert = false;
}

abbrev pub proxy_websockets : Field
proxy_websockets = record {
  name = name_websockets;
  aliases = text "websocket" ∷ text "ws" ∷ text "allow_websocket_upgrade" ∷ [];
  value_type = bool_type;
  enum = [];
  default = text "true";
  api_field = text "allow_websocket_upgrade";
  plus = false;
  invert = false;
}

abbrev pub proxy_caching : Field
proxy_caching = record {
  name = name_caching;
  aliases = text "cache" ∷ text "caching_enabled" ∷ [];
  value_type = bool_type;
  enum = [];
  default = text "false";
  api_field = text "caching_enabled";
  plus = false;
  invert = false;
}

abbrev pub proxy_block_exploits : Field
proxy_block_exploits = record {
  name = name_block_exploits;
  aliases = text "block_common_exploits" ∷ text "exploits" ∷ [];
  value_type = bool_type;
  enum = [];
  default = text "true";
  api_field = text "block_exploits";
  plus = false;
  invert = false;
}

abbrev pub proxy_trust_forwarded_proto : Field
proxy_trust_forwarded_proto = record {
  name = name_trust_forwarded_proto;
  aliases = text "trust_proto" ∷ [];
  value_type = bool_type;
  enum = [];
  default = text "false";
  api_field = text "trust_forwarded_proto";
  plus = false;
  invert = false;
}

abbrev pub proxy_access_list : Field
proxy_access_list = record {
  name = name_access_list;
  aliases =
      text "access_list_id"
      ∷ text "access_list_ids"
      ∷ text "access_lists"
      ∷ text "accesslist"
      ∷ text "accesslist.id"
      ∷ text "accesslist.ids"
      ∷ [];
  value_type = list_type;
  enum = [];
  default = [];
  api_field = text "npmplus_access_list_ids";
  plus = false;
  invert = false;
}

abbrev pub proxy_access_list_type : Field
proxy_access_list_type = record {
  name = name_access_list_type;
  aliases = text "accesslist.type" ∷ [];
  value_type = enum_type;
  enum = access_list_type_values;
  default = [];
  api_field = text "npmplus_access_list_type";
  plus = true;
  invert = false;
}

abbrev pub proxy_auth_request : Field
proxy_auth_request = record {
  name = name_auth_request;
  aliases = text "auth" ∷ text "forward_auth" ∷ [];
  value_type = enum_type;
  enum = auth_request_values;
  default = text "none";
  api_field = text "npmplus_auth_request";
  plus = true;
  invert = false;
}
