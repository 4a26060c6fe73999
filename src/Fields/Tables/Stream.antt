-- ===== src/Fields/Tables/Stream.antt =====
-- `streamFields` of internal/fields/fields.go.
use npmplus_docker_sync.Base.{true, false, List, [], ◌∷◌}
use npmplus_docker_sync.Base.Text.{text}
use npmplus_docker_sync.Fields.Types.{
  Field, auto, string_type, bool_type, port_type, enum_type, certificate_type,
}
use npmplus_docker_sync.Fields.Shared.Constants.{
  name_certificate, name_advanced_config, name_forward_host, name_forward_port, name_resolve_ip,
  name_incoming_port, name_tcp, name_udp, name_protocol, name_proxy_protocol, name_proxy_tls,
  name_description, proxy_protocol_values, stream_protocol_values,
}
use npmplus_docker_sync.Fields.Shared.{enabled_field, group_field}

abbrev stream_incoming_port : Field
stream_incoming_port = record {
  name = name_incoming_port;
  aliases = text "port" ∷ text "listen_port" ∷ text "incoming.port" ∷ text "listen" ∷ [];
  value_type = port_type;
  enum = [];
  default = [];
  api_field = text "incoming_port";
  plus = false;
  invert = false;
}

abbrev stream_forward_host : Field
stream_forward_host = record {
  name = name_forward_host;
  aliases =
      text "host"
      ∷ text "forward.host"
      ∷ text "forwarding_host"
      ∷ text "upstream"
      ∷ text "forward_ip"
      ∷ text "ip"
      ∷ text "target"
      ∷ [];
  value_type = string_type;
  enum = [];
  default = [];
  api_field = text "forwarding_host";
  plus = false;
  invert = false;
}

abbrev stream_forward_port : Field
stream_forward_port = record {
  name = name_forward_port;
  aliases = text "forward.port" ∷ text "forwarding_port" ∷ [];
  value_type = port_type;
  enum = [];
  default = [];
  api_field = text "forwarding_port";
  plus = false;
  invert = false;
}

abbrev stream_resolve_ip : Field
stream_resolve_ip = record {
  name = name_resolve_ip;
  aliases = text "resolve_container_ip" ∷ [];
  value_type = bool_type;
  enum = [];
  default = [];
  api_field = text "forwarding_host";
  plus = false;
  invert = false;
}

abbrev stream_tcp : Field
stream_tcp = record {
  name = name_tcp;
  aliases = text "forward.tcp" ∷ text "tcp_forwarding" ∷ [];
  value_type = bool_type;
  enum = [];
  default = text "true";
  api_field = text "tcp_forwarding";
  plus = false;
  invert = false;
}

abbrev stream_udp : Field
stream_udp = record {
  name = name_udp;
  aliases = text "forward.udp" ∷ text "udp_forwarding" ∷ [];
  value_type = bool_type;
  enum = [];
  default = text "false";
  api_field = text "udp_forwarding";
  plus = false;
  invert = false;
}

abbrev stream_protocol : Field
stream_protocol = record {
  name = name_protocol;
  aliases = [];
  value_type = enum_type;
  enum = stream_protocol_values;
  default = [];
  api_field = text "tcp_forwarding/udp_forwarding";
  plus = false;
  invert = false;
}

abbrev stream_proxy_protocol : Field
stream_proxy_protocol = record {
  name = name_proxy_protocol;
  aliases = text "proxy_protocol_forwarding" ∷ [];
  value_type = enum_type;
  enum = proxy_protocol_values;
  default = text "off";
  api_field = text "npmplus_proxy_protocol_forwarding";
  plus = true;
  invert = false;
}

abbrev stream_proxy_tls : Field
stream_proxy_tls = record {
  name = name_proxy_tls;
  aliases = text "proxy_ssl" ∷ [];
  value_type = bool_type;
  enum = [];
  default = text "false";
  api_field = text "npmplus_proxy_tls";
  plus = true;
  invert = false;
}

abbrev stream_advanced_config : Field
stream_advanced_config = record {
  name = name_advanced_config;
  aliases = text "advanced" ∷ text "custom_config" ∷ text "advanced.config" ∷ [];
  value_type = string_type;
  enum = [];
  default = [];
  api_field = text "npmplus_advanced_config";
  plus = true;
  invert = false;
}

abbrev stream_description : Field
stream_description = record {
  name = name_description;
  aliases = text "comment" ∷ text "note" ∷ [];
  value_type = string_type;
  enum = [];
  default = [];
  api_field = text "npmplus_description";
  plus = true;
  invert = false;
}

abbrev stream_certificate : Field
stream_certificate = record {
  name = name_certificate;
  aliases =
      text "certificate_id"
      ∷ text "cert"
      ∷ text "ssl"
      ∷ text "ssl.certificate"
      ∷ text "ssl.certificate.id"
      ∷ [];
  value_type = certificate_type;
  enum = [];
  default = auto;
  api_field = text "certificate_id";
  plus = false;
  invert = false;
}

-- `streamFields`
abbrev pub stream_fields : List Field
stream_fields =
    stream_incoming_port ∷ stream_forward_host ∷ stream_forward_port ∷ stream_resolve_ip
    ∷ stream_tcp ∷ stream_udp ∷ stream_protocol ∷ stream_proxy_protocol ∷ stream_proxy_tls
    ∷ stream_advanced_config ∷ stream_description ∷ stream_certificate ∷ enabled_field ∷ group_field
    ∷ []
