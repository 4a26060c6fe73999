-- ===== src/Fields/Tables/Redirect.antt =====
-- `redirectFields` of internal/fields/fields.go.
use npmplus_docker_sync.Base.{true, false, List, [], ◌∷◌, ◌++◌}
use npmplus_docker_sync.Base.Text.{text}
use npmplus_docker_sync.Fields.Types.{Field, auto, string_type, bool_type, int_type, enum_type}
use npmplus_docker_sync.Fields.Shared.Constants.{
  name_advanced_config, name_forward_scheme, name_block_exploits, name_forward_domain,
  name_http_code, name_preserve_path, redirect_scheme_values,
}
use npmplus_docker_sync.Fields.Shared.{
  enabled_field, group_field, domains_field, ssl_fields, letsencrypt_fields,
}

abbrev redirect_forward_domain : Field
redirect_forward_domain = record {
  name = name_forward_domain;
  aliases = text "forward_domain_name" ∷ text "to" ∷ text "target" ∷ text "destination" ∷ [];
  value_type = string_type;
  enum = [];
  default = [];
  api_field = text "forward_domain_name";
  plus = false;
  invert = false;
}

abbrev redirect_forward_scheme : Field
redirect_forward_scheme = record {
  name = name_forward_scheme;
  aliases = text "scheme" ∷ [];
  value_type = enum_type;
  enum = redirect_scheme_values;
  default = auto;
  api_field = text "forward_scheme";
  plus = false;
  invert = false;
}

abbrev redirect_http_code : Field
redirect_http_code = record {
  name = name_http_code;
  aliases = text "code" ∷ text "forward_http_code" ∷ text "status" ∷ [];
  value_type = int_type;
  enum = [];
  default = text "301";
  api_field = text "forward_http_code";
  plus = false;
  invert = false;
}

abbrev redirect_preserve_path : Field
redirect_preserve_path = record {
  name = name_preserve_path;
  aliases = text "preserve" ∷ [];
  value_type = bool_type;
  enum = [];
  default = text "true";
  api_field = text "preserve_path";
  plus = false;
  invert = false;
}

abbrev redirect_block_exploits : Field
redirect_block_exploits = record {
  name = name_block_exploits;
  aliases = text "block_common_exploits" ∷ text "exploits" ∷ [];
  value_type = bool_type;
  enum = [];
  default = text "true";
  api_field = text "block_exploits";
  plus = false;
  invert = false;
}

abbrev redirect_advanced_config : Field
redirect_advanced_config = record {
  name = name_advanced_config;
  aliases = text "advanced" ∷ text "custom_config" ∷ text "advanced.config" ∷ [];
  value_type = string_type;
  enum = [];
  default = [];
  api_field = text "advanced_config";
  plus = false;
  invert = false;
}

-- `redirectFields`
abbrev pub redirect_fields : List Field
redirect_fields =
    (domains_field true
      ∷ redirect_forward_domain
      ∷ redirect_forward_scheme
      ∷ redirect_http_code
      ∷ redirect_preserve_path
      ∷ redirect_block_exploits
      ∷ redirect_advanced_config
      ∷ enabled_field
      ∷ group_field
      ∷ [])
    ++ ssl_fields
    ++ letsencrypt_fields
