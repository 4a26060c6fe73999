-- ===== src/Fields/Tables/Dead.antt =====
-- `deadFields` of internal/fields/fields.go.
use npmplus_docker_sync.Base.{true, false, List, [], ◌∷◌, ◌++◌}
use npmplus_docker_sync.Base.Text.{text}
use npmplus_docker_sync.Fields.Types.{Field, string_type}
use npmplus_docker_sync.Fields.Shared.Constants.{name_advanced_config}
use npmplus_docker_sync.Fields.Shared.{
  enabled_field, group_field, domains_field, ssl_fields, letsencrypt_fields,
}

abbrev dead_advanced_config : Field
dead_advanced_config = record {
  name = name_advanced_config;
  aliases = text "advanced" ∷ text "custom_config" ∷ text "advanced.config" ∷ [];
  value_type = string_type;
  enum = [];
  default = [];
  api_field = text "advanced_config";
  plus = false;
  invert = false;
}

-- `deadFields`
abbrev pub dead_fields : List Field
dead_fields =
    (domains_field true ∷ dead_advanced_config ∷ enabled_field ∷ group_field ∷ [])
    ++ ssl_fields
    ++ letsencrypt_fields
