-- ===== src/Fields/Shared.antt =====
-- The fields that several resource kinds share, from internal/fields/fields.go.
pub mod Constants
use npmplus_docker_sync.Base.{Bool, true, false, List, [], ◌∷◌, ◌++◌}
use npmplus_docker_sync.Base.Text.{Text, text}
use npmplus_docker_sync.Fields.Types.{
  Field, auto, string_type, bool_type, int_type, domains_type, certificate_type,
}
use npmplus_docker_sync.Fields.Shared.Constants.{
  name_enable, name_enabled, name_domains, name_certificate, name_ssl_forced, name_http2,
  name_http3, name_hsts, name_hsts_subdomains, name_le_email, name_le_agree, name_le_dns_challenge,
  name_le_dns_provider, name_le_dns_creds, name_le_propagation, name_group,
}

-- `certificateField`
abbrev certificate_field : Field
certificate_field = record {
  name = name_certificate;
  aliases =
      text "certificate_id"
      ∷ text "cert"
      ∷ text "ssl.certificate"
      ∷ text "ssl.certificate.id"
      ∷ text "ssl.cert"
      ∷ [];
  value_type = certificate_type;
  enum = [];
  default = auto;
  api_field = text "certificate_id";
  plus = false;
  invert = false;
}

abbrev ssl_ssl_forced : Field
ssl_ssl_forced = record {
  name = name_ssl_forced;
  aliases = text "ssl.force" ∷ text "force_ssl" ∷ text "ssl_forced" ∷ [];
  value_type = bool_type;
  enum = [];
  default = auto;
  api_field = text "ssl_forced";
  plus = false;
  invert = false;
}

abbrev ssl_http2 : Field
ssl_http2 = record {
  name = name_http2;
  aliases = text "http2" ∷ text "http2_support" ∷ [];
  value_type = bool_type;
  enum = [];
  default = text "true";
  api_field = text "http2_support";
  plus = false;
  invert = false;
}

abbrev ssl_http3 : Field
ssl_http3 = record {
  name = name_http3;
  aliases = text "http3" ∷ text "http3_support" ∷ text "quic" ∷ [];
  value_type = bool_type;
  enum = [];
  default = text "true";
  api_field = text "npmplus_http3_support";
  plus = true;
  invert = false;
}

abbrev ssl_hsts : Field
ssl_hsts = record {
  name = name_hsts;
  aliases = text "hsts" ∷ text "hsts_enabled" ∷ [];
  value_type = bool_type;
  enum = [];
  default = text "false";
  api_field = text "hsts_enabled";
  plus = false;
  invert = false;
}

abbrev ssl_hsts_subdomains : Field
ssl_hsts_subdomains = record {
  name = name_hsts_subdomains;
  aliases = text "hsts_subdomains" ∷ text "hsts.sub" ∷ [];
  value_type = bool_type;
  enum = [];
  default = text "false";
  api_field = text "hsts_subdomains";
  plus = false;
  invert = false;
}

-- `sslFields`
abbrev pub ssl_fields : List Field
ssl_fields =
    certificate_field ∷ ssl_ssl_forced ∷ ssl_http2 ∷ ssl_http3 ∷ ssl_hsts ∷ ssl_hsts_subdomains ∷ []

abbrev le_le_email : Field
le_le_email = record {
  name = name_le_email;
  aliases = text "le.email" ∷ text "certificate.email" ∷ [];
  value_type = string_type;
  enum = [];
  default = [];
  api_field = text "meta.letsencrypt_email";
  plus = false;
  invert = false;
}

abbrev le_le_agree : Field
le_le_agree = record {
  name = name_le_agree;
  aliases = text "le.agree" ∷ text "certificate.agree" ∷ [];
  value_type = bool_type;
  enum = [];
  default = text "false";
  api_field = text "meta.letsencrypt_agree";
  plus = false;
  invert = false;
}

abbrev le_le_dns_challenge : Field
le_le_dns_challenge = record {
  name = name_le_dns_challenge;
  aliases = text "le.dns_challenge" ∷ text "dns_challenge" ∷ [];
  value_type = bool_type;
  enum = [];
  default = text "false";
  api_field = text "meta.dns_challenge";
  plus = false;
  invert = false;
}

abbrev le_le_dns_provider : Field
le_le_dns_provider = record {
  name = name_le_dns_provider;
  aliases = text "le.dns_provider" ∷ text "dns_provider" ∷ [];
  value_type = string_type;
  enum = [];
  default = [];
  api_field = text "meta.dns_provider";
  plus = false;
  invert = false;
}

abbrev le_le_dns_creds : Field
le_le_dns_creds = record {
  name = name_le_dns_creds;
  aliases =
      text "le.dns_credentials"
      ∷ text "dns_credentials"
      ∷ text "letsencrypt.dns_provider_credentials"
      ∷ [];
  value_type = string_type;
  enum = [];
  default = [];
  api_field = text "meta.dns_provider_credentials";
  plus = false;
  invert = false;
}

abbrev le_le_propagation : Field
le_le_propagation = record {
  name = name_le_propagation;
  aliases = text "le.propagation_seconds" ∷ text "propagation_seconds" ∷ [];
  value_type = int_type;
  enum = [];
  default = text "0";
  api_field = text "meta.propagation_seconds";
  plus = false;
  invert = false;
}

-- `letsencryptFields`
abbrev pub letsencrypt_fields : List Field
letsencrypt_fields =
    le_le_email ∷ le_le_agree ∷ le_le_dns_challenge ∷ le_le_dns_provider ∷ le_le_dns_creds
    ∷ le_le_propagation ∷ []

-- `enabledField`
abbrev pub enabled_field : Field
enabled_field = record {
  name = name_enabled;
  aliases = name_enable ∷ [];
  value_type = bool_type;
  enum = [];
  default = text "true";
  api_field = text "enabled";
  plus = false;
  invert = false;
}

-- `groupField`
abbrev pub group_field : Field
group_field = record {
  name = name_group;
  aliases = text "directory" ∷ text "folder" ∷ text "category" ∷ text "ui.group" ∷ [];
  value_type = string_type;
  enum = [];
  default = [];
  api_field = text "npmplus_directory";
  plus = false;
  invert = false;
}

-- `hostAlias` adds two spellings.
abbrev domain_aliases : Bool → List Text
domain_aliases true =
    (text "domain" ∷ text "domain_names" ∷ text "domain_name" ∷ [])
    ++ (text "host" ∷ text "hosts" ∷ [])
domain_aliases false = (text "domain" ∷ text "domain_names" ∷ text "domain_name" ∷ [])

-- `domainsField`
abbrev pub domains_field : Bool → Field
domains_field hosts = record {
  name = name_domains;
  aliases = domain_aliases hosts;
  value_type = domains_type;
  enum = [];
  default = [];
  api_field = text "domain_names";
  plus = false;
  invert = false;
}
