-- ===== src/Docker/Build/Target.antt =====
-- `buildTarget` and `validateCertificate` of internal/docker/build.go.
use npmplus_docker_sync.Base.{
  Bool, true, false, ◌&&◌, Option, none, some, [], inl, inr, if◌then◌else◌, is_empty,
}
use npmplus_docker_sync.Base.Number.{pos}
use npmplus_docker_sync.Base.Text.{Text}
use npmplus_docker_sync.Certs.Types.{Mode, none_mode}
use npmplus_docker_sync.Docker.Address.{Container, ParseOptions, running}
use npmplus_docker_sync.Docker.Build.Hosts.{build_redirect, build_dead}
use npmplus_docker_sync.Docker.Build.Proxy.{build_proxy}
use npmplus_docker_sync.Docker.Build.Stream.{build_stream, no_certificate}
use npmplus_docker_sync.Docker.Build.Values.{
  explicit_plus, explicit_fields, group_spec, certificate_spec,
}
use npmplus_docker_sync.Docker.Checked.{Checked, ◌>>=◌, required, needs_certificate, unknown_kind}
use npmplus_docker_sync.Docker.FieldSet.{
  FieldSet, string, source, name_of, boolean, boolean_auto, integer,
}
use npmplus_docker_sync.Docker.Groups.{EntryKey}
use npmplus_docker_sync.Docker.Types.{Target}
use npmplus_docker_sync.Fields.Shared.Constants
use npmplus_docker_sync.Npm.Kind.{Kind, proxy, redirect, stream, dead, other}

-- The literal of `buildTarget`; the other fields have their zero values.
unfoldable pub new_target : Container → EntryKey → FieldSet → Target
unfolding running explicit_plus explicit_fields
new_target c key f = record {
  kind = key.kind;
  index = key.index;
  container_id = c.id;
  container_name = c.name;
  running = running c;
  explicit_plus = explicit_plus key.kind f;
  explicit = explicit_fields key.kind f;
  domain_names = [];
  certificate = no_certificate;
  ssl_forced = none;
  http2_support = false;
  hsts_enabled = false;
  hsts_subdomains = false;
  http3_support = false;
  block_exploits = false;
  advanced_config = [];
  enabled = false;
  group = none;
  forward_scheme = [];
  forward_host = [];
  forward_port = 0;
  websockets = false;
  caching = false;
  trust_forwarded_proto = false;
  access_list_ids = [];
  access_list_names = [];
  access_list_type = [];
  locations = [];
  no_index = false;
  crowdsec_appsec = false;
  request_buffering = false;
  response_buffering = false;
  upstream_compression = false;
  fancy_index = false;
  x_frame_options = [];
  auth_request = [];
  auth_request_upstream = [];
  location_config = [];
  forward_domain_name = [];
  forward_http_code = 0;
  preserve_path = false;
  incoming_port = 0;
  forwarding_host = [];
  forwarding_port = 0;
  tcp_forwarding = false;
  udp_forwarding = false;
  proxy_protocol = 0;
  proxy_tls = false;
  description = [];
  lets_encrypt_email = [];
  lets_encrypt_agree = false;
  dns_challenge = false;
  dns_provider = [];
  dns_credentials = [];
  propagation_seconds = pos 0;
}

-- The fields that all kinds share, up to the group.
unfoldable pub build_common : Target → FieldSet → Checked Target
unfolding boolean boolean_auto certificate_spec group_spec string
build_common t f = do
  enabled ← boolean f Constants.name_enabled
  certificate ← certificate_spec f
  forced ← boolean_auto f Constants.name_ssl_forced
  http2 ← boolean f Constants.name_http2
  http3 ← boolean f Constants.name_http3
  hsts ← boolean f Constants.name_hsts
  subdomains ← boolean f Constants.name_hsts_subdomains
  group ← group_spec f
  inr (record t {
    enabled = enabled;
    certificate = certificate;
    ssl_forced = forced;
    http2_support = http2;
    http3_support = http3;
    hsts_enabled = hsts;
    hsts_subdomains = subdomains;
    advanced_config = string f Constants.name_advanced_config;
    group = group;
  })

-- The fields of a certificate request.
unfoldable pub build_request : Target → FieldSet → Checked Target
unfolding boolean integer string
build_request t f = do
  agree ← boolean f Constants.name_le_agree
  challenge ← boolean f Constants.name_le_dns_challenge
  seconds ← integer f Constants.name_le_propagation
  inr (record t {
    lets_encrypt_email = string f Constants.name_le_email;
    lets_encrypt_agree = agree;
    dns_challenge = challenge;
    dns_provider = string f Constants.name_le_dns_provider;
    dns_credentials = string f Constants.name_le_dns_creds;
    propagation_seconds = seconds;
  })

-- The switch of `buildTarget` on the kind.
unfoldable pub build_kind :
    (Text → Bool) → Kind → Target → Container → ParseOptions → FieldSet → Checked Target
unfolding build_proxy build_redirect build_stream build_dead
build_kind parses_ip4 proxy t c opts f = build_proxy parses_ip4 t c opts f
build_kind parses_ip4 redirect t c opts f = build_redirect t f
build_kind parses_ip4 stream t c opts f = build_stream parses_ip4 t c opts f
build_kind parses_ip4 dead t c opts f = build_dead t f
build_kind parses_ip4 (other k) t c opts f = inl (unknown_kind k)

abbrev pub is_none : Mode → Bool
is_none none_mode = true
is_none _ = false

abbrev pub is_set : Option Bool → Bool
is_set none = false
is_set (some b) = b

-- `validateCertificate`
unfoldable pub validate_certificate : FieldSet → Target → Checked Target
unfolding name_of source
validate_certificate f t =
    if t.dns_challenge && is_empty t.dns_provider
    then inl (required (name_of f Constants.name_le_dns_provider))
    else if is_none t.certificate.mode && is_set t.ssl_forced
    then inl (needs_certificate (source f Constants.name_ssl_forced))
    else inr t

-- `buildTarget`
unfoldable pub build_target :
    (Text → Bool) → Container → ParseOptions → EntryKey → FieldSet → Checked Target
unfolding new_target build_common build_request build_kind validate_certificate
build_target parses_ip4 c opts key f = do
  common ← build_common (new_target c key f) f
  requested ← build_request common f
  built ← build_kind parses_ip4 key.kind requested c opts f
  validate_certificate f built
