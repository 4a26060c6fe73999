-- ===== src/Tests/World.antt =====
-- A small world for the worker: a server that keeps its hosts in a list, and answers every call.
use npmplus_docker_sync.Base.{ℕ, Bool, true, false, List, [], ◌∷◌, none, some, ◌⊎◌, inl, inr}
use npmplus_docker_sync.Base.Number.{pos}
use npmplus_docker_sync.Base.Text.{Text, text}
use npmplus_docker_sync.Certs.Types.{Spec, none_mode, primary}
use npmplus_docker_sync.Docker.Types.{Target, Snapshot, disable}
use npmplus_docker_sync.Npm.Dialect.{Dialect, npmplus}
use npmplus_docker_sync.Npm.Kind.{Kind, proxy, stream}
use npmplus_docker_sync.Npm.Meta.{Meta, string, managed_by_key, managed_by_value, container_key}
use npmplus_docker_sync.Npm.Types.{certificate_ref}
use npmplus_docker_sync.Syncer.Cache.{new_cache}
use npmplus_docker_sync.Syncer.Types.{Env, Options, Worker}

-- A host of the server.
pub record Host : Type 0 where
  pub id : ℕ
  pub key : Text
  pub meta : Meta
  pub fingerprint : Text
  pub enabled : Bool

abbrev pub plus : Dialect
plus = record {
  flavour = npmplus;
  version = record { major = 2; minor = 14; revision = 0 };
  schema = [];
  meta_retired = false;
}

abbrev pub ours : Meta
ours = (managed_by_key, string managed_by_value) ∷ (container_key, string (text "old")) ∷ []

abbrev no_certificate : Spec
no_certificate = record { mode = none_mode; id = 0; domain = []; name = []; raw = [] }

-- A container that serves app.example.org.
abbrev pub app : Target
app = record {
  kind = proxy;
  index = 0;
  container_id = text "c1";
  container_name = text "app";
  running = true;
  explicit_plus = [];
  explicit = [];
  domain_names = text "app.example.org" ∷ [];
  certificate = no_certificate;
  ssl_forced = none;
  http2_support = true;
  hsts_enabled = false;
  hsts_subdomains = false;
  http3_support = false;
  block_exploits = true;
  advanced_config = [];
  enabled = true;
  group = none;
  forward_scheme = text "http";
  forward_host = text "172.18.0.2";
  forward_port = 8080;
  websockets = true;
  caching = false;
  trust_forwarded_proto = false;
  access_list_ids = [];
  access_list_names = [];
  access_list_type = [];
  locations = [];
  no_index = false;
  crowdsec_appsec = true;
  request_buffering = true;
  response_buffering = true;
  upstream_compression = false;
  fancy_index = false;
  x_frame_options = [];
  auth_request = [];
  auth_request_upstream = [];
  location_config = [];
  forward_domain_name = [];
  forward_http_code = 0;
  preserve_path = false;
  incoming_port = 0;
  forwarding_host = [];
  forwarding_port = 0;
  tcp_forwarding = false;
  udp_forwarding = false;
  proxy_protocol = 0;
  proxy_tls = false;
  description = [];
  lets_encrypt_email = [];
  lets_encrypt_agree = false;
  dns_challenge = false;
  dns_provider = [];
  dns_credentials = [];
  propagation_seconds = pos 0;
}

abbrev pub snapshot : Snapshot
snapshot = record {
  targets = app ∷ [];
  protected = [];
  summary = record { managed = 1; opted_out = 0; unlabeled = 0; stopped = 0 };
  containers = 1;
}

-- The host of a container that is gone, and one that a person made.
abbrev pub old_host : Host
old_host = record {
  id = 4;
  key = text "old.example.org";
  meta = ours;
  fingerprint = text "old";
  enabled = true;
}

abbrev pub hand_made : Host
hand_made = record {
  id = 5;
  key = text "hand.example.org";
  meta = [];
  fingerprint = text "hand";
  enabled = true;
}

abbrev pub listed : List Host
listed = old_host ∷ hand_made ∷ []

abbrev pub app_host : Host
app_host = record {
  id = 0;
  key = text "app.example.org";
  meta = ours;
  fingerprint = text "app:8080";
  enabled = true;
}

abbrev list_kind : Kind → List Host → Text ⊎ List Host
list_kind proxy hosts = inr hosts
list_kind stream hosts = inl (text "502")
list_kind _ hosts = inr []

-- The environment. Streams cannot be listed.
abbrev pub world : Env
world = record {
  Resource = Host;
  Server = List Host;
  Error = Text;
  certs = record { to_ascii = λ s. some s; parse_time = λ s. none };
  describe = λ p. text "error";
  is_not_found = λ e. false;
  now = λ s. (1000, s);
  resource_kind = λ r. proxy;
  resource_id = λ r. r.id;
  resource_key = λ r. r.key;
  resource_meta = λ r. r.meta;
  owner_marked = λ r. true;
  resource_certificate = λ r. certificate_ref 0;
  fingerprint = λ r. r.fingerprint;
  is_enabled = λ r. r.enabled;
  domains = λ r. some (r.key ∷ []);
  adopt_server_state = λ r current. r;
  build_resource = λ t c id prefix. some app_host;
  conform = λ r d. r;
  snapshot = λ s. (inr snapshot, s);
  list = λ k s. (list_kind k s, s);
  create = λ r s. (inr (record r { id = 7 }), record r { id = 7 } ∷ s);
  update = λ id r s. (inr r, s);
  delete = λ k id s. (none, s);
  set_enabled = λ k id b s. (none, s);
  list_certificates = λ s. (inr [], s);
  list_access_lists = λ s. (inr [], s);
  dialect = λ s. plus;
  recheck = λ s. (none, s);
}

abbrev pub options : Options
options = record {
  delete_orphans = true;
  adopt_existing = false;
  dry_run = false;
  kinds = proxy ∷ stream ∷ [];
  certificate_partial = primary;
  certificate_auto_create = false;
  migrate_from_redth = false;
  on_stop = disable;
  stop_grace = 30;
  instance_id = [];
  label_prefix = text "npm";
  delete_guard = (1, 2);
  delete_guard_min = 3;
}

abbrev pub worker : Worker world
worker = record {
  server = listed;
  calls = [];
  cache = new_cache;
  certificates = [];
  certificate_hash = [];
  access_lists = [];
  failures = [];
  stopped_since = [];
  chosen = [];
  status = record { last_run = none; last_err = []; last_failed = 0; blocked = none };
}
