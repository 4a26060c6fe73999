-- ===== src/Docker/Types.antt =====
-- The targets and the snapshot of internal/docker/target.go.
use npmplus_docker_sync.Base.{
  ℕ, ltb, ◌==◌, Bool, not, ◌&&◌, ◌||◌, Option, List, [], ◌∷◌, if◌then◌else◌, any, is_empty,
}
use npmplus_docker_sync.Base.Number.{ℤ, pos, itoa}
use npmplus_docker_sync.Base.Text.{Text, ◌=?◌}
use npmplus_docker_sync.Certs.Types.{Spec}
use npmplus_docker_sync.Npm.Domains.{normalize_domains}
use npmplus_docker_sync.Npm.Kind.{Kind, proxy, stream}
use npmplus_docker_sync.Npm.Types.{Location}

-- `OnStop`
pub data OnStop : Type 0 where
  disable keep delete : OnStop

-- `Target`
pub record Target : Type 0 where
  pub kind : Kind
  pub index : ℕ
  pub container_id : Text
  pub container_name : Text
  pub running : Bool
  pub explicit_plus : List Text
  pub explicit : List Text
  pub domain_names : List Text
  pub certificate : Spec
  pub ssl_forced : Option Bool
  pub http2_support : Bool
  pub hsts_enabled : Bool
  pub hsts_subdomains : Bool
  pub http3_support : Bool
  pub block_exploits : Bool
  pub advanced_config : Text
  pub enabled : Bool
  pub group : Option Text
  pub forward_scheme : Text
  pub forward_host : Text
  pub forward_port : ℕ
  pub websockets : Bool
  pub caching : Bool
  pub trust_forwarded_proto : Bool
  pub access_list_ids : List ℕ
  pub access_list_names : List Text
  pub access_list_type : Text
  pub locations : List Location
  pub no_index : Bool
  pub crowdsec_appsec : Bool
  pub request_buffering : Bool
  pub response_buffering : Bool
  pub upstream_compression : Bool
  pub fancy_index : Bool
  pub x_frame_options : Text
  pub auth_request : Text
  pub auth_request_upstream : Text
  pub location_config : Text
  pub forward_domain_name : Text
  pub forward_http_code : ℕ
  pub preserve_path : Bool
  pub incoming_port : ℕ
  pub forwarding_host : Text
  pub forwarding_port : ℕ
  pub tcp_forwarding : Bool
  pub udp_forwarding : Bool
  pub proxy_protocol : ℕ
  pub proxy_tls : Bool
  pub description : Text
  pub lets_encrypt_email : Text
  pub lets_encrypt_agree : Bool
  pub dns_challenge : Bool
  pub dns_provider : Text
  pub dns_credentials : Text
  pub propagation_seconds : ℤ

abbrev pub first : List Text → Text
first [] = []
first (d ∷ ds) = d

unfoldable pub key_of : Kind → Target → Text
key_of stream t = if t.incoming_port == 0 then [] else itoa (pos t.incoming_port)
key_of _ t = first (normalize_domains t.domain_names)

-- `Target.Key`
unfoldable pub key : Target → Text
unfolding key_of normalize_domains itoa
key t = key_of t.kind t

-- `Target.Domains`
abbrev pub domains : Target → List Text
domains t = normalize_domains t.domain_names

unfoldable pub complete_of : Kind → Target → Bool
unfolding ◌=?◌
complete_of proxy t = not (t.forward_host =? []) && ltb 0 t.forward_port
complete_of stream t =
    not (t.forwarding_host =? []) && (ltb 0 t.incoming_port && ltb 0 t.forwarding_port)
complete_of _ t = not (is_empty t.domain_names)

-- `Target.Complete`
unfoldable pub complete : Target → Bool
unfolding complete_of
complete t = complete_of t.kind t

-- `Summary`
pub record Summary : Type 0 where
  pub managed : ℕ
  pub opted_out : ℕ
  pub unlabeled : ℕ
  pub stopped : ℕ

-- `Snapshot`; the set Protected is a list.
pub record Snapshot : Type 0 where
  pub targets : List Target
  pub protected : List Text
  pub summary : Summary
  pub containers : ℕ

abbrev pub member : Text → List Text → Bool
member x = any (λ y. y =? x)

-- `Snapshot.IsProtected`
unfoldable pub is_protected : Snapshot → Text → Text → Bool
is_protected s name id =
    not (name =? []) && member name s.protected || not (id =? []) && member id s.protected
