-- ===== src/Fields/Tables/Proxy.antt =====
-- `proxyFields` of internal/fields/fields.go.
mod Upstream
mod Plus
use npmplus_docker_sync.Base.{false, List, [], ◌∷◌, ◌++◌}
use npmplus_docker_sync.Base.Text.{Text, text}
use npmplus_docker_sync.Fields.Types.{Field}
use npmplus_docker_sync.Fields.Shared.{
  enabled_field, group_field, domains_field, ssl_fields, letsencrypt_fields,
}
use Upstream.{
  proxy_forward_host, proxy_forward_port, proxy_resolve_ip, proxy_forward_scheme, proxy_websockets,
  proxy_caching, proxy_block_exploits, proxy_trust_forwarded_proto, proxy_access_list,
  proxy_access_list_type, proxy_auth_request,
}
use Plus.{
  proxy_auth_request_upstream, proxy_location_config, proxy_advanced_config, proxy_no_index,
  proxy_crowdsec_appsec, proxy_request_buffering, proxy_response_buffering,
  proxy_upstream_compression, proxy_fancy_index, proxy_xframe_options,
}

-- `proxyFields`
abbrev pub proxy_fields : List Field
proxy_fields =
    (domains_field false
      ∷ proxy_forward_host
      ∷ proxy_forward_port
      ∷ proxy_resolve_ip
      ∷ proxy_forward_scheme
      ∷ proxy_websockets
      ∷ proxy_caching
      ∷ proxy_block_exploits
      ∷ proxy_trust_forwarded_proto
      ∷ proxy_access_list
      ∷ proxy_access_list_type
      ∷ proxy_auth_request
      ∷ proxy_auth_request_upstream
      ∷ proxy_location_config
      ∷ proxy_advanced_config
      ∷ proxy_no_index
      ∷ proxy_crowdsec_appsec
      ∷ proxy_request_buffering
      ∷ proxy_response_buffering
      ∷ proxy_upstream_compression
      ∷ proxy_fancy_index
      ∷ proxy_xframe_options
      ∷ enabled_field
      ∷ group_field
      ∷ [])
    ++ ssl_fields
    ++ letsencrypt_fields
