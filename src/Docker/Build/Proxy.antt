-- ===== src/Docker/Build/Proxy.antt =====
-- `buildProxy` of internal/docker/build.go.
use npmplus_docker_sync.Base.{Bool, inr}
use npmplus_docker_sync.Base.Text.{Text, text}
use npmplus_docker_sync.Docker.Address.{Container, ParseOptions}
use npmplus_docker_sync.Docker.Build.Access.{parse_access_list}
use npmplus_docker_sync.Npm.Locations.Access.{access_list_public}
use npmplus_docker_sync.Docker.Build.Locations.{parse_locations}
use npmplus_docker_sync.Docker.Build.Upstream.{resolve_port, resolve_forward_host}
use npmplus_docker_sync.Docker.Build.Values.{x_frame_options}
use npmplus_docker_sync.Docker.Checked.{Checked, ◌>>=◌}
use npmplus_docker_sync.Docker.FieldSet.{FieldSet, string, boolean, enum}
use npmplus_docker_sync.Docker.Types.{Target}
use npmplus_docker_sync.Fields.Shared.Constants
use npmplus_docker_sync.Docker.Build.Hosts.{required_domains, or_default}

-- The switches of `buildProxy`
unfoldable pub proxy_switches : Target → FieldSet → Checked Target
unfolding boolean
proxy_switches t f = do
  websockets ← boolean f Constants.name_websockets
  caching ← boolean f Constants.name_caching
  exploits ← boolean f Constants.name_block_exploits
  trust ← boolean f Constants.name_trust_forwarded_proto
  no_index ← boolean f Constants.name_no_index
  crowdsec ← boolean f Constants.name_crowdsec_appsec
  request ← boolean f Constants.name_request_buffering
  response ← boolean f Constants.name_response_buffering
  compression ← boolean f Constants.name_upstream_compression
  fancy ← boolean f Constants.name_fancy_index
  inr (record t {
    websockets = websockets;
    caching = caching;
    block_exploits = exploits;
    trust_forwarded_proto = trust;
    no_index = no_index;
    crowdsec_appsec = crowdsec;
    request_buffering = request;
    response_buffering = response;
    upstream_compression = compression;
    fancy_index = fancy;
  })

-- `buildProxy` behind the switches.
unfoldable pub proxy_access : Target → FieldSet → Checked Target
unfolding x_frame_options enum string parse_access_list parse_locations
proxy_access t f = do
  frame ← x_frame_options f
  auth ← enum f Constants.name_auth_request
  lists ← parse_access_list f access_list_public
  let set : Target = record t {
    x_frame_options = frame;
    auth_request = auth;
    auth_request_upstream = string f Constants.name_auth_request_upstream;
    location_config = string f Constants.name_location_config;
    access_list_ids = lists.ids;
    access_list_names = lists.names;
    access_list_type = lists.list_type;
  }
  locations ← parse_locations set f
  inr (record set { locations = locations })

module _ (parses_ip4 : Text → Bool) where
  -- `buildProxy` up to the upstream.
  unfoldable pub proxy_upstream : Target → Container → ParseOptions → FieldSet → Checked Target
  unfolding required_domains resolve_forward_host resolve_port enum
  proxy_upstream t c opts f = do
    names ← required_domains f
    host ← resolve_forward_host parses_ip4 c opts f
    number ← resolve_port c opts f Constants.name_forward_port 0
    scheme ← enum f Constants.name_forward_scheme
    inr (record t {
      domain_names = names;
      forward_host = host;
      forward_port = number;
      forward_scheme = or_default scheme (text "http");
    })

  -- `buildProxy`
  unfoldable pub build_proxy : Target → Container → ParseOptions → FieldSet → Checked Target
  unfolding proxy_upstream proxy_switches proxy_access
  build_proxy t c opts f = do
    upstream ← proxy_upstream t c opts f
    switched ← proxy_switches upstream f
    proxy_access switched f
