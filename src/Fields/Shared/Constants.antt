-- ===== src/Fields/Shared/Constants.antt =====
-- The names of the fields and the values of the enums of internal/fields/fields.go.
use npmplus_docker_sync.Base.{List, [], ◌∷◌}
use npmplus_docker_sync.Base.Text.{Text, text}

abbrev pub name_enable : Text
name_enable = text "enable"

abbrev pub name_enabled : Text
name_enabled = text "enabled"

abbrev pub name_domains : Text
name_domains = text "domains"

abbrev pub name_certificate : Text
name_certificate = text "certificate"

abbrev pub name_ssl_forced : Text
name_ssl_forced = text "ssl.forced"

abbrev pub name_http2 : Text
name_http2 = text "ssl.http2"

abbrev pub name_http3 : Text
name_http3 = text "ssl.http3"

abbrev pub name_hsts : Text
name_hsts = text "ssl.hsts"

abbrev pub name_hsts_subdomains : Text
name_hsts_subdomains = text "ssl.hsts_subdomains"

abbrev pub name_advanced_config : Text
name_advanced_config = text "advanced_config"

abbrev pub name_le_email : Text
name_le_email = text "letsencrypt.email"

abbrev pub name_le_agree : Text
name_le_agree = text "letsencrypt.agree"

abbrev pub name_le_dns_challenge : Text
name_le_dns_challenge = text "letsencrypt.dns_challenge"

abbrev pub name_le_dns_provider : Text
name_le_dns_provider = text "letsencrypt.dns_provider"

abbrev pub name_le_dns_creds : Text
name_le_dns_creds = text "letsencrypt.dns_credentials"

abbrev pub name_le_propagation : Text
name_le_propagation = text "letsencrypt.propagation_seconds"

abbrev pub name_forward_host : Text
name_forward_host = text "forward_host"

abbrev pub name_forward_port : Text
name_forward_port = text "forward_port"

abbrev pub name_forward_scheme : Text
name_forward_scheme = text "forward_scheme"

abbrev pub name_websockets : Text
name_websockets = text "websockets"

abbrev pub name_caching : Text
name_caching = text "caching"

abbrev pub name_block_exploits : Text
name_block_exploits = text "block_exploits"

abbrev pub name_trust_forwarded_proto : Text
name_trust_forwarded_proto = text "trust_forwarded_proto"

abbrev pub name_access_list : Text
name_access_list = text "access_list"

abbrev pub name_access_list_type : Text
name_access_list_type = text "access_list_type"

abbrev pub name_auth_request : Text
name_auth_request = text "auth_request"

abbrev pub name_auth_request_upstream : Text
name_auth_request_upstream = text "auth_request_upstream"

abbrev pub name_location_config : Text
name_location_config = text "location_config"

abbrev pub name_group : Text
name_group = text "group"

abbrev pub name_no_index : Text
name_no_index = text "noindex"

abbrev pub name_crowdsec_appsec : Text
name_crowdsec_appsec = text "crowdsec_appsec"

abbrev pub name_request_buffering : Text
name_request_buffering = text "request_buffering"

abbrev pub name_response_buffering : Text
name_response_buffering = text "response_buffering"

abbrev pub name_upstream_compression : Text
name_upstream_compression = text "upstream_compression"

abbrev pub name_fancy_index : Text
name_fancy_index = text "fancyindex"

abbrev pub name_xframe_options : Text
name_xframe_options = text "x_frame_options"

abbrev pub name_location : Text
name_location = text "location"

abbrev pub name_resolve_ip : Text
name_resolve_ip = text "resolve_ip"

abbrev pub name_forward_domain : Text
name_forward_domain = text "forward_domain"

abbrev pub name_http_code : Text
name_http_code = text "http_code"

abbrev pub name_preserve_path : Text
name_preserve_path = text "preserve_path"

abbrev pub name_incoming_port : Text
name_incoming_port = text "incoming_port"

abbrev pub name_tcp : Text
name_tcp = text "tcp"

abbrev pub name_udp : Text
name_udp = text "udp"

abbrev pub name_protocol : Text
name_protocol = text "protocol"

abbrev pub name_proxy_protocol : Text
name_proxy_protocol = text "proxy_protocol"

abbrev pub name_proxy_tls : Text
name_proxy_tls = text "proxy_tls"

abbrev pub name_description : Text
name_description = text "description"

-- `SchemeValues`
abbrev pub scheme_values : List Text
scheme_values = text "http" ∷ text "https" ∷ text "grpc" ∷ text "grpcs" ∷ []

-- `RedirectSchemeValues`
abbrev pub redirect_scheme_values : List Text
redirect_scheme_values = text "auto" ∷ text "http" ∷ text "https" ∷ []

-- `AuthRequestValues`
abbrev pub auth_request_values : List Text
auth_request_values =
    text "none"
    ∷ text "anubis"
    ∷ text "tinyauth"
    ∷ text "oauth2proxy"
    ∷ text "voidauth"
    ∷ text "authelia"
    ∷ text "authentik"
    ∷ text "authentik-send-basic-auth"
    ∷ []

-- `XFrameOptionsValues`
abbrev pub xframe_options_values : List Text
xframe_options_values = text "deny" ∷ text "sameorigin" ∷ text "upstream" ∷ text "none" ∷ []

-- `AccessListTypeValues`
abbrev pub access_list_type_values : List Text
access_list_type_values = text "public" ∷ text "custom" ∷ []

-- `LocationAccessListTypeValues`
abbrev pub location_access_list_type_values : List Text
location_access_list_type_values = text "global" ∷ text "public" ∷ text "custom" ∷ []

-- `LocationTypeValues`
abbrev pub location_type_values : List Text
location_type_values =
    text "prefix" ∷ text "exact" ∷ text "regex" ∷ text "iregex" ∷ text "prefer" ∷ text "named" ∷ []

-- `ProxyProtocolValues`
abbrev pub proxy_protocol_values : List Text
proxy_protocol_values = text "off" ∷ text "v1" ∷ text "v2" ∷ []

-- `StreamProtocolValues`
abbrev pub stream_protocol_values : List Text
stream_protocol_values = text "tcp" ∷ text "udp" ∷ text "both" ∷ []
