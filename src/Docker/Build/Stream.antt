-- ===== src/Docker/Build/Stream.antt =====
-- `buildStream` and `validateStream` of internal/docker/build.go.
use npmplus_docker_sync.Base.{
  ℕ, zero, suc, ◌==◌, Bool, true, false, not, ◌||◌, [], ◌∷◌, inl, inr, if◌then◌else◌, is_empty,
}
use npmplus_docker_sync.Base.Number.{ℤ, pos}
use npmplus_docker_sync.Base.Text.{Text, text, ◌=?◌}
use npmplus_docker_sync.Certs.Types.{Spec, Mode, auto_mode, new_mode, none_mode}
use npmplus_docker_sync.Docker.Address.{Container, ParseOptions}
use npmplus_docker_sync.Docker.Build.Upstream.{resolve_port, resolve_forward_host}
use npmplus_docker_sync.Docker.Checked.{
  Checked, ◌>>=◌, required, no_transport, no_certificate_request, over_tcp_only,
}
use npmplus_docker_sync.Docker.FieldSet.{
  FieldSet, string, source, name_of, has, boolean, port, enum,
}
use npmplus_docker_sync.Docker.Types.{Target}
use npmplus_docker_sync.Fields.Shared.Constants
use npmplus_docker_sync.Docker.Build.Hosts.{or_default}

abbrev pub listen_port : Text → ℤ → Checked ℕ
listen_port label (pos (suc n)) = inr (suc n)
listen_port label _ = inl (required label)

-- The transports that `protocol` stands for: TCP and UDP.
unfoldable pub transports : Text → Bool × Bool
unfolding ◌=?◌
transports protocol =
    if protocol =? text "udp"
    then (false, true)
    else if protocol =? text "both"
    then (true, true)
    else (true, false)

-- One of the switches, which counts where it is set or no protocol is.
unfoldable pub transport : FieldSet → Text → Text → Bool → Checked Bool
unfolding has boolean
transport f field protocol by_protocol =
    if has f field || is_empty protocol then boolean f field else inr by_protocol

unfoldable pub stream_transports : FieldSet → Checked (Bool × Bool)
unfolding enum has boolean name_of ◌=?◌
stream_transports f = do
  protocol ← enum f Constants.name_protocol
  tcp ← transport f Constants.name_tcp protocol (transports protocol).0
  udp ← transport f Constants.name_udp protocol (transports protocol).1
  if tcp || udp
      then inr (tcp, udp)
      else inl (no_transport (name_of f Constants.name_tcp) (name_of f Constants.name_udp))

unfoldable pub protocol_version : Text → ℕ
unfolding ◌=?◌
protocol_version v = if v =? text "v1" then 1 else if v =? text "v2" then 2 else 0

-- `certs.Spec{Mode: certs.ModeNone}`
abbrev pub no_certificate : Spec
no_certificate = record { mode = none_mode; id = 0; domain = []; name = []; raw = [] }

unfoldable pub without_certificate : Target → Target
without_certificate t = record t { certificate = no_certificate }

-- A stream requests no certificate.
unfoldable pub drop_request : FieldSet → Mode → Target → Checked Target
unfolding has source without_certificate
drop_request f new_mode t =
    if has f Constants.name_certificate
    then inl (no_certificate_request (source f Constants.name_certificate))
    else inr (without_certificate t)
drop_request f _ t = inr t

-- A stream that forwards UDP has no certificate.
unfoldable pub drop_certificate : FieldSet → Mode → Target → Checked Target
unfolding has source without_certificate
drop_certificate f auto_mode t = inr t
drop_certificate f none_mode t = inr t
drop_certificate f _ t =
    if has f Constants.name_certificate
    then inl (over_tcp_only (source f Constants.name_certificate))
    else inr (without_certificate t)

unfoldable pub validate_udp : FieldSet → Target → Checked Target
unfolding drop_certificate source
validate_udp f t =
    if not t.udp_forwarding
    then inr t
    else if t.proxy_tls
    then inl (over_tcp_only (source f Constants.name_proxy_tls))
    else if t.proxy_protocol == 1
    then inl (over_tcp_only (source f Constants.name_proxy_protocol))
    else drop_certificate f t.certificate.mode t

-- `validateStream`
unfoldable pub validate_stream : FieldSet → Target → Checked Target
unfolding drop_request validate_udp
validate_stream f t = drop_request f t.certificate.mode t >>= validate_udp f

-- `npm.MaxDescriptionLength`
abbrev max_description_length : ℕ
max_description_length = 255

-- `s[:n]`, for a text that is longer.
unfoldable pub take : ℕ → Text → Text
take zero s = []
take (suc n) [] = []
take (suc n) (c ∷ s) = c ∷ take n s

-- The description of a stream: its label or the container's name, cut off.
unfoldable pub stream_description : Container → FieldSet → Text
unfolding string take
stream_description c f =
    take max_description_length (or_default (string f Constants.name_description) c.name)

-- `buildStream`
unfoldable pub build_stream :
    (Text → Bool) → Target → Container → ParseOptions → FieldSet → Checked Target
unfolding port resolve_port resolve_forward_host stream_transports enum boolean validate_stream
    stream_description name_of ◌=?◌
build_stream parses_ip4 t c opts f = do
  number ← port f Constants.name_incoming_port
  incoming ← listen_port (name_of f Constants.name_incoming_port) number
  forwarding ← resolve_port c opts f Constants.name_forward_port incoming
  host ← resolve_forward_host parses_ip4 c opts f
  both ← stream_transports f
  version ← enum f Constants.name_proxy_protocol
  tls ← boolean f Constants.name_proxy_tls
  valid ← validate_stream f (record t {
    incoming_port = incoming;
    forwarding_port = forwarding;
    forwarding_host = host;
    tcp_forwarding = both.0;
    udp_forwarding = both.1;
    proxy_protocol = protocol_version version;
    proxy_tls = tls;
  })
  inr (record valid { description = stream_description c f })
