-- ===== src/Docker/Build/Laws/Streams.antt =====
-- What `buildStream` accepts: the ports are in range, a transport is on, and nothing that works over
-- TCP only stands beside UDP.
use npmplus_docker_sync.Base.{
  ◌≤◌, ◌<◌, ◌==◌, Bool, true, false, not, ◌||◌, ◌≡◌, refl, sym, subst, ◌∙◌, arith, is_empty,
}
use npmplus_docker_sync.Base.Text.{Text}
use npmplus_docker_sync.Certs.Types.{
  Mode, auto_mode, id_mode, domain_mode, name_mode, new_mode, none_mode,
}
use npmplus_docker_sync.Docker.Address.{Container, ParseOptions}
use npmplus_docker_sync.Docker.Build.Laws.Ports.{
  port-IsSetting, listen_port-InRange, resolve_port-Positive, resolve_forward_host-Present,
}
use npmplus_docker_sync.Docker.Build.Stream.{
  build_stream, stream_transports, validate_stream, drop_request, validate_udp, drop_certificate,
  without_certificate,
}
use npmplus_docker_sync.Docker.Build.Upstream.{idle}
use npmplus_docker_sync.Docker.Checked.Laws.{Ok, failed, holds, Ok->>=, Ok-skip, Ok-if, Ok-map}
use npmplus_docker_sync.Docker.FieldSet.{FieldSet, has}
use npmplus_docker_sync.Docker.Types.{Target}
use npmplus_docker_sync.Fields.Shared.Constants

-- The certificate is left to the selection, or there is none.
abbrev AutoOrNone : Mode → Type 0
AutoOrNone auto_mode = Unit
AutoOrNone none_mode = Unit
AutoOrNone _ = ⊥

-- The rules for a stream that forwards UDP.
abbrev UdpLegal : Target → Type 0
UdpLegal t =
    (t.proxy_tls ≡ false) × ((t.proxy_protocol == 1) ≡ false) × AutoOrNone t.certificate.mode

-- What `validateStream` leaves alone.
record Kept (t u : Target) : Type 0 where
  same_kind : u.kind ≡ t.kind
  same_incoming : u.incoming_port ≡ t.incoming_port
  same_port : u.forwarding_port ≡ t.forwarding_port
  same_host : u.forwarding_host ≡ t.forwarding_host
  same_tcp : u.tcp_forwarding ≡ t.tcp_forwarding
  same_udp : u.udp_forwarding ≡ t.udp_forwarding

kept : (t : Target) → Kept t t
kept t = record {
  same_kind = refl;
  same_incoming = refl;
  same_port = refl;
  same_host = refl;
  same_tcp = refl;
  same_udp = refl;
}

kept_without : (t : Target) → Kept t (without_certificate t)
unfolding without_certificate
kept_without t = record {
  same_kind = refl;
  same_incoming = refl;
  same_port = refl;
  same_host = refl;
  same_tcp = refl;
  same_udp = refl;
}

-- No certificate is requested.
abbrev NoRequest : Mode → Type 0
NoRequest new_mode = ⊥
NoRequest _ = Unit

-- And what it makes sure of.
Validated : Target → Target → Type 0
Validated t u = Kept t u × (u.udp_forwarding ≡ true → UdpLegal u) × NoRequest u.certificate.mode

drop_certificate-Legal :
    (f : FieldSet) (m : Mode) (t : Target)
    → t.certificate.mode ≡ m
    → NoRequest m
    → t.proxy_tls ≡ false
    → (t.proxy_protocol == 1) ≡ false
    → Ok (Validated t) (drop_certificate f m t)
unfolding drop_certificate without_certificate Validated kept
drop_certificate-Legal f auto_mode t e n tls p =
    holds (kept t, λ u. (tls, p, subst AutoOrNone (sym e) tt), subst NoRequest (sym e) n)
drop_certificate-Legal f none_mode t e n tls p =
    holds (kept t, λ u. (tls, p, subst AutoOrNone (sym e) tt), subst NoRequest (sym e) n)
drop_certificate-Legal f id_mode t e n tls p =
    Ok-if (has f Constants.name_certificate) (λ g. failed)
      (λ g. holds (kept_without t, λ u. (tls, p, tt), tt))
drop_certificate-Legal f domain_mode t e n tls p =
    Ok-if (has f Constants.name_certificate) (λ g. failed)
      (λ g. holds (kept_without t, λ u. (tls, p, tt), tt))
drop_certificate-Legal f name_mode t e n tls p =
    Ok-if (has f Constants.name_certificate) (λ g. failed)
      (λ g. holds (kept_without t, λ u. (tls, p, tt), tt))
drop_certificate-Legal f new_mode t e n tls p = absurd n

validate_udp-Legal :
    (f : FieldSet) (t : Target) → NoRequest t.certificate.mode → Ok (Validated t) (validate_udp f t)
unfolding validate_udp Validated
validate_udp-Legal f t n =
    Ok-if (not t.udp_forwarding) (λ e. holds (kept t, λ u. absurd (ground arith), n))
      (λ e.
        Ok-if t.proxy_tls (λ g. failed)
          (λ g.
            Ok-if (t.proxy_protocol == 1) (λ h. failed)
              (λ h. drop_certificate-Legal f t.certificate.mode t refl n g h)))

-- Dropping the request of a certificate changes nothing that is kept, and leaves no request.
drop_request-Kept :
    (f : FieldSet) (m : Mode) (t : Target)
    → t.certificate.mode ≡ m
    → Ok (λ u. Kept t u × NoRequest u.certificate.mode) (drop_request f m t)
unfolding drop_request without_certificate
drop_request-Kept f new_mode t e =
    Ok-if (has f Constants.name_certificate) (λ g. failed) (λ g. holds (kept_without t, tt))
drop_request-Kept f auto_mode t e = holds (kept t, subst NoRequest (sym e) tt)
drop_request-Kept f id_mode t e = holds (kept t, subst NoRequest (sym e) tt)
drop_request-Kept f domain_mode t e = holds (kept t, subst NoRequest (sym e) tt)
drop_request-Kept f name_mode t e = holds (kept t, subst NoRequest (sym e) tt)
drop_request-Kept f none_mode t e = holds (kept t, subst NoRequest (sym e) tt)

kept_twice : (t u v : Target) → Kept t u → Kept u v → Kept t v
kept_twice t u v h k = record {
  same_kind = k.same_kind ∙ h.same_kind;
  same_incoming = k.same_incoming ∙ h.same_incoming;
  same_port = k.same_port ∙ h.same_port;
  same_host = k.same_host ∙ h.same_host;
  same_tcp = k.same_tcp ∙ h.same_tcp;
  same_udp = k.same_udp ∙ h.same_udp;
}

validate_stream-Legal : (f : FieldSet) (t : Target) → Ok (Validated t) (validate_stream f t)
unfolding validate_stream Validated
validate_stream-Legal f t =
    Ok->>= (drop_request-Kept f t.certificate.mode t refl)
      (λ u h. Ok-map (λ v k. (kept_twice t u v h.0 k.0, k.1, k.2)) (validate_udp-Legal f u h.1))

-- A stream that NPMplus accepts: it listens on a port, leads to one on a host, forwards at least one
-- transport, requests no certificate, and forwards UDP only without TLS, a certificate and the first version of the PROXY protocol.
abbrev pub StreamReady : Target → Target → Type 0
StreamReady t u =
    (u.kind ≡ t.kind)
    × (1 ≤ u.incoming_port)
    × (u.incoming_port ≤ 65535)
    × (0 < u.forwarding_port)
    × (is_empty u.forwarding_host ≡ false)
    × ((u.tcp_forwarding || u.udp_forwarding) ≡ true)
    × NoRequest u.certificate.mode
    × (u.udp_forwarding ≡ true → UdpLegal u)

-- What was ready before the validation, but for UDP, is ready behind it.
abbrev Prepared : Target → Target → Type 0
Prepared t w =
    (w.kind ≡ t.kind)
    × (1 ≤ w.incoming_port)
    × (w.incoming_port ≤ 65535)
    × (0 < w.forwarding_port)
    × (is_empty w.forwarding_host ≡ false)
    × ((w.tcp_forwarding || w.udp_forwarding) ≡ true)

ready_of_kept : (t w u : Target) → Prepared t w → Validated w u → StreamReady t u
unfolding Validated
ready_of_kept t w u (kind, low, high, port, host, some_transport) (k, legal, none_new) = (
  k.same_kind ∙ kind,
  subst (λ n. 1 ≤ n) (sym k.same_incoming) low,
  subst (λ n. n ≤ 65535) (sym k.same_incoming) high,
  subst (λ n. 0 < n) (sym k.same_port) port,
  subst (λ h. is_empty h ≡ false) (sym k.same_host) host,
  rw (k.same_tcp, k.same_udp) some_transport,
  none_new,
  legal,
)

stream_transports-Some : (f : FieldSet) → Ok (λ b. (b.0 || b.1) ≡ true) (stream_transports f)
unfolding stream_transports
stream_transports-Some f = Ok-skip _ (λ protocol.
    Ok-skip _ (λ tcp. Ok-skip _ (λ udp. Ok-if (tcp || udp) (λ e. holds e) (λ e. failed))))

pub build_stream-Ready :
    (parses_ip4 : Text → Bool) (c : Container) (opts : ParseOptions)
    → idle c opts ≡ false
    → (t : Target) (f : FieldSet) → Ok (StreamReady t) (build_stream parses_ip4 t c opts f)
unfolding build_stream Validated
build_stream-Ready parses_ip4 c opts up t f =
    Ok->>= (port-IsSetting f Constants.name_incoming_port) (λ n s.
      Ok->>= (listen_port-InRange _ n s) (λ incoming r.
        Ok->>= (resolve_port-Positive c opts up f Constants.name_forward_port incoming) (λ p q.
          Ok->>= (resolve_forward_host-Present c opts up parses_ip4 f) (λ host h.
            Ok->>= (stream_transports-Some f) (λ both b. Ok-skip _ (λ version. Ok-skip _ (λ tls.
              Ok->>= (validate_stream-Legal f _)
                (λ u v. holds (ready_of_kept t _ u (refl, r.0, r.1, q, h, b) v)))))))))
