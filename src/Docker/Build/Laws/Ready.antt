-- ===== src/Docker/Build/Laws/Ready.antt =====
-- What the builders of the kinds put into a target.
use npmplus_docker_sync.Base.{leb, ◌≤◌, ◌<◌, Bool, false, ◌&&◌, ◌≡◌, refl, arith, is_empty}
use npmplus_docker_sync.Base.Number.{ℤ, pos, negsuc}
use npmplus_docker_sync.Base.Text.{Text}
use npmplus_docker_sync.Docker.Address.{Container, ParseOptions}
use npmplus_docker_sync.Docker.Build.Hosts.{build_redirect, build_dead, redirect_code}
use npmplus_docker_sync.Docker.Build.Laws.Domains.{HasIdentity, required_domains-HasIdentity}
use npmplus_docker_sync.Docker.Build.Laws.Ports.{
  resolve_port-Positive, resolve_forward_host-Present,
}
use npmplus_docker_sync.Docker.Build.Proxy.{
  proxy_upstream, proxy_switches, proxy_access, build_proxy,
}
use npmplus_docker_sync.Docker.Build.Upstream.{idle}
use npmplus_docker_sync.Docker.Checked.Laws.{Ok, failed, holds, Ok->>=, Ok-skip, Ok-if}
use npmplus_docker_sync.Docker.FieldSet.{FieldSet}
use npmplus_docker_sync.Docker.Types.{Target}
use npmplus_docker_sync.Fields.Shared.Constants

-- A host that can be reached: its names, its upstream and its port.
abbrev pub ProxyReady : Target → Target → Type 0
ProxyReady t u =
    (u.kind ≡ t.kind)
    × HasIdentity u.domain_names
    × (is_empty u.forward_host ≡ false)
    × (0 < u.forward_port)

abbrev pub HostReady : Target → Target → Type 0
HostReady t u = (u.kind ≡ t.kind) × (is_empty u.domain_names ≡ false) × HasIdentity u.domain_names

abbrev pub RedirectReady : Target → Target → Type 0
RedirectReady t u = HostReady t u × (300 ≤ u.forward_http_code) × (u.forward_http_code ≤ 308)

redirect_code-InRange : (s : Text) (n : ℤ) → Ok (λ p. (300 ≤ p) × (p ≤ 308)) (redirect_code s n)
redirect_code-InRange s (pos n) =
    Ok-if (leb 300 n && leb n 308) (λ e. holds (ground arith, ground arith)) (λ e. failed)
redirect_code-InRange s (negsuc n) = failed

pub build_dead-Ready : (t : Target) (f : FieldSet) → Ok (HostReady t) (build_dead t f)
unfolding build_dead
build_dead-Ready t f = Ok->>= (required_domains-HasIdentity f) (λ ds h. holds (refl, h.0, h.1))

pub build_redirect-Ready : (t : Target) (f : FieldSet) → Ok (RedirectReady t) (build_redirect t f)
unfolding build_redirect
build_redirect-Ready t f = Ok->>= (required_domains-HasIdentity f) (λ ds h. Ok-skip _ (λ forward.
    Ok-skip _ (λ scheme. Ok-skip _ (λ number. Ok->>= (redirect_code-InRange _ number) (λ code r.
      Ok-skip _ (λ preserve. Ok-skip _ (λ exploits. holds ((refl, h.0, h.1), r.0, r.1))))))))

proxy_switches-Ready :
    (t u : Target) (f : FieldSet) → ProxyReady t u → Ok (ProxyReady t) (proxy_switches u f)
unfolding proxy_switches
proxy_switches-Ready t u f h = Ok-skip _ (λ a. Ok-skip _ (λ b. Ok-skip _ (λ c. Ok-skip _ (λ d.
    Ok-skip _ (λ e.
      Ok-skip _
        (λ g. Ok-skip _ (λ i. Ok-skip _ (λ j. Ok-skip _ (λ k. Ok-skip _ (λ l. holds h))))))))))

proxy_access-Ready :
    (t u : Target) (f : FieldSet) → ProxyReady t u → Ok (ProxyReady t) (proxy_access u f)
unfolding proxy_access
proxy_access-Ready t u f h =
    Ok-skip _ (λ a. Ok-skip _ (λ b. Ok-skip _ (λ c. Ok-skip _ (λ d. holds h))))

-- A container that runs, outside of an offline check.
module _ (parses_ip4 : Text → Bool) (c : Container) (opts : ParseOptions) where
  proxy_upstream-Ready :
      idle c opts ≡ false
      → (t : Target) (f : FieldSet) → Ok (ProxyReady t) (proxy_upstream parses_ip4 t c opts f)
  unfolding proxy_upstream
  proxy_upstream-Ready up t f = Ok->>= (required_domains-HasIdentity f) (λ ds h.
      Ok->>= (resolve_forward_host-Present c opts up parses_ip4 f) (λ host p.
        Ok->>= (resolve_port-Positive c opts up f Constants.name_forward_port 0)
          (λ n q. Ok-skip _ (λ scheme. holds (refl, h.1, p, q)))))

  pub build_proxy-Ready :
      idle c opts ≡ false
      → (t : Target) (f : FieldSet) → Ok (ProxyReady t) (build_proxy parses_ip4 t c opts f)
  unfolding build_proxy
  build_proxy-Ready up t f =
      Ok->>= (proxy_upstream-Ready up t f)
        (λ u h. Ok->>= (proxy_switches-Ready t u f h) (λ v k. proxy_access-Ready t v f k))
