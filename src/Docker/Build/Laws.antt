-- ===== src/Docker/Build/Laws.antt =====
-- What every target is that `buildTarget` returns.
mod Ports
mod Domains
mod Ready
pub mod Streams
use npmplus_docker_sync.Base.{
  ℕ, zero, suc, List, [], ◌∷◌, ap, lt→ltb, ltb, ◌==◌, ◌<◌, ◌≤◌, Bool, true, false, not, ◌&&◌, inl,
  inr, ◌≡◌, refl, sym, subst, ◌∙◌, arith, is_empty, if◌then◌else◌,
}
use npmplus_docker_sync.Base.Number.{pos, itoa}
use npmplus_docker_sync.Base.Number.Laws.{decimal-ne-nil}
use npmplus_docker_sync.Base.Text.{Text, ◌=?◌}
use npmplus_docker_sync.Docker.Address.{Container, ParseOptions}
use npmplus_docker_sync.Docker.Build.Laws.Ready.{
  ProxyReady, HostReady, RedirectReady, build_proxy-Ready, build_redirect-Ready, build_dead-Ready,
}
use npmplus_docker_sync.Docker.Build.Laws.Streams.{StreamReady, build_stream-Ready}
use npmplus_docker_sync.Docker.Build.Stream.{build_stream}
use npmplus_docker_sync.Docker.Build.Target.{
  new_target, build_common, build_request, build_kind, validate_certificate, build_target, is_none,
  is_set,
}
use npmplus_docker_sync.Docker.Build.Upstream.{idle}
use npmplus_docker_sync.Docker.Checked.{LabelError, Checked, ◌>>=◌}
use npmplus_docker_sync.Docker.Checked.Laws.{
  Ok, failed, holds, Ok->>=, Ok-skip, Ok-if, Ok-map, Ok_value,
}
use npmplus_docker_sync.Docker.FieldSet.{FieldSet}
use npmplus_docker_sync.Docker.Groups.{EntryKey}
use npmplus_docker_sync.Docker.Types.{Target, key, key_of, complete, complete_of}
use npmplus_docker_sync.Npm.Kind.{Kind, proxy, redirect, stream, dead, other}

port_key : (n : ℕ) → 1 ≤ n → is_empty (if n == 0 then [] else itoa (pos n)) ≡ false
unfolding itoa
port_key zero h = absurd (ground arith)
port_key (suc n) h = rw (suc_ne n) (decimal-ne-nil (suc n))
  where
    suc_ne : (n : ℕ) → (suc n == 0) ≡ false
    suc_ne n = ground arith

-- A target of the kind that can be written: it has a key and all that its kind needs.
abbrev pub IsWritable : Kind → Target → Type 0
IsWritable k t = (t.kind ≡ k) × (complete t ≡ true) × (is_empty (key t) ≡ false)

=?-nil : (s : Text) → is_empty s ≡ false → (s =? []) ≡ false
unfolding ◌=?◌
=?-nil [] h = cc
=?-nil (c ∷ s) h = refl

module _ (t u : Target) where
  proxy-IsWritable : t.kind ≡ proxy → ProxyReady t u → IsWritable proxy u
  unfolding complete key complete_of key_of
  proxy-IsWritable e (kind, name, host, port) = (
    kind ∙ e,
    ap (λ k. complete_of k u) (kind ∙ e)
        ∙ rw (=?-nil u.forward_host host) (lt→ltb 0 u.forward_port port),
    rw (ap (λ k. key_of k u) (kind ∙ e)) name,
  )

  redirect-IsWritable : t.kind ≡ redirect → RedirectReady t u → IsWritable redirect u
  unfolding complete key complete_of key_of
  redirect-IsWritable e ((kind, some_name, name), low, high) = (
    kind ∙ e,
    ap (λ k. complete_of k u) (kind ∙ e) ∙ rw some_name refl,
    rw (ap (λ k. key_of k u) (kind ∙ e)) name,
  )

  dead-IsWritable : t.kind ≡ dead → HostReady t u → IsWritable dead u
  unfolding complete key complete_of key_of
  dead-IsWritable e (kind, some_name, name) = (
    kind ∙ e,
    ap (λ k. complete_of k u) (kind ∙ e) ∙ rw some_name refl,
    rw (ap (λ k. key_of k u) (kind ∙ e)) name,
  )

  stream-IsWritable : t.kind ≡ stream → StreamReady t u → IsWritable stream u
  unfolding complete key complete_of key_of
  stream-IsWritable e (kind, low, high, port, host, one, no_request, udp) = (
    kind ∙ e,
    ap (λ k. complete_of k u) (kind ∙ e)
        ∙ rw (=?-nil u.forwarding_host host)
            (rw (lt→ltb 0 u.incoming_port low) (lt→ltb 0 u.forwarding_port port)),
    rw (ap (λ k. key_of k u) (kind ∙ e)) (port_key u.incoming_port low),
  )

build_common-Kind : (t : Target) (f : FieldSet) → Ok (λ u. u.kind ≡ t.kind) (build_common t f)
unfolding build_common
build_common-Kind t f = Ok-skip _ (λ a. Ok-skip _ (λ b. Ok-skip _ (λ c.
    Ok-skip _
      (λ d. Ok-skip _ (λ e. Ok-skip _ (λ g. Ok-skip _ (λ h. Ok-skip _ (λ i. holds refl))))))))

build_request-Kind : (t : Target) (f : FieldSet) → Ok (λ u. u.kind ≡ t.kind) (build_request t f)
unfolding build_request
build_request-Kind t f = Ok-skip _ (λ a. Ok-skip _ (λ b. Ok-skip _ (λ c. holds refl)))

-- The last validation returns the target as it is, or an error.
validate_certificate-Ok :
    (P : Target → Type 0) (f : FieldSet) (t : Target) → P t → Ok P (validate_certificate f t)
unfolding validate_certificate
validate_certificate-Ok P f t h =
    Ok-if (t.dns_challenge && is_empty t.dns_provider) (λ e. failed)
      (λ e. Ok-if (is_none t.certificate.mode && is_set t.ssl_forced) (λ g. failed) (λ g. holds h))

module _ (parses_ip4 : Text → Bool) (c : Container) (opts : ParseOptions)
    (up : idle c opts ≡ false) where
  build_kind-IsWritable :
      (k : Kind) (t : Target) (f : FieldSet)
      → t.kind ≡ k
      → Ok (IsWritable k) (build_kind parses_ip4 k t c opts f)
  unfolding build_kind
  build_kind-IsWritable proxy t f e =
      Ok-map (λ u. proxy-IsWritable t u e) (build_proxy-Ready parses_ip4 c opts up t f)
  build_kind-IsWritable redirect t f e =
      Ok-map (λ u. redirect-IsWritable t u e) (build_redirect-Ready t f)
  build_kind-IsWritable stream t f e =
      Ok-map (λ u. stream-IsWritable t u e) (build_stream-Ready parses_ip4 c opts up t f)
  build_kind-IsWritable dead t f e = Ok-map (λ u. dead-IsWritable t u e) (build_dead-Ready t f)
  build_kind-IsWritable (other k) t f e = failed

  build_target-Ok :
      (k : EntryKey) (f : FieldSet) → Ok (IsWritable k.kind) (build_target parses_ip4 c opts k f)
  unfolding build_target new_target
  build_target-Ok k f = Ok->>= (build_common-Kind (new_target c k f) f) (λ u e.
      Ok->>= (build_request-Kind u f) (λ v g.
        Ok->>= (build_kind-IsWritable k.kind v f (g ∙ e))
          (λ w h. validate_certificate-Ok (IsWritable k.kind) f w h)))

  -- A target that is built for a container that runs, outside of an offline check, is of the kind
  -- that its labels name, complete, and has a key: every host has a name that does not normalise
  -- away, and every stream a port.
  pub build_target-IsWritable :
      (k : EntryKey) (f : FieldSet) (t : Target)
      → build_target parses_ip4 c opts k f ≡ inr t
      → IsWritable k.kind t
  build_target-IsWritable k f t h =
      Ok_value (build_target parses_ip4 c opts k f) (build_target-Ok k f) h

  -- A stream that is built for a container that runs, outside of an offline check, keeps the kind,
  -- listens on a port from 1 to 65535, leads to a port on a host, forwards TCP or UDP, and requests no
  -- certificate. Where it forwards UDP, it has no TLS towards the upstream, no PROXY protocol 1, and a
  -- certificate only by the automatic selection.
  pub build_stream-Legal :
      (t u : Target) (f : FieldSet) → build_stream parses_ip4 t c opts f ≡ inr u → StreamReady t u
  build_stream-Legal t u f h =
      Ok_value (build_stream parses_ip4 t c opts f) (build_stream-Ready parses_ip4 c opts up t f) h
