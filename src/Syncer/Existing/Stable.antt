-- ===== src/Syncer/Existing/Stable.antt =====
-- A resource that needs nothing is left alone (the end of the first loop of `reconcileKind` in
-- internal/syncer/worker.go).
use npmplus_docker_sync.Base.{true, ◌≡◌, arith, none, some, ap, ◌∙◌, refl, if◌then◌else◌}
use npmplus_docker_sync.Base.Dict
use npmplus_docker_sync.Base.Text.{Text, ◌=?◌, =?_refl}
use npmplus_docker_sync.Syncer.Backoff.{backoff_key, note_success}
use npmplus_docker_sync.Syncer.Existing.{
  write_existing, write_drifted, follow_enabled, wanted_enabled, in_sync,
}
use npmplus_docker_sync.Syncer.Types.{Env, Worker}
use npmplus_docker_sync.Syncer.Write.{Visit, unchanged, cleared, entry_of, apply_enabled}

module _ (E : Env) (v : Visit E) (r current : E.Resource) (w : Worker E) where
  stable_report :
      v.target.running ≡ true
      → E.fingerprint current ≡ E.fingerprint r
      → E.is_enabled current ≡ E.is_enabled r
      → write_existing E v r (E.fingerprint r) current w ≡ (
        unchanged,
        some (
            entry_of E v
              (E.resource_id current)
              (E.fingerprint r)
              (E.is_enabled current)
              (E.resource_certificate r).id),
        cleared E v w,
      )
  unfolding write_existing write_drifted follow_enabled wanted_enabled in_sync apply_enabled
  stable_report running hash enabled =
      let hashed = =?_refl (E.fingerprint r) in ground (arith, hashed)

  -- The live resource of a running container that hashes like the desired one and is enabled like
  -- it is counted as unchanged. Its cache entry has the id, the hash and the flag of the live resource
  -- and the certificate of the desired one. No call is made: the worker and the world stay as they are,
  -- but that the failure remembered for this resource is forgotten, and no other.
  pub write_existing_stable :
      v.target.running ≡ true
      → E.fingerprint current ≡ E.fingerprint r
      → E.is_enabled current ≡ E.is_enabled r
      → let report = write_existing E v r (E.fingerprint r) current w in
        (report.0 ≡ unchanged)
        × (report.1
            ≡ some (record {
              id = E.resource_id current;
              hash = E.fingerprint current;
              container = v.target.container_name;
              index = v.target.index;
              enabled = E.is_enabled current;
              certificate = (E.resource_certificate r).id;
              running = true;
            }))
        × (record report.2 { failures = w.failures } ≡ w)
        × ((id : Text)
            → Dict.lookup id report.2.failures
              ≡ (if backoff_key v.kind v.key =? id then none else Dict.lookup id w.failures))
  write_existing_stable running hash enabled =
      let e = stable_report running hash enabled in
      (
        ap (λ x. x.0) e,
        ap (λ x. x.1) e ∙ rw (running, hash) refl,
        ap (λ x. record x.2 { failures = w.failures }) e,
        λ id.
            ap (λ x. Dict.lookup id x.2.failures) e
            ∙ (unfold note_success in Dict.lookup-erase (backoff_key v.kind v.key) id w.failures),
      )
