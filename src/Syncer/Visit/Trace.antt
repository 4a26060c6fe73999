-- ===== src/Syncer/Visit/Trace.antt =====
-- The writes of a whole visit (internal/syncer/worker.go).
use npmplus_docker_sync.Base.{
  arith, subst, ℕ, Bool, true, false, not, ◌&&◌, Option, none, some, List, ◌≡◌, refl, ◌⊎◌, inl, inr,
  if◌then◌else◌,
}
use npmplus_docker_sync.Base.Dict.{Dict}
use npmplus_docker_sync.Base.Text.{Text}
use npmplus_docker_sync.Certs.Types.{Selection}
use npmplus_docker_sync.Docker.Types.{Target}
use npmplus_docker_sync.Npm.Kind.{Kind}
use npmplus_docker_sync.Npm.Types.{CertificateId}
use npmplus_docker_sync.Syncer.Backoff.{deferred}
use npmplus_docker_sync.Syncer.Existing.Trace.{write_existing-Legal}
use npmplus_docker_sync.Syncer.Lookups.{
  resolve_access_lists, resolve_certificate, chosen, clock, selection_for,
}
use npmplus_docker_sync.Syncer.Lookups.Laws.{resolve_access_lists-kind}
use npmplus_docker_sync.Syncer.Ownership.{ownership, Decision, skip, adopt, use_it, foreign_domain}
use npmplus_docker_sync.Syncer.Stopped.{in_grace}
use npmplus_docker_sync.Syncer.Types.{Env, Worker, Options, Call}
use npmplus_docker_sync.Syncer.Visit.{
  write, adopted, unless_waiting, unless_deferred, compare_built, with_certificate,
  with_access_lists, check_domains, check_grace, unless_foreign, visit, stored_entry,
}
use npmplus_docker_sync.Syncer.Write.{skipped, unchanged, Visit, Report}
use npmplus_docker_sync.Syncer.Write.Trace.{Legal, Scope, start, scope, calls_of, write_new-Legal}

module _ (E : Env) where
  chosen-calls :
      (opts : Options) (t : Target) (sel : Option Selection) (w : Worker E)
      → (chosen E opts t sel w).1.calls ≡ w.calls
  unfolding chosen
  chosen-calls opts t none w = refl
  chosen-calls opts t (some sel) w = ground arith

  resolve_certificate-calls :
      (opts : Options) (t : Target) (live : Option E.Resource) (w : Worker E)
      → (resolve_certificate E opts t live w).1.calls ≡ w.calls
  unfolding resolve_certificate
  resolve_certificate-calls opts t live w =
      let (now, w') = clock E w in
      chosen-calls opts t (selection_for E opts t live now w'.certificates) w'

module _ (E : Env) where
  -- The resource is the one that is built from the target, with its access lists resolved and some
  -- certificate, conformed to the server, and with the values adopted that the server has set.
  abbrev pub Wanted : Visit E → Option E.Resource → E.Resource → Type 0
  Wanted v live r =
      (index : Dict ℕ) × (t : Target) × (certificate : CertificateId) × (built : E.Resource)
      × (resolve_access_lists index v.target ≡ inr t)
      × (E.build_resource t certificate v.options.instance_id v.options.label_prefix ≡ some built)
      × (r ≡ adopted E (E.conform built v.dialect) live)

  abbrev pub scope_of : Visit E → Option E.Resource → Scope E
  scope_of v live = scope E v (Wanted v live) live

  either :
      (s : Scope E) (old : List (Call E)) (b : Bool) (x y : Report E)
      → Legal E s old (calls_of E x)
      → Legal E s old (calls_of E y)
      → Legal E s old (calls_of E (if b then x else y))
  either s old true x y lx ly = lx
  either s old false x y lx ly = ly

  write-Legal :
      (v : Visit E) (P : E.Resource → Type 0) (live : Option E.Resource) (r : E.Resource)
      (hash : Text) (w : Worker E)
      → P r
      → Legal E (scope E v P live) w.calls (calls_of E (write E v r hash live w))
  unfolding write
  write-Legal v P none r hash w q = write_new-Legal E v P r hash w q
  write-Legal v P (some c) r hash w q = write_existing-Legal E v P c r hash w q

  module _ (v : Visit E) (live : Option E.Resource) (P : E.Resource → Type 0) where
    abbrev Allowed : List (Call E) → List (Call E) → Type 0
    Allowed = Legal E (scope E v P live)

    unless_waiting-Legal :
        (r : E.Resource) (hash : Text) (b : Bool) (w : Worker E)
        → P r
        → Allowed w.calls (calls_of E (unless_waiting E v r hash live b w))
    unless_waiting-Legal r hash true w q = start
    unless_waiting-Legal r hash false w q = write-Legal v P live r hash w q

    compare_built-Legal :
        (built : Option E.Resource) (w : Worker E)
        → ((b : E.Resource) → built ≡ some b → P (adopted E (E.conform b v.dialect) live))
        → Allowed w.calls (calls_of E (compare_built E v built live w))
    unfolding compare_built unless_deferred
    compare_built-Legal none w q = start
    compare_built-Legal (some built) w q =
        let r = adopted E (E.conform built v.dialect) live in
        let (waiting, left, failures) = deferred v.kind v.key (E.fingerprint r) v.now w.failures in
        unless_waiting-Legal r (E.fingerprint r) waiting (record w { failures = failures })
          (q built refl)

    with_certificate-Legal :
        (c : Option CertificateId) (w : Worker E)
        → ((certificate : CertificateId) (b : E.Resource)
            → E.build_resource v.target certificate v.options.instance_id v.options.label_prefix
              ≡ some b
            → P (adopted E (E.conform b v.dialect) live))
        → Allowed w.calls (calls_of E (with_certificate E v c live w))
    unfolding with_certificate
    with_certificate-Legal none w q = start
    with_certificate-Legal (some c) w q = compare_built-Legal _ w (q c)

  module _ (v : Visit E) (live : Option E.Resource) where
    abbrev Visited : List (Call E) → List (Call E) → Type 0
    Visited = Legal E (scope_of v live)

    -- The scope of the visit of the target whose access lists are resolved.
    rescoped :
        (t : Target) {old new : List (Call E)}
        → ◌≡◌ {A = Kind × Bool} (t.kind, t.running) (v.target.kind, v.target.running)
        → Legal E (scope E (record v { target = t }) (Wanted v live) live) old new
        → Visited old new
    rescoped t {old} {new} e =
        subst
          (λ k.
            Legal E
              (record {
                options = v.options;
                kind = v.kind;
                target_kind = k.0;
                running = k.1;
                Wanted = Wanted v live;
                current = live;
              })
              old new)
          e

    with_access_lists-Legal :
        (index : Dict ℕ) (t : Text ⊎ Target) (w : Worker E)
        → resolve_access_lists index v.target ≡ t
        → Visited w.calls (calls_of E (with_access_lists E v t live w))
    unfolding with_access_lists
    with_access_lists-Legal index (inl name) w e = start
    with_access_lists-Legal index (inr t) w e =
        let (c, w') = resolve_certificate E v.options t live w in
        rescoped t (resolve_access_lists-kind index v.target t e) (
          subst
            (λ cs.
              Legal E (scope E (record v { target = t }) (Wanted v live) live) cs
                (calls_of E (with_certificate E (record v { target = t }) c live w')))
            (resolve_certificate-calls E v.options t live w)
            (with_certificate-Legal (record v { target = t }) live (Wanted v live) c w'
              (λ certificate b g. (index, t, certificate, b, e, g, refl))))

    check_domains-Legal : (w : Worker E) → Visited w.calls (calls_of E (check_domains E v live w))
    unfolding check_domains
    check_domains-Legal w =
        either (scope_of v live) w.calls (foreign_domain E v.options v.by_domain v.target live)
          (skipped, none, w) _ start
          (with_access_lists-Legal w.access_lists (resolve_access_lists w.access_lists v.target) w
            refl)

    check_grace-Legal : (w : Worker E) → Visited w.calls (calls_of E (check_grace E v live w))
    unfolding check_grace
    check_grace-Legal w =
        either (scope_of v live) w.calls
          (not v.target.running && in_grace v.options w.stopped_since v.target v.now)
          (unchanged, stored_entry E v live, w) _ start (check_domains-Legal w)

  unless_foreign-Legal :
      (d : Decision) (v : Visit E) (r : E.Resource) (w : Worker E)
      → Legal E (scope_of v (some r)) w.calls (calls_of E (unless_foreign E d v r w))
  unless_foreign-Legal skip v r w = start
  unless_foreign-Legal adopt v r w = check_grace-Legal v (some r) w
  unless_foreign-Legal use_it v r w = check_grace-Legal v (some r) w

  -- A visit writes only what `Legal` allows. Without a live resource under the key it creates at most
  -- one, built from the target of the visit, and toggles at most the one created, as the kind of that
  -- target and to the flag of what was built. With one, it updates that resource at most once, to what is built from the target or to
  -- itself, and then toggles it at most once, in the collection of the visit, both by its id: to the flag
  -- of what is built, or, for a stopped container under the policy `disable`, off. It deletes
  -- nothing, and in a dry run it writes nothing.
  pub visit-Legal :
      (v : Visit E) (live : Option E.Resource) (w : Worker E)
      → Legal E (scope_of v live) w.calls (calls_of E (visit E v live w))
  unfolding visit
  visit-Legal v none w = check_grace-Legal v none w
  visit-Legal v (some r) w = unless_foreign-Legal (ownership E v.options r) v r w

  unless_foreign_skip :
      (d : Decision) (v : Visit E) (r : E.Resource) (w : Worker E)
      → d ≡ skip
      → unless_foreign E d v r w ≡ (skipped, none, w)
  unless_foreign_skip skip v r w h = refl
  unless_foreign_skip adopt v r w h = absurd (cc)
  unless_foreign_skip use_it v r w h = absurd (cc)

  -- A resource that belongs to someone else is left alone: the visit is counted as skipped, makes
  -- no cache entry, and the worker is unchanged.
  pub visit-foreign :
      (v : Visit E) (r : E.Resource) (w : Worker E)
      → ownership E v.options r ≡ skip
      → visit E v (some r) w ≡ (skipped, none, w)
  unfolding visit
  visit-foreign v r w h = unless_foreign_skip (ownership E v.options r) v r w h
