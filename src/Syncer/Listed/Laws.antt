-- ===== src/Syncer/Listed/Laws.antt =====
-- What one collection's reconciliation (internal/syncer/worker.go) writes, and what it hands over
-- for deletion.
use mathlib.Core.Path.{subst}
use npmplus_docker_sync.Base.{
  true, false, some, List, [], ◌≡◌, ◌≢◌, refl, sym, ap, ◌∙◌, ◌⊎◌, inl, inr, In, arith,
}
use npmplus_docker_sync.Base.Dict.{lookup}
use npmplus_docker_sync.Base.Text.{Text, ◌=?◌}
use npmplus_docker_sync.Docker.Types.{
  OnStop, disable, keep, delete, Target, Snapshot, is_protected, key,
}
use npmplus_docker_sync.Npm.Kind.{Kind}
use npmplus_docker_sync.Npm.Meta.{container, container_id}
use npmplus_docker_sync.Syncer.Collection.{no_counters, Loop, sorted_keys, visit_keys}
use npmplus_docker_sync.Syncer.Collection.Indexes.{
  index_resources-In, index_targets-In, index_targets-HasKey,
}
use npmplus_docker_sync.Syncer.Collection.Trace.{
  Writes, done, Grows, same, SafeWrite, Writes-Grows, visit_keys-Writes,
}
use npmplus_docker_sync.Syncer.Listed.{
  first_pass, policy_clock, loop_of, run_loops, reconcile_listed, reconcile_answer, reconcile_kind,
}
use npmplus_docker_sync.Syncer.Lookups.{clock}
use npmplus_docker_sync.Syncer.Orphans.{Orphan}
use npmplus_docker_sync.Syncer.Orphans.Laws.{collect_orphans-Unwanted}
use npmplus_docker_sync.Syncer.Ownership.{owns, index_targets}
use npmplus_docker_sync.Syncer.Stopped.{
  apply_stop_policy, apply_stop_policy-running, apply_stop_policy-In,
}
use npmplus_docker_sync.Syncer.Types.{Env, Worker, Options}

module _ (E : Env) where
  policy_clock-calls : (s : OnStop) (w : Worker E) → (policy_clock E s w).1.calls ≡ w.calls
  policy_clock-calls delete w = refl
  policy_clock-calls disable w = refl
  policy_clock-calls keep w = refl

  run_loops-Writes :
      (l : Loop E) (Of : Text → Target → Type 0)
      (of_desired : (key : Text) (t : Target) → lookup key l.desired ≡ some t → Of key t)
      (live : List E.Resource) (conflicts : List Target) (w : Worker E)
      → Writes E l Of w.calls (run_loops E l live conflicts w).1.calls
  unfolding run_loops
  run_loops-Writes l Of of_desired live conflicts w =
      visit_keys-Writes E l Of of_desired w.calls (sorted_keys l.desired) (first_pass E conflicts w)
        done

  -- The loop of a listed collection: what is desired is the index of the targets that the policy for
  -- stopped containers keeps, and what exists is the index of the listed resources.
  abbrev pub listed_loop :
      Options → Kind → List Target → Snapshot → List E.Resource → Worker E → Loop E
  listed_loop opts k targets snapshot live w =
      let (then', w1) = policy_clock E opts.on_stop w in
      loop_of E opts k snapshot live (E.dialect w.server) (clock E w1).0
        (index_targets (apply_stop_policy opts w1.stopped_since then' targets)).0

  -- The target is one of the list, with the key.
  abbrev pub HasTarget : List Target → Text → Target → Type 0
  HasTarget targets k t = In t targets × (key t ≡ k)

  -- After the listing, the run writes through one visit after another of targets of the collection, each
  -- under the target's own key. What such a visit writes is Legal for the live resource that the index of
  -- the listed ones holds under this key, whose owner has to allow it: that resource is updated and
  -- toggled, by its id. Where the index lacks the key, a resource is created that is built from the
  -- target, and toggled by the id of the created one. Nothing is deleted, and nothing is written in a dry
  -- run.
  pub reconcile_listed-Writes :
      (opts : Options) (k : Kind) (targets : List Target) (snapshot : Snapshot)
      (live : List E.Resource) (w : Worker E)
      → Writes E
          (listed_loop opts k targets snapshot live w)
          (HasTarget targets)
          w.calls
          (reconcile_listed E opts k targets snapshot live w).1.calls
  unfolding reconcile_listed
  reconcile_listed-Writes opts k targets snapshot live w =
      let l = listed_loop opts k targets snapshot live w in
      let (then', w1) = policy_clock E opts.on_stop w in
      let kept = apply_stop_policy opts w1.stopped_since then' targets in
      let (desired, conflicts) = index_targets kept in
      let (now, w2) = clock E w1 in
      subst
        (λ cs.
          Writes E l (HasTarget targets) cs
            (reconcile_listed E opts k targets snapshot live w).1.calls)
        (policy_clock-calls opts.on_stop w)
        (run_loops-Writes l (HasTarget targets)
          (λ j t h.
            let (m, e) = index_targets-In j t kept h in
            (apply_stop_policy-In opts w1.stopped_since then' targets t m, e))
          live conflicts w2)

  reconcile_answer-Grows :
      (opts : Options) (k : Kind) (targets : List Target) (snapshot : Snapshot)
      (answer : E.Error ⊎ List E.Resource) (w : Worker E)
      → Grows (SafeWrite opts) w.calls (reconcile_answer E opts k targets snapshot answer w).1.calls
  unfolding reconcile_answer
  reconcile_answer-Grows opts k targets snapshot (inl e) w = same
  reconcile_answer-Grows opts k targets snapshot (inr live) w =
      Writes-Grows E (reconcile_listed-Writes opts k targets snapshot live w)

  -- Reconciling a collection deletes nothing, and writes nothing in a dry run.
  pub reconcile_kind-Grows :
      (opts : Options) (k : Kind) (targets : List Target) (snapshot : Snapshot) (w : Worker E)
      → Grows (SafeWrite opts) w.calls (reconcile_kind E opts k targets snapshot w).1.calls
  unfolding reconcile_kind
  reconcile_kind-Grows opts k targets snapshot w =
      reconcile_answer-Grows opts k targets snapshot (E.list k w.server).0
        (record w { server = (E.list k w.server).1 })

  -- A collection that the server does not list is left alone: nothing but the world's state
  -- changes, so the cache keeps its entries, and nothing is handed over for deletion or counted.
  pub reconcile_kind_unlisted :
      (opts : Options) (k : Kind) (targets : List Target) (snapshot : Snapshot) (w : Worker E)
      (e : E.Error)
      → (E.list k w.server).0 ≡ inl e
      → ((reconcile_kind E opts k targets snapshot w).1
          ≡ record w { server = (E.list k w.server).1 })
        × ((reconcile_kind E opts k targets snapshot w).0.orphans ≡ [])
        × ((reconcile_kind E opts k targets snapshot w).0.owned ≡ 0)
        × ((reconcile_kind E opts k targets snapshot w).0.result ≡ no_counters)
  unfolding reconcile_kind reconcile_answer
  reconcile_kind_unlisted opts k targets snapshot w e h = answer (E.list k w.server).0 h
    where
      answer :
          (a : E.Error ⊎ List E.Resource)
          → a ≡ inl e
          → ((reconcile_answer E opts k targets snapshot a
                (record w { server = (E.list k w.server).1 })).1
              ≡ record w { server = (E.list k w.server).1 })
            × ((reconcile_answer E opts k targets snapshot a
                  (record w { server = (E.list k w.server).1 })).0.orphans
                ≡ [])
            × ((reconcile_answer E opts k targets snapshot a
                  (record w { server = (E.list k w.server).1 })).0.owned
                ≡ 0)
            × ((reconcile_answer E opts k targets snapshot a
                  (record w { server = (E.list k w.server).1 })).0.result
                ≡ no_counters)
      answer (inl e') g = (refl, ground arith, ground arith, ground arith)
      answer (inr live) g = absurd (cc)

  -- The orphan is one of the live resources: this instance owns it, no running container's target
  -- has its key, and its container is not protected; and it is no dry run.
  abbrev pub Removable : Options → Kind → List Target → Snapshot → List E.Resource → Orphan → Type 0
  Removable opts k targets snapshot live o =
      (r : E.Resource) × In r live
      × (o.kind ≡ k)
      × (o.id ≡ E.resource_id r)
      × (o.key ≡ E.resource_key r)
      × (owns E opts r ≡ true)
      × (is_protected snapshot (container (E.resource_meta r)) (container_id (E.resource_meta r))
          ≡ false)
      × (opts.dry_run ≡ false)
      × ((t : Target) → In t targets → t.running ≡ true → (key t =? []) ≡ false → key t ≢ o.key)

  -- Every orphan of a listed collection is removable.
  pub reconcile_listed-Removable :
      (opts : Options) (k : Kind) (targets : List Target) (snapshot : Snapshot)
      (live : List E.Resource) (w : Worker E) (o : Orphan)
      → In o (reconcile_listed E opts k targets snapshot live w).0.orphans
      → Removable opts k targets snapshot live o
  unfolding reconcile_listed run_loops
  reconcile_listed-Removable opts k targets snapshot live w o m =
      let (then', w1) = policy_clock E opts.on_stop w in
      let kept = apply_stop_policy opts w1.stopped_since then' targets in
      let (desired, conflicts) = index_targets kept in
      let (now, w2) = clock E w1 in
      let l = loop_of E opts k snapshot live (E.dialect w.server) now desired in
      let p = visit_keys E l (sorted_keys desired) (first_pass E conflicts w2) in
      let (j, r, e, found, unwanted, ours, free, wet) =
        collect_orphans-Unwanted E l (sorted_keys l.existing) p.result o m in
      let (i, same_key) = index_resources-In E j r live found in
      (
        r,
        i,
        ap (λ o. o.kind) e,
        ap (λ o. o.id) e,
        ap (λ o. o.key) e ∙ sym same_key,
        ours,
        free,
        wet,
        λ t n running keyed f.
            let has =
              index_targets-HasKey t kept keyed
                (apply_stop_policy-running opts w1.stopped_since then' targets t running n) in
            let at = f ∙ ap (λ o. o.key) e in cc,
      )
