-- ===== src/Syncer/Run/Laws.antt =====
-- What a whole run (`reconcile` and `flush` of internal/syncer/worker.go) may do to the server.
use mathlib.Core.Path.{subst}
use npmplus_docker_sync.Base.{
  Bool, true, false, Option, none, some, ◌≡◌, refl, ◌⊎◌, inl, inr, if◌then◌else◌, All, All-In, not,
  is_empty,
}
use npmplus_docker_sync.Docker.Types.{Snapshot}
use npmplus_docker_sync.Npm.Kind.{Kind}
use npmplus_docker_sync.Syncer.Collection.Trace.{
  Grows, same, SafeWrite, Grows-trans, Grows-map, Grows_none,
}
use npmplus_docker_sync.Syncer.Deletion.{guard_deletions}
use npmplus_docker_sync.Syncer.Deletion.Laws.{DeletesOne, delete_orphans-Grows}
use npmplus_docker_sync.Syncer.Orphans.{Orphan}
use npmplus_docker_sync.Syncer.Run.{
  Totals, no_totals, reconcile_kinds, delete_unless, finish, skip_orphans, prepare,
  reconcile_snapshot, reconcile, flush, set_status,
}
use npmplus_docker_sync.Syncer.Run.Removal.{
  RunRemovable, ListedAt, reconcile_kinds-Grows, reconcile_kinds-Removable, prepare-calls,
}
use npmplus_docker_sync.Syncer.Types.{Env, Worker, Options, Call, deleted, Blocked}

module _ (E : Env) where
  -- The call writes without deleting, or deletes one removable orphan of the snapshot, and this
  -- only in a run that may delete.
  abbrev RunCall : Options → Bool → Snapshot → (Kind → E.Server → Type 0) → Call E → Type 0
  RunCall opts deleting snapshot Listed c =
      SafeWrite opts c
      ⊎ ((deleting ≡ true)
          × (o : Orphan) × (c ≡ deleted o.kind o.id)
          × RunRemovable E opts snapshot Listed o)

  module _ (opts : Options) (snapshot : Snapshot) (Listed : Kind → E.Server → Type 0) where
    delete_unless-Grows :
        (b : Option Blocked) (t : Totals E) (w : Worker E)
        → All (RunRemovable E opts snapshot Listed) t.orphans
        → Grows (RunCall opts true snapshot Listed) w.calls (delete_unless E b t w).2.calls
    unfolding delete_unless
    delete_unless-Grows (some reason) t w hs = same
    delete_unless-Grows none t w hs =
        Grows-map (DeletesOne E t.orphans)
          (λ c (o, m, e).
            inr (refl, o, e, All-In (RunRemovable E opts snapshot Listed) t.orphans hs m))
          (delete_orphans-Grows E t.orphans w)

    finish_when :
        (empty deleting : Bool) (b : Option Blocked) (t : Totals E) (w : Worker E)
        → All (RunRemovable E opts snapshot Listed) t.orphans
        → Grows
            (RunCall opts deleting snapshot Listed)
            w.calls
            (if◌then◌else◌ {A = Totals E × Option Blocked × Worker E} empty
              (t, none, w)
              (if not deleting then (skip_orphans E t, none, w) else delete_unless E b t w)).2.calls
    finish_when true deleting b t w hs = same
    finish_when false false b t w hs = same
    finish_when false true b t w hs = delete_unless-Grows b t w hs

    finish-Grows :
        (deleting : Bool) (t : Totals E) (w : Worker E)
        → All (RunRemovable E opts snapshot Listed) t.orphans
        → Grows
            (RunCall opts deleting snapshot Listed)
            w.calls
            (finish E opts deleting snapshot t w).2.calls
    unfolding finish
    finish-Grows deleting t w hs =
        finish_when (is_empty t.orphans) deleting
          (guard_deletions opts t.orphans t.owned t.foreign_prefix snapshot) t w hs

  -- The calls of a run with a snapshot, if Docker gave one; the collections are listed by the loop over
  -- the kinds, after the lists of certificates and access lists were read.
  abbrev pub AllowedCall : Options → Bool → E.Error ⊎ Snapshot → Worker E → Call E → Type 0
  AllowedCall opts deleting answer w c =
      (snapshot : Snapshot) × (answer ≡ inr snapshot)
      × RunCall opts deleting snapshot
          (λ k server. ListedAt E opts snapshot k server opts.kinds (prepare E snapshot w)) c

  reconcile_snapshot-Grows :
      (opts : Options) (deleting : Bool) (answer : E.Error ⊎ Snapshot) (w : Worker E)
      → Grows
          (AllowedCall opts deleting answer w)
          w.calls
          (reconcile_snapshot E opts deleting answer w).1.calls
  unfolding reconcile_snapshot set_status
  reconcile_snapshot-Grows opts deleting (inl e) w = same
  reconcile_snapshot-Grows opts deleting (inr snapshot) w =
      let prepared = prepare E snapshot w in
      let (t, w') = reconcile_kinds E opts snapshot opts.kinds (no_totals E) prepared in
      let visits = reconcile_kinds-Grows E opts snapshot opts.kinds (no_totals E) prepared in
      let Listed : Kind → E.Server → Type 0 =
        λ k server. ListedAt E opts snapshot k server opts.kinds prepared in
      let orphans =
        reconcile_kinds-Removable E opts snapshot Listed opts.kinds (no_totals E) prepared
          (λ k server l. l) tt in
      let Ok = RunCall opts deleting snapshot Listed in
      Grows-map Ok (λ c h. (snapshot, refl, h))
        (subst (λ cs. Grows Ok cs (finish E opts deleting snapshot t w').2.calls)
          (prepare-calls E snapshot w)
          (Grows-trans Ok (Grows-map (SafeWrite opts) (λ c h. inl h) visits)
            (finish-Grows opts snapshot Listed deleting t w' orphans)))

  -- Every call that a run makes is a write outside a dry run that deletes nothing, or the
  -- deletion, in a run that may delete and outside a dry run, of a resource that the server
  -- listed when the loop of this run over the kinds came to its collection, that this instance owns,
  -- whose container is not protected, and whose key no target of a running container in the
  -- collection has.
  pub reconcile-Grows :
      (opts : Options) (deleting : Bool) (w : Worker E)
      → let (answer, server) = E.snapshot w.server in
        Grows
          (AllowedCall opts deleting answer (record w { server = server }))
          w.calls
          (reconcile E opts deleting w).1.calls
  unfolding reconcile
  reconcile-Grows opts deleting w =
      reconcile_snapshot-Grows opts deleting (E.snapshot w.server).0
        (record w { server = (E.snapshot w.server).1 })

  -- A dry run makes no write to the server at all, whether it may delete or not.
  pub reconcile_dry :
      (opts : Options) (deleting : Bool) (w : Worker E)
      → opts.dry_run ≡ true
      → (reconcile E opts deleting w).1.calls ≡ w.calls
  reconcile_dry opts deleting w d =
      Grows_none
        (AllowedCall opts deleting (E.snapshot w.server).0
          (record w { server = (E.snapshot w.server).1 }))
        (λ c h. wet c h.0 h.2) (reconcile-Grows opts deleting w)
    where
      wet :
          {Listed : Kind → E.Server → Type 0} (c : Call E) (s : Snapshot)
          → RunCall opts deleting s Listed c
          → ⊥
      wet c s (inl h) = cc (h.0, d)
      wet c s (inr h) = let dry_free = h.3.5.7 in cc (dry_free, d)

  -- The flush at shutdown deletes nothing, and writes nothing in a dry run.
  pub flush-Grows :
      (opts : Options) (w : Worker E) → Grows (SafeWrite opts) w.calls (flush E opts w).1.calls
  unfolding flush
  flush-Grows opts w =
      Grows-map
        (AllowedCall opts false (E.snapshot w.server).0
          (record w { server = (E.snapshot w.server).1 }))
        (λ c h. safe c h.0 h.2) (reconcile-Grows opts false w)
    where
      safe :
          {Listed : Kind → E.Server → Type 0} (c : Call E) (s : Snapshot)
          → RunCall opts false s Listed c
          → SafeWrite opts c
      safe c s (inl h) = h
      safe c s (inr h) = cc (h.0)
