-- ===== src/Syncer/Run/Removal.antt =====
-- The loop over the kinds in `reconcile` (internal/syncer/worker.go): its writes and its orphans.
use npmplus_docker_sync.Base.{
  Bool, true, false, List, [], ◌∷◌, ◌≡◌, refl, ◌∙◌, ◌⊎◌, inl, inr, In, All, All-append, All-of_In,
}
use npmplus_docker_sync.Docker.Types.{Target, Snapshot}
use npmplus_docker_sync.Npm.Kind.{Kind}
use npmplus_docker_sync.Npm.Types.{AccessList}
use npmplus_docker_sync.Certs.Types.{Certificate}
use npmplus_docker_sync.Syncer.Collection.Trace.{Grows, same, SafeWrite, Grows-trans}
use npmplus_docker_sync.Syncer.Listed.{reconcile_kind, reconcile_answer, unlisted}
use npmplus_docker_sync.Syncer.Listed.Laws.{
  reconcile_kind-Grows, Removable, reconcile_listed-Removable,
}
use npmplus_docker_sync.Syncer.Lookups.{
  clock, load_certificates, load_access_lists, keep_certificates, keep_access_lists,
  needs_access_list_names,
}
use npmplus_docker_sync.Syncer.Orphans.{Orphan}
use npmplus_docker_sync.Syncer.Run.{Totals, add_outcome, of_kind, reconcile_kinds, prepare}
use npmplus_docker_sync.Syncer.Stopped.{track_stopped}
use npmplus_docker_sync.Syncer.Types.{Env, Worker, Options}

module _ (E : Env) where
  keep_certificates-calls :
      (a : E.Error ⊎ List Certificate) (w : Worker E) → (keep_certificates E a w).calls ≡ w.calls
  keep_certificates-calls (inl e) w = refl
  keep_certificates-calls (inr list) w = refl

  keep_access_lists-calls :
      (a : E.Error ⊎ List AccessList) (w : Worker E) → (keep_access_lists E a w).calls ≡ w.calls
  keep_access_lists-calls (inl e) w = refl
  keep_access_lists-calls (inr lists) w = refl

  load_access_lists-calls :
      (needed : Bool) (w : Worker E) → (load_access_lists E needed w).calls ≡ w.calls
  unfolding load_access_lists
  load_access_lists-calls false w = refl
  load_access_lists-calls true w =
      keep_access_lists-calls (E.list_access_lists w.server).0
        (record w { server = (E.list_access_lists w.server).1 })

  load_certificates-calls : (w : Worker E) → (load_certificates E w).calls ≡ w.calls
  unfolding load_certificates
  load_certificates-calls w =
      keep_certificates-calls (E.list_certificates w.server).0
        (record w { server = (E.list_certificates w.server).1 })

  pub prepare-calls : (snapshot : Snapshot) (w : Worker E) → (prepare E snapshot w).calls ≡ w.calls
  unfolding prepare
  prepare-calls snapshot w =
      let (now, w') = clock E w in
      let w2 = record w' { stopped_since = track_stopped now snapshot.targets w'.stopped_since } in
      load_access_lists-calls (needs_access_list_names snapshot.targets) (load_certificates E w2)
      ∙ load_certificates-calls w2

  -- The loop over the kinds, started with the worker `w`, lists the collection `k` when the world is in
  -- the state `server`.
  pub data ListedAt (opts : Options) (snapshot : Snapshot) (k : Kind) (server : E.Server)
      : List Kind → Worker E → Type 0 where
    now_listed :
        {ks : List Kind} (w : Worker E)
        → w.server ≡ server
        → ListedAt opts snapshot k server (k ∷ ks) w
    later_listed :
        {ks : List Kind} (first : Kind) (w : Worker E)
        → ListedAt opts snapshot k server ks
            (reconcile_kind E opts first (of_kind E first snapshot.targets) snapshot w).1
        → ListedAt opts snapshot k server (first ∷ ks) w

  -- The orphan is removable from a collection that the server listed during the run.
  abbrev pub RunRemovable : Options → Snapshot → (Kind → E.Server → Type 0) → Orphan → Type 0
  RunRemovable opts snapshot Listed o =
      (k : Kind) × (server : E.Server) × (live : List E.Resource) × Listed k server
      × ((E.list k server).0 ≡ inr live)
      × Removable E opts k (of_kind E k snapshot.targets) snapshot live o

  answer-Removable :
      (opts : Options) (k : Kind) (targets : List Target) (snapshot : Snapshot)
      (a : E.Error ⊎ List E.Resource) (w : Worker E) (o : Orphan)
      → In o (reconcile_answer E opts k targets snapshot a w).0.orphans
      → (live : List E.Resource) × (a ≡ inr live) × Removable E opts k targets snapshot live o
  unfolding reconcile_answer
  answer-Removable opts k targets snapshot (inl e) w o m = nothing (E.is_not_found e) m
    where
      nothing :
          (b : Bool)
          → In o (unlisted E k e b).orphans
          → (live : List E.Resource) × (inl e ≡ inr live)
            × Removable E opts k targets snapshot live o
      nothing true i = elim i [ ]
      nothing false i = elim i [ ]
  answer-Removable opts k targets snapshot (inr live) w o m =
      (live, refl, reconcile_listed-Removable E opts k targets snapshot live w o m)

  kind-Removable :
      (opts : Options) (k : Kind) (snapshot : Snapshot) (Listed : Kind → E.Server → Type 0)
      (w : Worker E) (o : Orphan)
      → Listed k w.server
      → In o (reconcile_kind E opts k (of_kind E k snapshot.targets) snapshot w).0.orphans
      → RunRemovable opts snapshot Listed o
  unfolding reconcile_kind
  kind-Removable opts k snapshot Listed w o at m =
      let (live, e, r) =
        answer-Removable opts k (of_kind E k snapshot.targets) snapshot (E.list k w.server).0
          (record w { server = (E.list k w.server).1 }) o m in
      (k, w.server, live, at, e, r)

  module _ (opts : Options) (snapshot : Snapshot) where
    pub reconcile_kinds-Grows :
        (ks : List Kind) (t : Totals E) (w : Worker E)
        → Grows (SafeWrite opts) w.calls (reconcile_kinds E opts snapshot ks t w).1.calls
    unfolding reconcile_kinds
    reconcile_kinds-Grows [] t w = same
    reconcile_kinds-Grows (k ∷ ks) t w =
        let (o, w') = reconcile_kind E opts k (of_kind E k snapshot.targets) snapshot w in
        Grows-trans (SafeWrite opts)
          (reconcile_kind-Grows E opts k (of_kind E k snapshot.targets) snapshot w)
          (reconcile_kinds-Grows ks (add_outcome E t o) w')

    pub reconcile_kinds-Removable :
        (Listed : Kind → E.Server → Type 0) (ks : List Kind) (t : Totals E) (w : Worker E)
        → ((k : Kind) (server : E.Server) → ListedAt opts snapshot k server ks w → Listed k server)
        → All (RunRemovable opts snapshot Listed) t.orphans
        → All (RunRemovable opts snapshot Listed) (reconcile_kinds E opts snapshot ks t w).0.orphans
    unfolding reconcile_kinds
    reconcile_kinds-Removable Listed [] t w at hs = hs
    reconcile_kinds-Removable Listed (k ∷ ks) t w at hs =
        let (o, w') = reconcile_kind E opts k (of_kind E k snapshot.targets) snapshot w in
        let Ok = RunRemovable opts snapshot Listed in
        let here' = at k w.server (now_listed w refl) in
        reconcile_kinds-Removable Listed ks (add_outcome E t o) w'
          (λ j server l. at j server (later_listed k w l))
          (All-append Ok t.orphans o.orphans hs
            (All-of_In Ok o.orphans (λ x m. kind-Removable opts k snapshot Listed w x here' m)))
