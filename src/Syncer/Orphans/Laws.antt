-- ===== src/Syncer/Orphans/Laws.antt =====
-- What the second loop of `reconcileKind` (internal/syncer/worker.go) hands over for deletion.
use npmplus_docker_sync.Base.{
  true, false, Option, none, some, List, [], ◌∷◌, ◌≡◌, refl, arith, All, All-In, In,
}
use npmplus_docker_sync.Base.Dict
use npmplus_docker_sync.Base.Text.{Text}
use npmplus_docker_sync.Docker.Types.{is_protected}
use npmplus_docker_sync.Npm.Meta.{container, container_id}
use npmplus_docker_sync.Syncer.Collection.{Loop}
use npmplus_docker_sync.Syncer.Orphans.{
  Orphan, Fate, wanted, foreign, protected, dry, orphaned, fate, orphan_of, add_fate, judge,
  collect_orphans,
}
use npmplus_docker_sync.Syncer.Ownership.{owns}
use npmplus_docker_sync.Syncer.Types.{Env, Counters}

module _ (E : Env) (l : Loop E) where
  -- The orphan is a live resource of the index with the fate of one.
  abbrev Justified : Orphan → Type 0
  Justified o =
      (key : Text) × (r : E.Resource) × (o ≡ orphan_of E l key r)
      × (Dict.lookup key l.existing ≡ some r)
      × (fate E l key r ≡ orphaned)

  add_fate-Justified :
      (key : Text) (r : E.Resource) (f : Fate) (acc : Counters × List Orphan)
      → Dict.lookup key l.existing ≡ some r
      → fate E l key r ≡ f
      → All Justified acc.1
      → All Justified (add_fate E l key r f acc).1
  add_fate-Justified key r wanted acc h e hs = hs
  add_fate-Justified key r foreign acc h e hs = hs
  add_fate-Justified key r protected acc h e hs = hs
  add_fate-Justified key r dry acc h e hs = hs
  add_fate-Justified key r orphaned acc h e hs = ((key, r, refl, h, e), hs)

  judge-Justified :
      (key : Text) (o : Option E.Resource) (acc : Counters × List Orphan)
      → Dict.lookup key l.existing ≡ o
      → All Justified acc.1
      → All Justified (judge E l key o acc).1
  judge-Justified key none acc h hs = hs
  judge-Justified key (some r) acc h hs = add_fate-Justified key r (fate E l key r) acc h refl hs

  collect_orphans-Justified :
      (keys : List Text) (c : Counters) → All Justified (collect_orphans E l keys c).1
  unfolding collect_orphans
  collect_orphans-Justified [] c = tt
  collect_orphans-Justified (key ∷ keys) c =
      judge-Justified key (Dict.lookup key l.existing) (collect_orphans E l keys c) refl
        (collect_orphans-Justified keys c)

  fate_orphaned :
      (key : Text) (r : E.Resource)
      → fate E l key r ≡ orphaned
      → (Dict.has_key key l.desired ≡ false)
        × (owns E l.options r ≡ true)
        × (is_protected l.snapshot
              (container (E.resource_meta r))
              (container_id (E.resource_meta r))
            ≡ false)
        × (l.options.dry_run ≡ false)
  unfolding fate
  fate_orphaned key r h = ground arith

  -- Whatever the loop hands over for deletion is a live resource of the index whose key no target
  -- wants, which this instance owns, and whose container is not protected; and it is no dry run.
  pub collect_orphans-Unwanted :
      (keys : List Text) (c : Counters) (o : Orphan)
      → In o (collect_orphans E l keys c).1
      → (key : Text) × (r : E.Resource) × (o ≡ orphan_of E l key r)
        × (Dict.lookup key l.existing ≡ some r)
        × (Dict.has_key key l.desired ≡ false)
        × (owns E l.options r ≡ true)
        × (is_protected l.snapshot
              (container (E.resource_meta r))
              (container_id (E.resource_meta r))
            ≡ false)
        × (l.options.dry_run ≡ false)
  collect_orphans-Unwanted keys c o m =
      let (key, r, e, h, f) = All-In Justified _ (collect_orphans-Justified keys c) m in
      let (unwanted, ours, free, wet) = fate_orphaned key r f in
      (key, r, e, h, unwanted, ours, free, wet)
