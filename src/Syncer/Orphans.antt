-- ===== src/Syncer/Orphans.antt =====
-- The second loop of `reconcileKind` in internal/syncer/worker.go, over the live resources of one
-- collection: those that nobody wants any more.
pub mod Laws
use npmplus_docker_sync.Base.{
  ℕ, suc, Bool, true, false, not, ◌&&◌, Option, none, some, List, [], ◌∷◌, ◌++◌, ◌⊎◌, inl, inr,
  if◌then◌else◌, length, keep,
}
use npmplus_docker_sync.Base.Dict
use npmplus_docker_sync.Base.Dict.{Dict}
use npmplus_docker_sync.Base.Sort.{sort_texts}
use npmplus_docker_sync.Base.Text.{Text, ◌=?◌}
use npmplus_docker_sync.Docker.Types.{
  OnStop, disable, keep as keep_it, delete, Target, Snapshot, is_protected,
}
use npmplus_docker_sync.Npm.Dialect.{Dialect}
use npmplus_docker_sync.Npm.Kind.{Kind}
use npmplus_docker_sync.Npm.Meta.{container, container_id, prefix_of}
use npmplus_docker_sync.Syncer.Cache.{Entry, replace_kind}
use npmplus_docker_sync.Syncer.Lookups.{clock}
use npmplus_docker_sync.Syncer.Ownership.{owns, index_resources, index_domains, index_targets}
use npmplus_docker_sync.Syncer.Stopped.{apply_stop_policy}
use npmplus_docker_sync.Syncer.Types.{Env, Worker, Options, Problem, list_failed, Counters}
use npmplus_docker_sync.Syncer.Visit.{visit}
use npmplus_docker_sync.Syncer.Write.{
  Outcome, skipped, unchanged, created, updated, failed, Visit, Report,
}
use npmplus_docker_sync.Syncer.Collection.{Loop, sorted_keys}

-- `orphan`
pub record Orphan : Type 0 where
  pub kind : Kind
  pub key : Text
  pub id : ℕ
  pub container : Text

-- What becomes of a live resource in the second loop.
pub data Fate : Type 0 where
  wanted foreign protected dry orphaned : Fate

module _ (E : Env) where
  unfoldable pub fate : Loop E → Text → E.Resource → Fate
  unfolding owns is_protected
  fate l key r =
      let meta = E.resource_meta r in
      if Dict.has_key key l.desired
      then wanted
      else if not (owns E l.options r)
      then foreign
      else if is_protected l.snapshot (container meta) (container_id meta)
      then protected
      else if l.options.dry_run
      then dry
      else orphaned

  abbrev pub orphan_of : Loop E → Text → E.Resource → Orphan
  orphan_of l key r = record {
    kind = l.kind;
    key = key;
    id = E.resource_id r;
    container = container (E.resource_meta r);
  }

  abbrev pub add_fate :
      Loop E → Text → E.Resource → Fate → Counters × List Orphan → Counters × List Orphan
  add_fate l key r wanted (c, os) = (c, os)
  add_fate l key r foreign (c, os) = (c, os)
  add_fate l key r protected (c, os) = (record c { skipped = suc c.skipped }, os)
  add_fate l key r dry (c, os) = (record c { deleted = suc c.deleted }, os)
  add_fate l key r orphaned (c, os) = (c, orphan_of l key r ∷ os)

  abbrev pub judge :
      Loop E → Text → Option E.Resource → Counters × List Orphan → Counters × List Orphan
  judge l key none acc = acc
  judge l key (some r) acc = add_fate l key r (fate l key r) acc

  -- The second loop, over the sorted keys of the live resources.
  unfoldable pub collect_orphans : Loop E → List Text → Counters → Counters × List Orphan
  unfolding fate
  collect_orphans l [] c = (c, [])
  collect_orphans l (key ∷ keys) c =
      judge l key (Dict.lookup key l.existing) (collect_orphans l keys c)
