-- ===== src/Syncer/Listed.antt =====
-- `reconcileKind` of internal/syncer/worker.go as a whole: one collection of the server.
pub mod Laws
pub mod Protection
use npmplus_docker_sync.Base.{
  ℕ, suc, Bool, true, false, not, ◌&&◌, Option, none, some, List, [], ◌∷◌, ◌++◌, ◌⊎◌, inl, inr,
  if◌then◌else◌, length, keep,
}
use npmplus_docker_sync.Base.Dict
use npmplus_docker_sync.Base.Dict.{Dict}
use npmplus_docker_sync.Base.Sort.{sort_texts}
use npmplus_docker_sync.Base.Text.{Text, ◌=?◌}
use npmplus_docker_sync.Docker.Types.{
  OnStop, disable, keep as keep_it, delete, Target, Snapshot, is_protected,
}
use npmplus_docker_sync.Npm.Dialect.{Dialect}
use npmplus_docker_sync.Npm.Kind.{Kind}
use npmplus_docker_sync.Npm.Meta.{container, container_id, prefix_of}
use npmplus_docker_sync.Syncer.Cache.{Entry, replace_kind}
use npmplus_docker_sync.Syncer.Lookups.{clock}
use npmplus_docker_sync.Syncer.Ownership.{owns, index_resources, index_domains, index_targets}
use npmplus_docker_sync.Syncer.Stopped.{apply_stop_policy}
use npmplus_docker_sync.Syncer.Types.{Env, Worker, Options, Problem, list_failed, Counters}
use npmplus_docker_sync.Syncer.Visit.{visit}
use npmplus_docker_sync.Syncer.Write.{
  Outcome, skipped, unchanged, created, updated, failed, Visit, Report,
}
use npmplus_docker_sync.Syncer.Collection.{Loop, Pass, no_counters, sorted_keys, visit_keys}
use npmplus_docker_sync.Syncer.Orphans.{Orphan, collect_orphans}

-- `kindOutcome`, with the joined errors as the list of them.
pub record KindOutcome (E : Env) : Type 0 where
  pub result : Counters
  pub fatal : Option (Problem E.Error)
  pub partial : List (Problem E.Error)
  pub orphans : List Orphan
  pub owned : ℕ
  pub foreign_prefix : ℕ

module _ (E : Env) where
  -- Whether an owned resource was made under another label prefix.
  unfoldable other_prefix : Options → E.Resource → Bool
  unfolding owns
  other_prefix opts r =
      let prefix = prefix_of (E.resource_meta r) in
      owns E opts r
      && (not (prefix =? [])
          && (not (opts.label_prefix =? []) && not (prefix =? opts.label_prefix)))

  -- `applyStopPolicy` reads the clock only to drop targets.
  abbrev pub policy_clock : OnStop → Worker E → ℕ × Worker E
  policy_clock delete w = clock E w
  policy_clock disable w = (0, w)
  policy_clock keep_it w = (0, w)

  -- The counters and the worker before the first loop: duplicate definitions are skipped.
  abbrev pub first_pass : List Target → Worker E → Pass E
  first_pass conflicts w = record {
    result = record no_counters { skipped = length conflicts };
    problems = [];
    next = [];
    worker = w;
  }

  abbrev outcome_of : Options → List E.Resource → Pass E → Counters × List Orphan → KindOutcome E
  outcome_of opts live p (result, orphans) = record {
    result = result;
    fatal = none;
    partial = p.problems;
    orphans = orphans;
    owned = length (keep (owns E opts) live);
    foreign_prefix = length (keep (other_prefix opts) live);
  }

  -- The loops, and the cache entries that replace those of the kind.
  unfoldable pub run_loops :
      Loop E → List E.Resource → List Target → Worker E → KindOutcome E × Worker E
  unfolding visit_keys collect_orphans sorted_keys other_prefix owns
  run_loops l live conflicts w =
      let p = visit_keys E l (sorted_keys l.desired) (first_pass conflicts w) in
      let judged = collect_orphans E l (sorted_keys l.existing) p.result in
      (
        outcome_of l.options live p judged,
        record p.worker { cache = replace_kind l.kind p.next p.worker.cache },
      )

  abbrev pub loop_of :
      Options → Kind → Snapshot → List E.Resource → Dialect → ℕ → Dict Target → Loop E
  loop_of opts k snapshot live dialect now desired = record {
    options = opts;
    kind = k;
    now = now;
    dialect = dialect;
    by_domain = index_domains E live [];
    existing = index_resources E live [];
    desired = desired;
    snapshot = snapshot;
  }

  -- The part after the server has listed the collection.
  unfoldable pub reconcile_listed :
      Options
      → Kind
      → List Target
      → Snapshot
      → List E.Resource
      → Worker E
      → KindOutcome E × Worker E
  unfolding run_loops index_resources index_domains index_targets apply_stop_policy
  reconcile_listed opts k targets snapshot live w =
      let dialect = E.dialect w.server in
      let (then', w1) = policy_clock opts.on_stop w in
      let (desired, conflicts) =
        index_targets (apply_stop_policy opts w1.stopped_since then' targets) in
      let (now, w2) = clock E w1 in
      run_loops (loop_of opts k snapshot live dialect now desired) live conflicts w2

  abbrev no_outcome : KindOutcome E
  no_outcome = record {
    result = no_counters;
    fatal = none;
    partial = [];
    orphans = [];
    owned = 0;
    foreign_prefix = 0;
  }

  abbrev pub unlisted : Kind → E.Error → Bool → KindOutcome E
  unlisted k e true = no_outcome
  unlisted k e false = record no_outcome { fatal = some (list_failed k [] e) }

  -- What the answer of `API.List` leads to. A collection that is missing is skipped.
  unfoldable pub reconcile_answer :
      Options
      → Kind
      → List Target
      → Snapshot
      → E.Error ⊎ List E.Resource
      → Worker E
      → KindOutcome E × Worker E
  unfolding reconcile_listed
  reconcile_answer opts k targets snapshot (inl e) w = (unlisted k e (E.is_not_found e), w)
  reconcile_answer opts k targets snapshot (inr live) w =
      reconcile_listed opts k targets snapshot live w

  -- `Worker.reconcileKind`
  unfoldable pub reconcile_kind :
      Options → Kind → List Target → Snapshot → Worker E → KindOutcome E × Worker E
  unfolding reconcile_answer
  reconcile_kind opts k targets snapshot w =
      let (answer, server) = E.list k w.server in
      reconcile_answer opts k targets snapshot answer (record w { server = server })
