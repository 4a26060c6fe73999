-- ===== src/Syncer/Run.antt =====
-- A whole run and the loop around it: `reconcile`, `Reconcile`, `flush`, `Run` and `setStatus` of
-- internal/syncer/worker.go.
pub mod Refusal
pub mod Removal
pub mod Laws
use npmplus_docker_sync.Base.{
  ℕ, suc, ◌+◌, ltb, Bool, true, false, not, ◌&&◌, Option, none, some, List, [], ◌∷◌, ◌++◌, ◌⊎◌, inl,
  inr, if◌then◌else◌, length, keep, is_empty,
}
use npmplus_docker_sync.Docker.Types.{Target, Snapshot}
use npmplus_docker_sync.Npm.Kind.{Kind, equal_kind}
use npmplus_docker_sync.Syncer.Collection.{no_counters}
use npmplus_docker_sync.Syncer.Deletion.{guard_deletions, delete_orphans}
use npmplus_docker_sync.Syncer.Listed.{KindOutcome, reconcile_kind}
use npmplus_docker_sync.Syncer.Lookups.{
  clock, load_certificates, load_access_lists, needs_access_list_names, poll_certificates,
}
use npmplus_docker_sync.Syncer.Orphans.{Orphan}
use npmplus_docker_sync.Syncer.Stopped.{track_stopped}
use npmplus_docker_sync.Syncer.Types.{
  Env, Worker, Options, Problem, snapshot_failed, Blocked, Status, Counters,
}

-- `Result.add`
unfoldable pub add_counters : Counters → Counters → Counters
add_counters a b = record {
  created = a.created + b.created;
  updated = a.updated + b.updated;
  deleted = a.deleted + b.deleted;
  unchanged = a.unchanged + b.unchanged;
  skipped = a.skipped + b.skipped;
  failed = a.failed + b.failed;
}

-- The result of a run: the counters, and the joined errors.
abbrev pub Summary : Env → Type 0
Summary E = Counters × List (Problem E.Error)

-- What the loop of `reconcile` over the kinds adds up.
pub record Totals (E : Env) : Type 0 where
  pub result : Counters
  pub fatal : List (Problem E.Error)
  pub partial : List (Problem E.Error)
  pub orphans : List Orphan
  pub owned : ℕ
  pub foreign_prefix : ℕ

-- A trigger of the loop of `Run`.
pub data Trigger : Type 0 where
  batch resync certificate_poll : Trigger

module _ (E : Env) where
  -- `Worker.setStatus`
  unfoldable pub set_status : List (Problem E.Error) → ℕ → Option Blocked → Worker E → Worker E
  set_status err failed blocked w =
      let (now, w') = clock E w in
      record w' {
        status = record {
          last_run = some now;
          last_err = err;
          last_failed = failed;
          blocked = blocked;
        };
      }

  abbrev pub no_totals : Totals E
  no_totals = record {
    result = no_counters;
    fatal = [];
    partial = [];
    orphans = [];
    owned = 0;
    foreign_prefix = 0;
  }

  abbrev to_list : Option (Problem E.Error) → List (Problem E.Error)
  to_list none = []
  to_list (some p) = p ∷ []

  abbrev pub add_outcome : Totals E → KindOutcome E → Totals E
  add_outcome t o = record {
    result = add_counters t.result o.result;
    fatal = t.fatal ++ to_list o.fatal;
    partial = t.partial ++ o.partial;
    orphans = t.orphans ++ o.orphans;
    owned = t.owned + o.owned;
    foreign_prefix = t.foreign_prefix + o.foreign_prefix;
  }

  -- `byKind[kind]`
  abbrev pub of_kind : Kind → List Target → List Target
  of_kind k = keep (λ t. equal_kind t.kind k)

  -- The loop of `reconcile` over the kinds.
  unfoldable pub reconcile_kinds :
      Options → Snapshot → List Kind → Totals E → Worker E → Totals E × Worker E
  unfolding reconcile_kind add_counters
  reconcile_kinds opts snapshot [] t w = (t, w)
  reconcile_kinds opts snapshot (k ∷ ks) t w =
      let (o, w') = reconcile_kind E opts k (of_kind k snapshot.targets) snapshot w in
      reconcile_kinds opts snapshot ks (add_outcome t o) w'

  abbrev pub skip_orphans : Totals E → Totals E
  skip_orphans t = record t {
    result = record t.result { skipped = t.result.skipped + length t.orphans };
  }

  abbrev add_deletions : Totals E → ℕ → List (Problem E.Error) → Totals E
  add_deletions t deleted problems = record t {
    result = record t.result {
      deleted = t.result.deleted + deleted;
      failed = t.result.failed + length problems;
    };
    partial = t.partial ++ problems;
  }

  -- The answer of the guard: a refusal skips the orphans.
  unfoldable pub delete_unless :
      Option Blocked → Totals E → Worker E → Totals E × Option Blocked × Worker E
  unfolding delete_orphans
  delete_unless (some reason) t w = (skip_orphans t, some reason, w)
  delete_unless none t w =
      let (deleted, problems, w') = delete_orphans E t.orphans w in
      (add_deletions t deleted problems, none, w')

  -- The deletions at the end of `reconcile`.
  unfoldable pub finish :
      Options → Bool → Snapshot → Totals E → Worker E → Totals E × Option Blocked × Worker E
  unfolding delete_unless guard_deletions
  finish opts deleting snapshot t w =
      if is_empty t.orphans
      then (t, none, w)
      else if not deleting
      then (skip_orphans t, none, w)
      else delete_unless (guard_deletions opts t.orphans t.owned t.foreign_prefix snapshot) t w

  abbrev report : Totals E × Option Blocked × Worker E → Summary E × Worker E
  report (t, blocked, w) =
      ((t.result, t.fatal ++ t.partial), set_status t.fatal t.result.failed blocked w)

  -- The lists that a run reads before it looks at the kinds.
  unfoldable pub prepare : Snapshot → Worker E → Worker E
  unfolding track_stopped load_certificates load_access_lists needs_access_list_names
  prepare snapshot w =
      let (now, w') = clock E w in
      load_access_lists E (needs_access_list_names snapshot.targets) (
        load_certificates E
          (record w' { stopped_since = track_stopped now snapshot.targets w'.stopped_since }))

  unfoldable pub reconcile_snapshot :
      Options → Bool → E.Error ⊎ Snapshot → Worker E → Summary E × Worker E
  unfolding finish reconcile_kinds prepare set_status
  reconcile_snapshot opts deleting (inl e) w =
      ((no_counters, snapshot_failed e ∷ []), set_status (snapshot_failed e ∷ []) 0 none w)
  reconcile_snapshot opts deleting (inr snapshot) w =
      let (t, w') = reconcile_kinds opts snapshot opts.kinds no_totals (prepare snapshot w) in
      report (finish opts deleting snapshot t w')

  -- `Worker.reconcile`
  unfoldable pub reconcile : Options → Bool → Worker E → Summary E × Worker E
  unfolding reconcile_snapshot
  reconcile opts deleting w =
      let (answer, server) = E.snapshot w.server in
      reconcile_snapshot opts deleting answer (record w { server = server })

  -- `Worker.flush`
  unfoldable pub flush : Options → Worker E → Summary E × Worker E
  unfolding reconcile
  flush opts w = reconcile opts false w

  abbrev after_poll : Options → Bool → Worker E → Worker E
  after_poll opts true w = (reconcile opts opts.delete_orphans w).1
  after_poll opts false w = w

  -- One round of the loop of `Run`.
  unfoldable handle : Options → Trigger → Worker E → Worker E
  unfolding reconcile poll_certificates
  handle opts batch w = (reconcile opts opts.delete_orphans w).1
  handle opts resync w =
      (reconcile opts opts.delete_orphans (record w { server = (E.recheck w.server).1 })).1
  handle opts certificate_poll w =
      let (changed, w') = poll_certificates E w in after_poll opts changed w'

  handle_all : Options → List Trigger → Worker E → Worker E
  unfolding handle
  handle_all opts [] w = w
  handle_all opts (t ∷ ts) w = handle_all opts ts (handle opts t w)

  -- `Worker.Run`: the first run, the triggers until the context is cancelled, and the flush.
  unfoldable pub run : Options → List Trigger → Worker E → Summary E × Worker E
  unfolding handle_all flush reconcile
  run opts triggers w =
      flush opts (handle_all opts triggers (reconcile opts opts.delete_orphans w).1)
