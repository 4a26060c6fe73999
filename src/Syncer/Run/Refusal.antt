-- ===== src/Syncer/Run/Refusal.antt =====
-- The deletions at the end of a run and the guard before them (`reconcile` of
-- internal/syncer/worker.go).
use npmplus_docker_sync.Base.{◌+◌, Bool, true, Option, none, ◌≡◌, length}
use npmplus_docker_sync.Docker.Types.{Snapshot}
use npmplus_docker_sync.Syncer.Collection.Trace.{Grows}
use npmplus_docker_sync.Syncer.Deletion.Laws.{GuardPassed, DeletesOne}
use npmplus_docker_sync.Syncer.Run.{Totals}
use npmplus_docker_sync.Syncer.Types.{Env, Worker, Options, Blocked}

module _ (E : Env) where
  -- The end of a run made no call, and counts no deletion.
  abbrev pub Untouched : Totals E → Worker E → Totals E × Option Blocked × Worker E → Type 0
  Untouched t w r = (r.2.calls ≡ w.calls) × (r.0.result.deleted ≡ t.result.deleted)

  -- The end of a run asked the server once to delete each orphan, and made no other call; the run may
  -- delete, and the guard has passed for the number of the orphans.
  abbrev pub Deleted :
      Options
      → Bool
      → Snapshot
      → Totals E
      → Worker E
      → Totals E × Option Blocked × Worker E
      → Type 0
  Deleted opts deleting snapshot t w r =
      (deleting ≡ true)
      × (r.1 ≡ none)
      × Grows (DeletesOne E t.orphans) w.calls r.2.calls
      × (length r.2.calls ≡ length t.orphans + length w.calls)
      × GuardPassed opts (length t.orphans) t.owned t.foreign_prefix snapshot.containers
