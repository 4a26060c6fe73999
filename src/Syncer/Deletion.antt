-- ===== src/Syncer/Deletion.antt =====
-- The deletions of a run: `guardDeletions` and `deleteOrphans` of internal/syncer/worker.go.
pub mod Laws
use npmplus_docker_sync.Base.{
  is_empty, ℕ, suc, ◌*◌, ◌==◌, Bool, true, false, ◌&&◌, Option, none, some, List, [], ◌∷◌,
  if◌then◌else◌, ltb, leb, length,
}
use npmplus_docker_sync.Docker.Types.{Snapshot}
use npmplus_docker_sync.Syncer.Calls.{call_delete}
use npmplus_docker_sync.Syncer.Orphans.{Orphan}
use npmplus_docker_sync.Syncer.Types.{
  Env, Worker, Options, Problem, delete_failed, Blocked, prefix_changed, no_containers, everything,
  share_exceeded,
}

-- `DefaultDeleteGuardMin`
abbrev default_delete_guard_min : ℕ
default_delete_guard_min = 3

abbrev pub minimum_of : Options → ℕ
minimum_of opts =
    if opts.delete_guard_min == 0 then default_delete_guard_min else opts.delete_guard_min

-- Whether `deletions` of `owned` are a larger share than the guard allows. The source divides
-- with float64; here the two fractions are compared exactly.
abbrev exceeds : ℕ → ℕ → ℕ × ℕ → Bool
exceeds deletions owned (numerator, denominator) = ltb (numerator * owned) (deletions * denominator)

-- The rules of `guardDeletions` on the numbers of the run.
unfoldable pub guard_numbers : Options → ℕ → ℕ → ℕ → ℕ → Option Blocked
guard_numbers opts deletions owned foreign_prefix containers =
    if ltb 0 foreign_prefix
    then some prefix_changed
    else if opts.delete_guard.0 == 0
    then none
    else if ltb deletions (minimum_of opts)
    then none
    else if containers == 0
    then some no_containers
    else if ltb 0 owned && leb owned deletions
    then some everything
    else if ltb 0 owned && exceeds deletions owned opts.delete_guard
    then some share_exceeded
    else none

-- `Worker.guardDeletions`; `none` lets the run delete.
unfoldable pub guard_deletions : Options → List Orphan → ℕ → ℕ → Snapshot → Option Blocked
unfolding guard_numbers
guard_deletions opts orphans owned foreign_prefix snapshot =
    guard_numbers opts (length orphans) owned foreign_prefix snapshot.containers

module _ (E : Env) where
  abbrev pub add_deletion :
      Orphan
      → Option E.Error
      → ℕ × List (Problem E.Error) × Worker E
      → ℕ × List (Problem E.Error) × Worker E
  add_deletion o none (deleted, problems, w) = (suc deleted, problems, w)
  add_deletion o (some e) (deleted, problems, w) =
      if E.is_not_found e
      then (suc deleted, problems, w)
      else (deleted, delete_failed o.kind o.key e ∷ problems, w)

  -- `Worker.deleteOrphans`
  unfoldable pub delete_orphans : List Orphan → Worker E → ℕ × List (Problem E.Error) × Worker E
  unfolding call_delete
  delete_orphans [] w = (0, [], w)
  delete_orphans (o ∷ os) w =
      let (answer, w') = call_delete E o.kind o.id w in add_deletion o answer (delete_orphans os w')
