-- ===== src/Syncer/Deletion/Laws.antt =====
-- What the guard promises, and what the deletions of a run touch (internal/syncer/worker.go).
use mathlib.Core.Path.{subst}
use npmplus_docker_sync.Base.{
  ℕ, suc, ◌+◌, ◌*◌, ◌<◌, ◌≤◌, Option, none, some, List, [], ◌∷◌, ◌≡◌, refl, sym, ap, ◌⊎◌, arith,
  length, In, here, there,
}
use npmplus_docker_sync.Syncer.Calls.{call_delete}
use npmplus_docker_sync.Syncer.Collection.Trace.{Grows, same, grow, Grows-trans, Grows-map}
use npmplus_docker_sync.Syncer.Deletion.{minimum_of, guard_numbers, add_deletion, delete_orphans}
use npmplus_docker_sync.Syncer.Orphans.{Orphan}
use npmplus_docker_sync.Syncer.Types.{Env, Worker, Options, Problem, Call, deleted}

-- What the guard promises of a run that deletes: no owned resource has a foreign label prefix, and
-- the guard is off, or the deletions are fewer than the minimum, or Docker reported containers and
-- the deletions leave some owned resource and stay within the allowed share of them (if any is owned).
abbrev pub GuardPassed : Options → ℕ → ℕ → ℕ → ℕ → Type 0
GuardPassed opts deletions owned foreign_prefix containers =
    (foreign_prefix ≡ 0)
    × ((opts.delete_guard.0 ≡ 0)
        ⊎ ((deletions < minimum_of opts)
            ⊎ ((0 < containers)
                × ((owned ≡ 0)
                    ⊎ ((deletions < owned)
                        × (deletions * opts.delete_guard.1 ≤ opts.delete_guard.0 * owned))))))

pub guard_numbers-GuardPassed :
    (opts : Options) (deletions owned foreign_prefix containers : ℕ)
    → guard_numbers opts deletions owned foreign_prefix containers ≡ none
    → GuardPassed opts deletions owned foreign_prefix containers
unfolding guard_numbers
guard_numbers-GuardPassed opts deletions owned foreign_prefix containers h = ground arith

module _ (E : Env) where
  -- The call deletes one of the orphans.
  abbrev pub DeletesOne : List Orphan → Call E → Type 0
  DeletesOne os c = (o : Orphan) × In o os × (c ≡ deleted o.kind o.id)

  add_deletion-calls :
      (o : Orphan) (a : Option E.Error) (r : ℕ × List (Problem E.Error) × Worker E)
      → (add_deletion E o a r).2.calls ≡ r.2.calls
  add_deletion-calls o none r = refl
  add_deletion-calls o (some e) r = ground arith

  -- The deletions call the server once an orphan, and for orphans only.
  pub delete_orphans-Grows :
      (os : List Orphan) (w : Worker E)
      → Grows (DeletesOne os) w.calls (delete_orphans E os w).2.calls
  unfolding delete_orphans call_delete
  delete_orphans-Grows [] w = same
  delete_orphans-Grows (o ∷ os) w =
      let (a, w') = call_delete E o.kind o.id w in
      let later = delete_orphans-Grows os w' in
      subst (Grows (DeletesOne (o ∷ os)) w.calls)
        (sym (add_deletion-calls o a (delete_orphans E os w')))
        (Grows-trans (DeletesOne (o ∷ os)) (grow (o, here refl, refl) same)
          (Grows-map (DeletesOne os) (λ c (p, m, e). (p, there m, e)) later))

  -- There is one call an orphan.
  pub length-delete_orphans :
      (os : List Orphan) (w : Worker E)
      → length (delete_orphans E os w).2.calls ≡ length os + length w.calls
  unfolding delete_orphans call_delete
  length-delete_orphans [] w = omega arith
  length-delete_orphans (o ∷ os) w =
      let (a, w') = call_delete E o.kind o.id w in
      let rest = length-delete_orphans os w' in
      let same = ap length (add_deletion-calls o a (delete_orphans E os w')) in
      omega (arith, rest, same)

  add_deletion-counts :
      (o : Orphan) (a : Option E.Error) (r : ℕ × List (Problem E.Error) × Worker E)
      → (add_deletion E o a r).0 + length (add_deletion E o a r).1 ≡ suc (r.0 + length r.1)
  add_deletion-counts o none r = omega arith
  add_deletion-counts o (some e) r = ground arith

  -- Every orphan is counted once, as deleted or as failed.
  delete_orphans-counts :
      (os : List Orphan) (w : Worker E)
      → (delete_orphans E os w).0 + length (delete_orphans E os w).1 ≡ length os
  unfolding delete_orphans
  delete_orphans-counts [] w = refl
  delete_orphans-counts (o ∷ os) w =
      let (a, w') = call_delete E o.kind o.id w in
      let one = add_deletion-counts o a (delete_orphans E os w') in
      let rest = delete_orphans-counts os w' in omega (arith, one, rest)
