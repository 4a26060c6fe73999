-- ===== src/Syncer/Existing/Trace.antt =====
-- The writes of the visit of a resource that exists (internal/syncer/worker.go) are those that
-- `Legal` allows.
use npmplus_docker_sync.Base.{
  Bool, true, false, not, ◌&&◌, Option, none, some, List, ◌∷◌, ◌≡◌, refl, sym, ap, ◌∙◌, ◌⊎◌, inl,
  inr, if◌then◌else◌, subst,
}
use npmplus_docker_sync.Base.Text.{Text}
use npmplus_docker_sync.Syncer.Calls.{call_update}
use npmplus_docker_sync.Syncer.Existing.{
  after_toggle, follow_enabled, wanted_enabled, after_update, update_now, write_drifted,
  stamp_marker, call_stamp, after_stamp, stamp_first, write_existing, needs_marker, in_sync,
}
use npmplus_docker_sync.Syncer.Types.{Env, Worker, Problem, Call, updated, toggled}
use npmplus_docker_sync.Syncer.Write.{Outcome, Visit, Report, apply_enabled}
use npmplus_docker_sync.Syncer.Write.Trace.{
  Legal, start, toggle_step, update_step, toggle_updated, scope, switch, calls_of,
  apply_enabled-calls,
}

module _ (E : Env) (v : Visit E) (Wanted : E.Resource → Type 0) (c : E.Resource) where
  -- The calls are allowed by the live resource `c`.
  abbrev Known : List (Call E) → List (Call E) → Type 0
  Known = Legal E (scope E v Wanted (some c))

  -- The enabled flag that the live resource is given.
  abbrev flag : E.Resource → Bool
  flag r = switch E (scope E v Wanted (some c)) r c

  -- There was no call yet, or the one update.
  abbrev Before : List (Call E) → List (Call E) → Type 0
  Before old calls =
      (calls ≡ old)
      ⊎ ((r : E.Resource) × (v.options.dry_run ≡ false)
          × (Wanted r ⊎ (r ≡ c))
          × (calls ≡ updated (E.resource_id c) r ∷ old))

  Before-Known : {old calls : List (Call E)} → Before old calls → Known old calls
  Before-Known {old} (inl e) = subst (Known old) (sym e) start
  Before-Known {old} (inr (r, d, q, e)) = subst (Known old) (sym e) (update_step c r d refl q)

  toggle-Known :
      {old calls : List (Call E)} (r : E.Resource)
      → v.options.dry_run ≡ false
      → Wanted r
      → Before old calls
      → Known old (toggled v.kind (E.resource_id c) (flag r) ∷ calls)
  toggle-Known {old} r d k (inl e) =
      subst (λ cs. Known old (toggled v.kind (E.resource_id c) (flag r) ∷ cs)) (sym e)
        (toggle_step c r d refl k)
  toggle-Known {old} r d k (inr (u, _, q, e)) =
      subst (λ cs. Known old (toggled v.kind (E.resource_id c) (flag r) ∷ cs)) (sym e)
        (toggle_updated c r u d refl k q)

  after_toggle-calls :
      (r : E.Resource) (hash : Text) (enabled changed : Bool) (a : Problem E.Error ⊎ Bool)
      (w : Worker E)
      → calls_of E (after_toggle E v r (E.resource_id c) hash enabled changed a w) ≡ w.calls
  after_toggle-calls r hash enabled changed (inl p) w = refl
  after_toggle-calls r hash enabled changed (inr did) w = refl

  module _ (old : List (Call E)) where
    follow_enabled-Legal :
        (r : E.Resource) (hash : Text) (changed : Bool) (w : Worker E)
        → Wanted r
        → Before old w.calls
        → Known old
            (calls_of E (follow_enabled E v r (E.resource_id c) hash (E.is_enabled c) changed w))
    unfolding follow_enabled wanted_enabled
    follow_enabled-Legal r hash changed w k l =
        let enabled = E.is_enabled c in
        let b = wanted_enabled E v r enabled in
        let run = apply_enabled E v.options v.kind v.key (E.resource_id c) b enabled w in
        let same = after_toggle-calls r hash enabled changed run.0 run.1 in
        elim (apply_enabled-calls E v.options v.kind v.key (E.resource_id c) b enabled w) [
          | inl e ↦ subst (Known old) (sym (same ∙ e)) (Before-Known l)
          | inr (d, e) ↦ subst (Known old) (sym (same ∙ e)) (toggle-Known r d k l)
        ]

    after_update-Legal :
        (r : E.Resource) (hash : Text) (a : E.Error ⊎ E.Resource) (w : Worker E)
        → Wanted r
        → Before old w.calls
        → Known old (calls_of E (after_update E v r (E.resource_id c) hash (E.is_enabled c) a w))
    after_update-Legal r hash (inl e) w k l = Before-Known l
    after_update-Legal r hash (inr stored) w k l = follow_enabled-Legal r hash true w k l

    update_unless_dry :
        (r : E.Resource) (hash : Text) (w : Worker E) (b : Bool)
        → v.options.dry_run ≡ b
        → Wanted r
        → w.calls ≡ old
        → Known old (
            calls_of E (
              if b
              then (Outcome.updated, none, w)
              else update_now E v r (E.resource_id c) hash (E.is_enabled c) w))
    unfolding call_update
    update_unless_dry r hash w true d q e = Before-Known (inl e)
    update_unless_dry r hash w false d q e =
        let (a, w') = call_update E (E.resource_id c) r w in
        after_update-Legal r hash a w' q
          (inr (r, d, inl q, ap (λ cs. updated (E.resource_id c) r ∷ cs) e))

    write_drifted-Legal :
        (r : E.Resource) (hash : Text) (in_sync changed : Bool) (w : Worker E)
        → Wanted r
        → w.calls ≡ old
        → Known old (
            calls_of E
              (write_drifted E v r (E.resource_id c) hash (E.is_enabled c) in_sync changed w))
    unfolding write_drifted
    write_drifted-Legal r hash true changed w q e = follow_enabled-Legal r hash changed w q (inl e)
    write_drifted-Legal r hash false changed w q e =
        update_unless_dry r hash w v.options.dry_run refl q e

    after_stamp-Legal :
        (r : E.Resource) (hash : Text) (a : Problem E.Error ⊎ Option E.Resource) (w : Worker E)
        → Wanted r
        → Before old w.calls
        → Known old (calls_of E (after_stamp E v r (E.resource_id c) hash (E.is_enabled c) a w))
    unfolding write_drifted
    after_stamp-Legal r hash (inl p) w k l = Before-Known l
    after_stamp-Legal r hash (inr stamped) w k l = follow_enabled-Legal r _ true w k l

  stamp_step :
      (w : Worker E) (b : Bool)
      → v.options.dry_run ≡ b
      → Before w.calls
          (if b then (inr none, w) else call_stamp E v.key (E.resource_id c) c w).1.calls
  unfolding call_update
  stamp_step w true d = inl refl
  stamp_step w false d = inr (c, d, inr refl, refl)

  stamp_first-Legal :
      (r : E.Resource) (hash : Text) (w : Worker E)
      → Wanted r
      → Known w.calls (calls_of E (stamp_first E v r hash c w))
  unfolding stamp_marker
  stamp_first-Legal r hash w q =
      let (a, w') = stamp_marker E v.options v.key (E.resource_id c) c w in
      after_stamp-Legal w.calls r hash a w' q (stamp_step w v.options.dry_run refl)

  pub write_existing-Legal :
      (r : E.Resource) (hash : Text) (w : Worker E)
      → Wanted r
      → Known w.calls (calls_of E (write_existing E v r hash c w))
  unfolding write_existing
  write_existing-Legal r hash w q =
      either (not v.target.running && needs_marker E c v.dialect) _ _
        (stamp_first-Legal r stored w q)
        (write_drifted-Legal w.calls r stored (in_sync E v hash c w) false w q refl)
    where
      stored : Text
      stored = if v.target.running then hash else E.fingerprint c

      either :
          (b : Bool) (x y : Report E)
          → Known w.calls (calls_of E x)
          → Known w.calls (calls_of E y)
          → Known w.calls (calls_of E (if b then x else y))
      either true x y lx ly = lx
      either false x y lx ly = ly
