-- ===== src/Syncer/Write/Trace.antt =====
-- The writes that one visit may make (internal/syncer/worker.go), as steps on the list of calls.
use npmplus_docker_sync.Base.{
  ℕ, Bool, true, false, Option, none, some, List, ◌∷◌, ◌≡◌, refl, ◌⊎◌, inl, inr, if◌then◌else◌,
  arith, sym, ap, ◌∙◌, not, ◌&&◌, subst,
}
use npmplus_docker_sync.Base.Text.{Text}
use npmplus_docker_sync.Docker.Types.{disable, keep, delete, complete, key as target_key}
use npmplus_docker_sync.Npm.Kind.{Kind}
use npmplus_docker_sync.Syncer.Calls.{call_create, call_set_enabled, answer_of}
use npmplus_docker_sync.Syncer.Types.{
  Env, Worker, Options, Problem, Call, created, updated, toggled,
}
use npmplus_docker_sync.Syncer.Write.{
  Outcome, skipped, cleared, Visit, Report, toggle_answer, apply_enabled, after_first_toggle,
  after_create, create_now, write_new,
}

-- What a visit's writes depend on: the options, the kind of the collection and that of the target,
-- whether the target's container runs, the resources that it may want, and the live resource, if there
-- is one.
pub record Scope (E : Env) : Type 1 where
  pub options : Options
  pub kind : Kind
  pub target_kind : Kind
  pub running : Bool
  pub Wanted : E.Resource → Type 0
  pub current : Option E.Resource

-- The enabled flag that the live resource `c` is given: that of the wanted one where the container runs,
-- and otherwise `false` under the policy `disable` and the flag it has under the others.
abbrev pub switch : (E : Env) → Scope E → E.Resource → E.Resource → Bool
switch E s r c = if s.running then E.is_enabled r else elim s.options.on_stop [
  | disable ↦ false
  | keep ↦ E.is_enabled c
  | delete ↦ E.is_enabled c
]

-- The calls after `old`, the newest first. None of it happens in a dry run. Without a live resource, one
-- that is wanted is created, once, and the one that was created is toggled at most once, to the
-- enabled flag of the wanted one. With a live resource, it is updated at most once, to a wanted one or
-- to itself, which stamps the marker, and then toggled at most once, in the collection of the visit, to
-- the flag that `switch` gives; both by its id.
pub data Legal (E : Env) (s : Scope E) (old : List (Call E)) : List (Call E) → Type 0 where
  start : Legal E s old old
  create_step :
      (r : E.Resource) (answer : Option E.Resource)
      → s.options.dry_run ≡ false
      → s.current ≡ none
      → s.Wanted r
      → Legal E s old (created r answer ∷ old)
  first_toggle :
      (r c : E.Resource)
      → s.options.dry_run ≡ false
      → s.current ≡ none
      → s.Wanted r
      → Legal E s old
          (toggled s.target_kind (E.resource_id c) (E.is_enabled r) ∷ created r (some c) ∷ old)
  update_step :
      (c r : E.Resource)
      → s.options.dry_run ≡ false
      → s.current ≡ some c
      → s.Wanted r ⊎ (r ≡ c)
      → Legal E s old (updated (E.resource_id c) r ∷ old)
  toggle_step :
      (c r : E.Resource)
      → s.options.dry_run ≡ false
      → s.current ≡ some c
      → s.Wanted r
      → Legal E s old (toggled s.kind (E.resource_id c) (switch E s r c) ∷ old)
  toggle_updated :
      (c r u : E.Resource)
      → s.options.dry_run ≡ false
      → s.current ≡ some c
      → s.Wanted r
      → s.Wanted u ⊎ (u ≡ c)
      → Legal E s old
          (toggled s.kind (E.resource_id c) (switch E s r c) ∷ updated (E.resource_id c) u ∷ old)

module _ (E : Env) where
  toggle_answer-calls :
      (a : Option E.Error) (k : Kind) (key : Text) (w : Worker E)
      → (toggle_answer E a k key w).1.calls ≡ w.calls
  toggle_answer-calls none k key w = refl
  toggle_answer-calls (some e) k key w = refl

  -- `applyEnabled` makes no call, or the toggle, and this not in a dry run.
  pub apply_enabled-calls :
      (opts : Options) (k : Kind) (key : Text) (id : ℕ) (desired live : Bool) (w : Worker E)
      → ((apply_enabled E opts k key id desired live w).1.calls ≡ w.calls)
        ⊎ ((opts.dry_run ≡ false)
            × ((apply_enabled E opts k key id desired live w).1.calls
                ≡ toggled k id desired ∷ w.calls))
  unfolding apply_enabled call_set_enabled
  apply_enabled-calls opts k key id desired live w = grind (arith, toggle_answer-calls)

  -- The calls after a visit.
  abbrev pub calls_of : Report E → List (Call E)
  calls_of r = r.2.calls

  -- The scope of a visit that wants the resources of `Wanted`.
  abbrev pub scope : Visit E → (E.Resource → Type 0) → Option E.Resource → Scope E
  scope v Wanted current = record {
    options = v.options;
    kind = v.kind;
    target_kind = v.target.kind;
    running = v.target.running;
    Wanted = Wanted;
    current = current;
  }

  module _ (v : Visit E) (Wanted : E.Resource → Type 0) where
    abbrev Fresh : List (Call E) → List (Call E) → Type 0
    Fresh = Legal E (scope v Wanted none)

    after_first_toggle-calls :
        (r c : E.Resource) (hash : Text) (a : Problem E.Error ⊎ Bool) (w : Worker E)
        → calls_of (after_first_toggle E v r hash c a w) ≡ w.calls
    after_first_toggle-calls r c hash (inl p) w = refl
    after_first_toggle-calls r c hash (inr changed) w = refl

    -- The calls are those the created resource is toggled after.
    after_create-Legal :
        (r : E.Resource) (hash : Text) (a : E.Error ⊎ E.Resource) (calls : List (Call E))
        (w : Worker E)
        → v.options.dry_run ≡ false
        → Wanted r
        → w.calls ≡ created r (answer_of E a) ∷ calls
        → Fresh calls (calls_of (after_create E v r hash a w))
    after_create-Legal r hash (inl e) calls w d q h =
        subst (Fresh calls) (sym h) (create_step r none d refl q)
    after_create-Legal r hash (inr c) calls w d q h =
        let k = v.target.kind in
        let key = target_key v.target in
        let id = E.resource_id c in
        let b = E.is_enabled r in
        let live = E.is_enabled c in
        let run = apply_enabled E v.options k key id b live w in
        let same = after_first_toggle-calls r c hash run.0 run.1 in
        elim (apply_enabled-calls v.options k key id b live w) [
          | inl e ↦ subst (Fresh calls) (sym (same ∙ e ∙ h)) (create_step r (some c) d refl q)
          | inr (_, e) ↦
              subst (Fresh calls) (sym (same ∙ e ∙ ap (λ cs. toggled k id b ∷ cs) h))
                (first_toggle r c d refl q)
        ]

    create_unless_dry :
        (r : E.Resource) (hash : Text) (w : Worker E) (b : Bool)
        → v.options.dry_run ≡ b
        → Wanted r
        → Fresh w.calls (
            calls_of
              (if b then (Outcome.created, none, cleared E v w) else create_now E v r hash w))
    unfolding call_create
    create_unless_dry r hash w true d q = start
    create_unless_dry r hash w false d q =
        let (a, w') = call_create E r w in after_create-Legal r hash a w.calls w' d q refl

    pub write_new-Legal :
        (r : E.Resource) (hash : Text) (w : Worker E)
        → Wanted r
        → Fresh w.calls (calls_of (write_new E v r hash w))
    unfolding write_new
    write_new-Legal r hash w q =
        unless_incomplete (not v.target.running && not (complete v.target))
          (if v.options.dry_run
            then (Outcome.created, none, cleared E v w)
            else create_now E v r hash w)
          (create_unless_dry r hash w v.options.dry_run refl q)
      where
        unless_incomplete :
            (b : Bool) (x : Report E)
            → Fresh w.calls (calls_of x)
            → Fresh w.calls (calls_of (if b then (skipped, none, w) else x))
        unless_incomplete true x lx = start
        unless_incomplete false x lx = lx
