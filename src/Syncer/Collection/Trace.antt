-- ===== src/Syncer/Collection/Trace.antt =====
-- The writes of the first loop of `reconcileKind` (internal/syncer/worker.go), and lists of calls
-- that each fulfil a predicate.
use mathlib.Core.Path.{subst}
use npmplus_docker_sync.Base.{
  false, Option, none, some, List, [], ◌∷◌, ◌≡◌, ◌≢◌, refl, ap, sym, ◌⊎◌, inl, inr,
}
use npmplus_docker_sync.Base.Dict
use npmplus_docker_sync.Base.Dict.{Dict}
use npmplus_docker_sync.Base.Text.{Text}
use npmplus_docker_sync.Docker.Types.{Target}
use npmplus_docker_sync.Syncer.Collection.{Loop, Pass, visit_of, visit_target, visit_keys}
use npmplus_docker_sync.Syncer.Ownership.{ownership, Decision, skip, adopt, use_it}
use npmplus_docker_sync.Syncer.Types.{
  Env, Worker, Options, Call, created, updated, toggled, deleted,
}
use npmplus_docker_sync.Syncer.Visit.{visit}
use npmplus_docker_sync.Syncer.Visit.Trace.{visit-Legal, visit-foreign, scope_of}
use npmplus_docker_sync.Syncer.Write.Trace.{
  Legal, Scope, start, create_step, first_toggle, update_step, toggle_step, toggle_updated,
  calls_of,
}

-- The calls grow by calls that fulfil `P`.
pub data Grows {E : Env} (P : Call E → Type 0) (old : List (Call E)) : List (Call E) → Type 0 where
  same : Grows P old old
  grow : {c : Call E} {calls : List (Call E)} → P c → Grows P old calls → Grows P old (c ∷ calls)

-- The call updates, toggles or creates: it is no deletion.
abbrev Keeps : {E : Env} → Call E → Type 0
Keeps (created r a) = Unit
Keeps (updated id r) = Unit
Keeps (toggled k id b) = Unit
Keeps (deleted k id) = ⊥

-- A write that deletes nothing, outside a dry run.
abbrev pub SafeWrite : {E : Env} → Options → Call E → Type 0
SafeWrite opts c = (opts.dry_run ≡ false) × Keeps c

-- The live resource under the key, if any, is one that the run may write.
abbrev MayWrite : (E : Env) → Options → Option E.Resource → Type 0
MayWrite E opts none = Unit
MayWrite E opts (some c) = ownership E opts c ≢ skip

-- The calls of one visit after another: each of a target and a key that `Of` allows, with what stands
-- under the key in the index of the live resources, if the run may write it.
pub data Writes (E : Env) (l : Loop E) (Of : Text → Target → Type 0) (old : List (Call E))
    : List (Call E) → Type 0 where
  done : Writes E l Of old old
  visited :
      {before after : List (Call E)} (key : Text) (t : Target) (live : Option E.Resource)
      → Of key t
      → Dict.lookup key l.existing ≡ live
      → MayWrite E l.options live
      → Writes E l Of old before
      → Legal E (scope_of E (visit_of E l key t) live) before after
      → Writes E l Of old after

module _ {E : Env} (P : Call E → Type 0) where
  pub Grows-trans : {a b c : List (Call E)} → Grows P a b → Grows P b c → Grows P a c
  Grows-trans g same = g
  Grows-trans g (grow p h) = grow p (Grows-trans g h)

  pub Grows-map :
      {Q : Call E → Type 0} (f : (c : Call E) → P c → Q c) {a b : List (Call E)}
      → Grows P a b
      → Grows Q a b
  Grows-map f same = same
  Grows-map f (grow {c} p h) = grow (f c p) (Grows-map f h)

  pub Grows_none : {a b : List (Call E)} → ((c : Call E) → P c → ⊥) → Grows P a b → b ≡ a
  Grows_none f same = refl
  Grows_none f (grow {c} p h) = absurd (f c p)

module _ (E : Env) where
  Legal-Grows :
      {s : Scope E} {old new : List (Call E)}
      → Legal E s old new
      → Grows (SafeWrite s.options) old new
  Legal-Grows start = same
  Legal-Grows (create_step r a d e q) = grow (d, tt) same
  Legal-Grows (first_toggle r c d e q) = grow (d, tt) (grow (d, tt) same)
  Legal-Grows (update_step c r d e q) = grow (d, tt) same
  Legal-Grows (toggle_step c r d e q) = grow (d, tt) same
  Legal-Grows (toggle_updated c r u d e k q) = grow (d, tt) (grow (d, tt) same)

  pub Writes-Grows :
      {l : Loop E} {Of : Text → Target → Type 0} {old new : List (Call E)}
      → Writes E l Of old new
      → Grows (SafeWrite l.options) old new
  Writes-Grows done = same
  Writes-Grows {l} (visited key t live d e m ws w) =
      Grows-trans (SafeWrite l.options) (Writes-Grows ws) (Legal-Grows w)

module _ (E : Env) (l : Loop E) (Of : Text → Target → Type 0)
    (of_desired : (key : Text) (t : Target) → Dict.lookup key l.desired ≡ some t → Of key t) where
  one_visit :
      (old : List (Call E)) (key : Text) (t : Target) (w : Worker E) (live : Option E.Resource)
      → Of key t
      → Dict.lookup key l.existing ≡ live
      → Writes E l Of old w.calls
      → Writes E l Of old (calls_of E (visit E (visit_of E l key t) live w))
  one_visit old key t w none d h ws =
      visited key t none d h tt ws (visit-Legal E (visit_of E l key t) none w)
  one_visit old key t w (some c) d h ws = elim (decide (ownership E l.options c) refl) [
    | inl e ↦
        subst (Writes E l Of old)
          (sym (ap (calls_of E) (visit-foreign E (visit_of E l key t) c w e))) ws
    | inr n ↦ visited key t (some c) d h n ws (visit-Legal E (visit_of E l key t) (some c) w)
  ]
    where
      decide :
          (d : Decision)
          → ownership E l.options c ≡ d
          → (ownership E l.options c ≡ skip) ⊎ (ownership E l.options c ≢ skip)
      decide skip e = inl e
      decide adopt e = inr (λ f. cc)
      decide use_it e = inr (λ f. cc)

  visit_target-Writes :
      (old : List (Call E)) (key : Text) (t : Option Target) (p : Pass E)
      → Dict.lookup key l.desired ≡ t
      → Writes E l Of old p.worker.calls
      → Writes E l Of old (visit_target E l key t p).worker.calls
  visit_target-Writes old key none p d ws = ws
  visit_target-Writes old key (some t) p d ws =
      one_visit old key t p.worker (Dict.lookup key l.existing) (of_desired key t d) refl ws

  -- The first loop writes through visits only.
  pub visit_keys-Writes :
      (old : List (Call E)) (keys : List Text) (p : Pass E)
      → Writes E l Of old p.worker.calls
      → Writes E l Of old (visit_keys E l keys p).worker.calls
  unfolding visit_keys
  visit_keys-Writes old [] p ws = ws
  visit_keys-Writes old (key ∷ keys) p ws =
      visit_keys-Writes old keys (visit_target E l key (Dict.lookup key l.desired) p)
        (visit_target-Writes old key (Dict.lookup key l.desired) p refl ws)
