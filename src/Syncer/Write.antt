-- ===== src/Syncer/Write.antt =====
-- The writes of one visit: `applyEnabled`, `create`, and what `reconcileKind` does with their
-- results (internal/syncer/worker.go).
pub mod Trace
use npmplus_docker_sync.Base.{
  ℕ, ◌==◌, Bool, true, false, not, ◌&&◌, ◌||◌, Option, none, some, List, [], ◌⊎◌, inl, inr,
  if◌then◌else◌,
}
use npmplus_docker_sync.Base.Dict.{Dict}
use npmplus_docker_sync.Base.Text.{Text, ◌=?◌}
use npmplus_docker_sync.Docker.Types.{
  OnStop, disable, keep, delete, Target, complete, key as target_key,
}
use npmplus_docker_sync.Npm.Dialect.{Dialect, carries_marker}
use npmplus_docker_sync.Npm.Kind.{Kind}
use npmplus_docker_sync.Npm.Meta.{is_managed}
use npmplus_docker_sync.Npm.Types.{CertificateId}
use npmplus_docker_sync.Syncer.Backoff.{deferred, note_failure, note_success}
use npmplus_docker_sync.Syncer.Cache.{Entry, get}
use npmplus_docker_sync.Syncer.Calls.{call_create, call_update, call_set_enabled}
use npmplus_docker_sync.Syncer.Lookups.{resolve_access_lists, resolve_certificate}
use npmplus_docker_sync.Syncer.Ownership.{
  owns, ownership, Decision, skip, adopt, use_it, foreign_domain,
}
use npmplus_docker_sync.Syncer.Stopped.{in_grace}
use npmplus_docker_sync.Syncer.Types.{
  Env, Worker, Options, Problem, unknown_access_list, no_certificate, unsupported_kind,
  create_failed, update_failed, mark_failed, toggle_failed,
}

-- Which counter the visit adds one to, with the error of a failure.
pub data Outcome (E : Env) : Type 0 where
  skipped unchanged created updated : Outcome E
  failed : Problem E.Error → Outcome E

-- What stays the same while one target is looked at.
pub record Visit (E : Env) : Type 0 where
  pub options : Options
  pub kind : Kind
  pub key : Text
  pub now : ℕ
  pub dialect : Dialect
  pub by_domain : Dict E.Resource
  pub target : Target

-- The outcome, the entry for the cache if there is one, and the worker.
abbrev pub Report : Env → Type 0
Report E = Outcome E × Option Entry × Worker E

module _ (E : Env) where
  -- `Worker.noteSuccess`, `Worker.deferred` and `Worker.backOff` on the worker.
  abbrev pub cleared : Visit E → Worker E → Worker E
  cleared v w = record w { failures = note_success v.kind v.key w.failures }

  abbrev pub backed_off : Visit E → Text → Problem E.Error → Worker E → Worker E
  backed_off v hash p w = record w {
    failures = (note_failure v.kind v.key hash (E.describe p) v.now w.failures).0;
  }

  abbrev pub entry_of : Visit E → ℕ → Text → Bool → ℕ → Entry
  entry_of v id hash enabled certificate = record {
    id = id;
    hash = hash;
    container = v.target.container_name;
    index = v.target.index;
    enabled = enabled;
    certificate = certificate;
    running = v.target.running;
  }

  abbrev pub same : Bool → Bool → Bool
  same true b = b
  same false b = not b

  abbrev pub toggle_answer :
      Option E.Error → Kind → Text → Worker E → (Problem E.Error ⊎ Bool) × Worker E
  toggle_answer none k key w = (inr true, w)
  toggle_answer (some e) k key w = (inl (toggle_failed k key e), w)

  abbrev call_toggle : Kind → Text → ℕ → Bool → Worker E → (Problem E.Error ⊎ Bool) × Worker E
  call_toggle k key id desired w =
      let (answer, w') = call_set_enabled E k id desired w in toggle_answer answer k key w'

  -- `Worker.applyEnabled`
  unfoldable pub apply_enabled :
      Options → Kind → Text → ℕ → Bool → Bool → Worker E → (Problem E.Error ⊎ Bool) × Worker E
  unfolding call_set_enabled
  apply_enabled opts k key id desired live w =
      if same desired live || id == 0
      then (inr false, w)
      else if opts.dry_run
      then (inr true, w)
      else call_toggle k key id desired w

  -- The end of `Worker.create`, with what the caller does with its results.
  abbrev pub after_first_toggle :
      Visit E → E.Resource → Text → E.Resource → Problem E.Error ⊎ Bool → Worker E → Report E
  after_first_toggle v r hash c (inl p) w = (failed p, none, backed_off v hash p w)
  after_first_toggle v r hash c (inr changed) w =
      let enabled = if changed then E.is_enabled r else E.is_enabled c in
      let certificate = (E.resource_certificate r).id in
      (
        created,
        some (entry_of v (E.resource_id c) (E.fingerprint r) enabled certificate),
        cleared v w,
      )

  abbrev pub after_create : Visit E → E.Resource → Text → E.Error ⊎ E.Resource → Worker E → Report E
  after_create v r hash (inl e) w =
      let p = create_failed v.target.kind (target_key v.target) e in
      (failed p, none, backed_off v hash p w)
  after_create v r hash (inr c) w =
      let (answer, w') =
        apply_enabled v.options v.target.kind (target_key v.target) (E.resource_id c)
          (E.is_enabled r) (E.is_enabled c) w in
      after_first_toggle v r hash c answer w'

  abbrev pub create_now : Visit E → E.Resource → Text → Worker E → Report E
  create_now v r hash w = let (answer, w') = call_create E r w in after_create v r hash answer w'

  -- A desired resource that is missing: `Worker.create`.
  unfoldable pub write_new : Visit E → E.Resource → Text → Worker E → Report E
  unfolding call_create apply_enabled complete
  write_new v r hash w =
      if not v.target.running && not (complete v.target)
      then (skipped, none, w)
      else if v.options.dry_run
      then (created, none, cleared v w)
      else create_now v r hash w
