-- ===== src/Syncer/Visit.antt =====
-- What a run does for one desired target: the body of the first loop of `reconcileKind` in
-- internal/syncer/worker.go, one function a stage. Each stage ends the visit or goes on to the next.
pub mod Trace
use npmplus_docker_sync.Base.{
  ℕ, ◌==◌, Bool, true, false, not, ◌&&◌, ◌||◌, Option, none, some, List, [], ◌⊎◌, inl, inr,
  if◌then◌else◌,
}
use npmplus_docker_sync.Base.Dict.{Dict}
use npmplus_docker_sync.Base.Text.{Text, ◌=?◌}
use npmplus_docker_sync.Docker.Types.{
  OnStop, disable, keep, delete, Target, complete, key as target_key,
}
use npmplus_docker_sync.Npm.Dialect.{Dialect, carries_marker}
use npmplus_docker_sync.Npm.Kind.{Kind}
use npmplus_docker_sync.Npm.Meta.{is_managed}
use npmplus_docker_sync.Npm.Types.{CertificateId}
use npmplus_docker_sync.Syncer.Backoff.{deferred, note_failure, note_success}
use npmplus_docker_sync.Syncer.Cache.{Entry, get}
use npmplus_docker_sync.Syncer.Calls.{call_create, call_update, call_set_enabled}
use npmplus_docker_sync.Syncer.Lookups.{resolve_access_lists, resolve_certificate}
use npmplus_docker_sync.Syncer.Ownership.{
  owns, ownership, Decision, skip, adopt, use_it, foreign_domain,
}
use npmplus_docker_sync.Syncer.Stopped.{in_grace}
use npmplus_docker_sync.Syncer.Types.{
  Env, Worker, Options, Problem, unknown_access_list, no_certificate, unsupported_kind,
  create_failed, update_failed, mark_failed, toggle_failed,
}
use npmplus_docker_sync.Syncer.Write.{
  Outcome, skipped, unchanged, created, updated, failed, Visit, Report, entry_of, write_new,
}
use npmplus_docker_sync.Syncer.Existing.{write_existing}

module _ (E : Env) where
  -- The choice between a resource that is missing and one that exists.
  unfoldable pub write : Visit E → E.Resource → Text → Option E.Resource → Worker E → Report E
  unfolding write_new write_existing
  write v r hash none w = write_new E v r hash w
  write v r hash (some current) w = write_existing E v r hash current w

  abbrev pub unless_waiting :
      Visit E → E.Resource → Text → Option E.Resource → Bool → Worker E → Report E
  unless_waiting v r hash current true w = (skipped, none, w)
  unless_waiting v r hash current false w = write v r hash current w

  -- The backoff of a configuration that was rejected.
  unfoldable pub unless_deferred :
      Visit E → E.Resource → Text → Option E.Resource → Worker E → Report E
  unfolding write deferred
  unless_deferred v r hash current w =
      let (waiting, left, failures) = deferred v.kind v.key hash v.now w.failures in
      unless_waiting v r hash current waiting (record w { failures = failures })

  -- `AdoptServerState`, where there is a live resource.
  abbrev pub adopted : E.Resource → Option E.Resource → E.Resource
  adopted r none = r
  adopted r (some current) = E.adopt_server_state r current

  -- `BuildResource` returned a resource, or nothing for a kind it does not know.
  unfoldable pub compare_built :
      Visit E → Option E.Resource → Option E.Resource → Worker E → Report E
  unfolding unless_deferred
  compare_built v none current w = (failed (unsupported_kind v.target.kind), none, w)
  compare_built v (some built) current w =
      let r = adopted (E.conform built v.dialect) current in
      unless_deferred v r (E.fingerprint r) current w

  -- `resolveCertificate` returned a certificate, or an error.
  unfoldable pub with_certificate :
      Visit E → Option CertificateId → Option E.Resource → Worker E → Report E
  unfolding compare_built
  with_certificate v none current w = (failed no_certificate, none, w)
  with_certificate v (some c) current w =
      compare_built v (E.build_resource v.target c v.options.instance_id v.options.label_prefix)
        current w

  -- `resolveAccessLists` returned the target with its access lists, or an error.
  unfoldable pub with_access_lists :
      Visit E → Text ⊎ Target → Option E.Resource → Worker E → Report E
  unfolding with_certificate resolve_certificate
  with_access_lists v (inl name) current w = (failed (unknown_access_list name), none, w)
  with_access_lists v (inr t) current w =
      let (c, w') = resolve_certificate E v.options t current w in
      with_certificate (record v { target = t }) c current w'

  -- A domain that another host serves.
  unfoldable pub check_domains : Visit E → Option E.Resource → Worker E → Report E
  unfolding with_access_lists foreign_domain resolve_access_lists
  check_domains v current w =
      if foreign_domain E v.options v.by_domain v.target current
      then (skipped, none, w)
      else with_access_lists v (resolve_access_lists w.access_lists v.target) current w

  abbrev pub stored_entry : Visit E → Option E.Resource → Option Entry
  stored_entry v none = none
  stored_entry v (some r) = some (
      entry_of E v (E.resource_id r) (E.fingerprint r) (E.is_enabled r)
        (E.resource_certificate r).id)

  -- A container that was stopped only recently.
  unfoldable pub check_grace : Visit E → Option E.Resource → Worker E → Report E
  unfolding check_domains in_grace
  check_grace v current w =
      if not v.target.running && in_grace v.options w.stopped_since v.target v.now
      then (unchanged, stored_entry v current, w)
      else check_domains v current w

  abbrev pub unless_foreign : Decision → Visit E → E.Resource → Worker E → Report E
  unless_foreign skip v r w = (skipped, none, w)
  unless_foreign adopt v r w = check_grace v (some r) w
  unless_foreign use_it v r w = check_grace v (some r) w

  -- The whole visit, which starts with the owner of the live resource.
  unfoldable pub visit : Visit E → Option E.Resource → Worker E → Report E
  unfolding check_grace ownership
  visit v none w = check_grace v none w
  visit v (some r) w = unless_foreign (ownership E v.options r) v r w
