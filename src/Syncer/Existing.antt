-- ===== src/Syncer/Existing.antt =====
-- The visit of a resource that exists: the end of the first loop of `reconcileKind`, and
-- `needsMarker` and `stampMarker` (internal/syncer/worker.go).
pub mod Trace
pub mod Stable
use npmplus_docker_sync.Base.{
  ℕ, ◌==◌, Bool, true, false, not, ◌&&◌, ◌||◌, Option, none, some, List, [], ◌⊎◌, inl, inr,
  if◌then◌else◌,
}
use npmplus_docker_sync.Base.Dict.{Dict}
use npmplus_docker_sync.Base.Text.{Text, ◌=?◌}
use npmplus_docker_sync.Docker.Types.{
  OnStop, disable, keep, delete, Target, complete, key as target_key,
}
use npmplus_docker_sync.Npm.Dialect.{Dialect, carries_marker}
use npmplus_docker_sync.Npm.Kind.{Kind}
use npmplus_docker_sync.Npm.Meta.{is_managed}
use npmplus_docker_sync.Npm.Types.{CertificateId}
use npmplus_docker_sync.Syncer.Backoff.{deferred, note_failure, note_success}
use npmplus_docker_sync.Syncer.Cache.{Entry, get}
use npmplus_docker_sync.Syncer.Calls.{call_create, call_update, call_set_enabled}
use npmplus_docker_sync.Syncer.Lookups.{resolve_access_lists, resolve_certificate}
use npmplus_docker_sync.Syncer.Ownership.{
  owns, ownership, Decision, skip, adopt, use_it, foreign_domain,
}
use npmplus_docker_sync.Syncer.Stopped.{in_grace}
use npmplus_docker_sync.Syncer.Types.{
  Env, Worker, Options, Problem, unknown_access_list, no_certificate, unsupported_kind,
  create_failed, update_failed, mark_failed, toggle_failed,
}
use npmplus_docker_sync.Syncer.Write.{
  Outcome, skipped, unchanged, created, updated, failed, Visit, Report, cleared, backed_off,
  entry_of, apply_enabled,
}

module _ (E : Env) where
  -- The enabled flag that a resource should have: a stopped container's follows `OnStop`.
  unfoldable pub wanted_enabled : Visit E → E.Resource → Bool → Bool
  wanted_enabled v r enabled =
      if v.target.running
      then E.is_enabled r
      else elim v.options.on_stop [ disable ↦ false | keep ↦ enabled | delete ↦ enabled ]

  abbrev pub after_toggle :
      Visit E → E.Resource → ℕ → Text → Bool → Bool → Problem E.Error ⊎ Bool → Worker E → Report E
  after_toggle v r id hash enabled changed (inl p) w = (failed p, none, w)
  after_toggle v r id hash enabled changed (inr toggled) w =
      let now_enabled = if toggled then wanted_enabled v r enabled else enabled in
      let certificate = (E.resource_certificate r).id in
      (
        (if changed || toggled then updated else unchanged),
        some (entry_of E v id hash now_enabled certificate),
        cleared E v w,
      )

  -- The last stage: the enabled flag of an existing resource.
  unfoldable pub follow_enabled :
      Visit E → E.Resource → ℕ → Text → Bool → Bool → Worker E → Report E
  unfolding apply_enabled wanted_enabled
  follow_enabled v r id hash enabled changed w =
      let (answer, w') =
        apply_enabled E v.options v.kind v.key id (wanted_enabled v r enabled) enabled w in
      after_toggle v r id hash enabled changed answer w'

  abbrev pub after_update :
      Visit E → E.Resource → ℕ → Text → Bool → E.Error ⊎ E.Resource → Worker E → Report E
  after_update v r id hash enabled (inl e) w =
      let p = update_failed v.kind v.key e in (failed p, none, backed_off E v hash p w)
  after_update v r id hash enabled (inr stored) w = follow_enabled v r id hash enabled true w

  abbrev pub update_now : Visit E → E.Resource → ℕ → Text → Bool → Worker E → Report E
  update_now v r id hash enabled w =
      let (answer, w') = call_update E id r w in after_update v r id hash enabled answer w'

  -- The update of a resource that is not in sync.
  unfoldable pub write_drifted :
      Visit E → E.Resource → ℕ → Text → Bool → Bool → Bool → Worker E → Report E
  unfolding call_update follow_enabled
  write_drifted v r id hash enabled in_sync changed w =
      if in_sync
      then follow_enabled v r id hash enabled changed w
      else if v.options.dry_run
      then (updated, none, w)
      else update_now v r id hash enabled w

  -- `needsMarker`
  unfoldable pub needs_marker : E.Resource → Dialect → Bool
  unfolding carries_marker
  needs_marker r d =
      is_managed (E.resource_meta r)
      && (not (E.owner_marked r) && carries_marker d (E.resource_kind r))

  abbrev stamp_answer :
      E.Resource → Text → E.Error ⊎ E.Resource → Problem E.Error ⊎ Option E.Resource
  stamp_answer current key (inl e) = inl (mark_failed (E.resource_kind current) key e)
  stamp_answer current key (inr stored) = inr (some stored)

  abbrev pub call_stamp :
      Text → ℕ → E.Resource → Worker E → (Problem E.Error ⊎ Option E.Resource) × Worker E
  call_stamp key id current w =
      let (answer, w') = call_update E id current w in (stamp_answer current key answer, w')

  -- `Worker.stampMarker`
  unfoldable pub stamp_marker :
      Options → Text → ℕ → E.Resource → Worker E → (Problem E.Error ⊎ Option E.Resource) × Worker E
  unfolding call_update
  stamp_marker opts key id current w =
      if opts.dry_run then (inr none, w) else call_stamp key id current w

  abbrev stamped_hash : Text → Option E.Resource → Text
  stamped_hash hash none = hash
  stamped_hash hash (some r) = E.fingerprint r

  abbrev pub after_stamp :
      Visit E
      → E.Resource
      → ℕ
      → Text
      → Bool
      → Problem E.Error ⊎ Option E.Resource
      → Worker E
      → Report E
  after_stamp v r id hash enabled (inl p) w = (failed p, none, w)
  after_stamp v r id hash enabled (inr stamped) w =
      write_drifted v r id (stamped_hash hash stamped) enabled true true w

  -- Whether the hash was the last one written, under the same id.
  abbrev written_last : Option Entry → ℕ → Text → Bool
  written_last none id hash = false
  written_last (some e) id hash = e.id == id && e.hash =? hash

  -- Whether an existing resource needs no update; a stopped container's never does.
  unfoldable pub in_sync : Visit E → Text → E.Resource → Worker E → Bool
  in_sync v hash current w =
      not v.target.running
      || (E.fingerprint current =? hash
          || written_last (get v.kind v.key w.cache) (E.resource_id current) hash)

  abbrev pub stamp_first : Visit E → E.Resource → Text → E.Resource → Worker E → Report E
  stamp_first v r hash current w =
      let id = E.resource_id current in
      let (answer, w') = stamp_marker v.options v.key id current w in
      after_stamp v r id hash (E.is_enabled current) answer w'

  -- A desired resource that exists.
  unfoldable pub write_existing : Visit E → E.Resource → Text → E.Resource → Worker E → Report E
  unfolding stamp_marker write_drifted in_sync needs_marker
  write_existing v r hash current w =
      let stored_hash = if v.target.running then hash else E.fingerprint current in
      if not v.target.running && needs_marker current v.dialect
      then stamp_first v r stored_hash current w
      else write_drifted v r (E.resource_id current) stored_hash (E.is_enabled current)
          (in_sync v hash current w) false w
