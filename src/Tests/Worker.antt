-- ===== src/Tests/Worker.antt =====
-- The worker at concrete inputs (internal/syncer/worker.go).
use npmplus_docker_sync.Base.{
  ℕ, ◌+◌, ◌<◌, ◌≤◌, ◌*◌, Bool, true, false, List, [], ◌∷◌, ◌++◌, ◌≡◌, refl, arith, Option, none,
  some, inl, inr, In, here, length, keep, map, if◌then◌else◌,
}
use npmplus_docker_sync.Base.Text.{Text, text, ◌=?◌}
use npmplus_docker_sync.Syncer.Run.{Totals, reconcile, flush}
use npmplus_docker_sync.Syncer.Types.{Options, created, deleted}
use npmplus_docker_sync.Docker.Types.{Target}
use npmplus_docker_sync.Npm.Kind.{proxy, stream}
use npmplus_docker_sync.Syncer.Collection.{no_counters}
use npmplus_docker_sync.Syncer.Collection.Trace.{Grows, SafeWrite, Writes}
use npmplus_docker_sync.Syncer.Backoff.{backoff_key}
use npmplus_docker_sync.Base.Dict
use npmplus_docker_sync.Npm.Types.{Location}
use npmplus_docker_sync.Syncer.Existing.{write_existing}
use npmplus_docker_sync.Syncer.Existing.Stable.{write_existing_stable}
use npmplus_docker_sync.Syncer.Listed.{reconcile_listed}
use npmplus_docker_sync.Syncer.Listed.Laws.{
  listed_loop, HasTarget, reconcile_listed-Writes, reconcile_listed-Removable, Removable,
}
use npmplus_docker_sync.Syncer.Lookups.{resolve_access_lists}
use npmplus_docker_sync.Syncer.Lookups.Laws.{resolve_access_lists-All, AllResolved, id_of}
use npmplus_docker_sync.Syncer.Orphans.{Orphan}
use npmplus_docker_sync.Syncer.Ownership.{skip, ownership}
use npmplus_docker_sync.Syncer.Run.Laws.{reconcile-Grows, reconcile_dry, flush-Grows, AllowedCall}
use npmplus_docker_sync.Syncer.Visit.{visit}
use npmplus_docker_sync.Syncer.Visit.Trace.{scope_of, visit-Legal}
use npmplus_docker_sync.Syncer.Write.{Visit, unchanged}
use npmplus_docker_sync.Syncer.Write.Trace.{Legal, calls_of}
use npmplus_docker_sync.Tests.World.{
  world, worker, options, snapshot, app, app_host, old_host, hand_made, listed, plus,
}

reconcile-Grows_example :
    Grows
      (AllowedCall world options true (inr snapshot) worker)
      []
      (reconcile world options true worker).1.calls
reconcile-Grows_example = reconcile-Grows world options true worker

flush-Grows_example : Grows (SafeWrite options) [] (flush world options worker).1.calls
flush-Grows_example = flush-Grows world options worker

abbrev dry : Options
dry = record options { dry_run = true }

reconcile_dry_example : (reconcile world dry true worker).1.calls ≡ []
reconcile_dry_example = reconcile_dry world dry true worker refl

reconcile_listed-Writes_example :
    Writes world
      (listed_loop world options proxy (app ∷ []) snapshot listed worker)
      (HasTarget world (app ∷ []))
      []
      (reconcile_listed world options proxy (app ∷ []) snapshot listed worker).1.calls
reconcile_listed-Writes_example =
    reconcile_listed-Writes world options proxy (app ∷ []) snapshot listed worker

abbrev gone : Orphan
gone = record { kind = proxy; key = text "old.example.org"; id = 4; container = text "old" }

gone-In : In gone (reconcile_listed world options proxy (app ∷ []) snapshot listed worker).0.orphans
unfolding reconcile_listed npmplus_docker_sync.Base.Dict.lookup npmplus_docker_sync.Base.Dict.insert
    npmplus_docker_sync.Base.Dict.has_key npmplus_docker_sync.Docker.Types.key
    npmplus_docker_sync.Base.Text.trim_suffix npmplus_docker_sync.Base.Text.to_lower
    npmplus_docker_sync.Base.Text.trim_space npmplus_docker_sync.Npm.Meta.is_managed
    npmplus_docker_sync.Npm.Meta.owned_by_instance npmplus_docker_sync.Npm.Meta.text_of
gone-In = here refl

reconcile_listed-Removable_example : Removable world options proxy (app ∷ []) snapshot listed gone
reconcile_listed-Removable_example =
    reconcile_listed-Removable world options proxy (app ∷ []) snapshot listed worker gone gone-In

abbrev app_visit : Visit world
app_visit = record {
  options = options;
  kind = proxy;
  key = text "app.example.org";
  now = 1000;
  dialect = plus;
  by_domain = [];
  target = app;
}

visit-Legal_example :
    Legal world
      (scope_of world app_visit (some old_host))
      []
      (calls_of world (visit world app_visit (some old_host) worker))
visit-Legal_example = visit-Legal world app_visit (some old_host) worker

hand_made-skip : ownership world options hand_made ≡ skip
unfolding ownership npmplus_docker_sync.Npm.Meta.is_managed npmplus_docker_sync.Base.Dict.lookup
    npmplus_docker_sync.Npm.Meta.is_redth ◌=?◌ npmplus_docker_sync.Npm.Meta.owner
    npmplus_docker_sync.Npm.Meta.text_of
hand_made-skip = refl

write_existing_stable_example :
    let report = write_existing world app_visit app_host (text "app:8080") app_host worker in
    (report.0 ≡ unchanged)
    × (report.1
        ≡ some (record {
          id = 0;
          hash = text "app:8080";
          container = app.container_name;
          index = app.index;
          enabled = true;
          certificate = 0;
          running = true;
        }))
    × (record report.2 { failures = [] } ≡ worker)
    × ((id : Text)
        → Dict.lookup id report.2.failures
          ≡ (if backoff_key proxy (text "app.example.org") =? id then none else Dict.lookup id []))
write_existing_stable_example =
    write_existing_stable world app_visit app_host app_host worker refl refl refl

-- A host with a location whose access list is given by its name.
abbrev admin : Location
admin = record {
  path = text "/admin";
  location_type = [];
  advanced_config = [];
  location_config = [];
  forward_scheme = [];
  forward_host = [];
  forward_port = 0;
  access_list_ids = 4 ∷ [];
  access_list_type = [];
  access_list_names = text "FRIENDS" ∷ [];
  enabled = none;
  no_index = false;
  disable_crowdsec_appsec = false;
  disable_request_buffering = false;
  disable_response_buffering = false;
  upstream_compression = false;
  fancy_index = false;
  x_frame_options = [];
  auth_request = [];
  auth_request_upstream = [];
}

abbrev admin_by_id : Location
admin_by_id = record admin { access_list_ids = 4 ∷ 9 ∷ []; access_list_names = [] }

abbrev guarded : Target
guarded = record app { access_list_names = text " Friends " ∷ []; locations = admin ∷ [] }

abbrev guarded_by_id : Target
guarded_by_id = record app { access_list_ids = 9 ∷ []; locations = admin_by_id ∷ [] }

guarded-inr : resolve_access_lists ((text "friends", 9) ∷ []) guarded ≡ inr guarded_by_id
unfolding resolve_access_lists npmplus_docker_sync.Base.Dict.lookup ◌=?◌
    npmplus_docker_sync.Base.Text.to_lower npmplus_docker_sync.Base.Text.trim_space
guarded-inr = refl

resolve_access_lists-All_example :
    (new : List ℕ) × (map (id_of ((text "friends", 9) ∷ [])) (text " Friends " ∷ []) ≡ map some new)
    × ((9 ∷ []) ≡ [] ++ new)
    × (◌≡◌ {A = List Text} [] [])
    × AllResolved ((text "friends", 9) ∷ []) (admin ∷ []) (admin_by_id ∷ [])
resolve_access_lists-All_example =
    resolve_access_lists-All ((text "friends", 9) ∷ []) guarded guarded_by_id guarded-inr

-- One orphan of eight owned resources.
abbrev totals : Totals world
totals = record {
  result = no_counters;
  fatal = [];
  partial = [];
  orphans = gone ∷ [];
  owned = 8;
  foreign_prefix = 0;
}

-- A whole run creates the missing host and then deletes the one that is not wanted any more; the
-- host made by hand stays.
run_calls :
    (reconcile world options true worker).1.calls
    ≡ deleted proxy 4 ∷ created app_host (some (record app_host { id = 7 })) ∷ []
unfolding reconcile npmplus_docker_sync.Base.Dict.lookup npmplus_docker_sync.Base.Dict.insert
    npmplus_docker_sync.Base.Dict.has_key npmplus_docker_sync.Npm.Kind.equal_kind
    npmplus_docker_sync.Docker.Types.key npmplus_docker_sync.Base.Text.trim_suffix
    npmplus_docker_sync.Base.Text.to_lower npmplus_docker_sync.Base.Text.trim_space
    npmplus_docker_sync.Npm.Meta.is_managed npmplus_docker_sync.Npm.Meta.owned_by_instance
    npmplus_docker_sync.Npm.Meta.text_of
run_calls = refl

run_counters :
    (reconcile world options true worker).0.0
    ≡ record { created = 1; updated = 0; deleted = 1; unchanged = 0; skipped = 0; failed = 0 }
unfolding reconcile npmplus_docker_sync.Base.Dict.lookup npmplus_docker_sync.Base.Dict.insert
    npmplus_docker_sync.Base.Dict.has_key npmplus_docker_sync.Npm.Kind.equal_kind
    npmplus_docker_sync.Docker.Types.key npmplus_docker_sync.Base.Text.trim_suffix
    npmplus_docker_sync.Base.Text.to_lower npmplus_docker_sync.Base.Text.trim_space
    npmplus_docker_sync.Npm.Meta.is_managed npmplus_docker_sync.Npm.Meta.owned_by_instance
    npmplus_docker_sync.Npm.Meta.text_of
run_counters = refl
