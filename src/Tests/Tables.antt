-- ===== src/Tests/Tables.antt =====
-- The cache, the backoff and the stop policy at concrete inputs (internal/syncer).
use npmplus_docker_sync.Base.{
  ◌+◌, ◌^◌, ◌*◌, ◌≤◌, true, ◌&&◌, [], ◌∷◌, ◌≡◌, refl, none, some, List, ltb,
}
use npmplus_docker_sync.Base.Dict
use npmplus_docker_sync.Base.Text.{Text, text, ◌=?◌}
use npmplus_docker_sync.Docker.Types.{delete as delete_it}
use npmplus_docker_sync.Npm.Kind.{proxy, stream, dead}
use npmplus_docker_sync.Syncer.Backoff.{
  backoff_key, backoff_min, backoff_max, deferred, note_failure,
}
use npmplus_docker_sync.Syncer.Backoff.Laws.{
  InBounds, note_failure-InBounds, deferred-note_failure, repeated_delay, repeated,
}
use npmplus_docker_sync.Syncer.Cache.{Entry, new_cache}
use npmplus_docker_sync.Syncer.Cache.Refinement.{
  Operation, put, remove, replace, perform_all, change_all, Represents, cache-Refines,
}
use npmplus_docker_sync.Syncer.Types.{Options}
use npmplus_docker_sync.Tests.World.{options}

abbrev key : Text
key = text "app.example.org"

abbrev entry : Entry
entry = record {
  id = 7;
  hash = text "h";
  container = text "app";
  index = 0;
  enabled = true;
  certificate = 0;
  running = true;
}

no_failures-InBounds : InBounds []
unfolding Dict.lookup
no_failures-InBounds id f h = absurd (cc)

note_failure-InBounds_example :
    InBounds (note_failure proxy key (text "h") (text "400") 5 []).0
    × (backoff_min ≤ (note_failure proxy key (text "h") (text "400") 5 []).1)
    × ((note_failure proxy key (text "h") (text "400") 5 []).1 ≤ backoff_max)
    × (Dict.lookup (backoff_key proxy key) (note_failure proxy key (text "h") (text "400") 5 []).0
        ≡ some (record {
          until = 5 + (note_failure proxy key (text "h") (text "400") 5 []).1;
          delay = (note_failure proxy key (text "h") (text "400") 5 []).1;
          hash = text "h";
          reason = text "400";
        }))
note_failure-InBounds_example =
    note_failure-InBounds proxy key (text "h") (text "400") 5 [] no_failures-InBounds

deferred-note_failure_example :
    let noted = note_failure proxy key (text "h") (text "400") 5 [] in
    (deferred proxy key (text "h") 9 noted.0).0 ≡ (text "h" =? text "h" && ltb 9 (5 + noted.1))
deferred-note_failure_example =
    deferred-note_failure proxy key (text "h") (text "h") (text "400") 5 9 []

repeated_delay_example :
    Dict.lookup (backoff_key proxy key) (repeated 3 proxy key (text "h") (text "400") (λ n. n) [])
    ≡ some (record {
      until = 2 + 2 ^ 2 * backoff_min;
      delay = 2 ^ 2 * backoff_min;
      hash = text "h";
      reason = text "400";
    })
unfolding Dict.lookup
repeated_delay_example = repeated_delay 2 proxy key (text "h") (text "400") (λ n. n) [] refl

abbrev deleting : Options
deleting = record options { on_stop = delete_it }

abbrev operations : List Operation
operations = put proxy key entry ∷ remove stream key ∷ replace dead ((key, entry) ∷ []) ∷ []

cache-Refines_example :
    Represents (perform_all operations new_cache) (change_all operations (λ k key. none))
cache-Refines_example = cache-Refines operations
