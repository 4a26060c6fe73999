-- ===== src/Syncer/Backoff.antt =====
-- The backoff of a resource that the API rejects (internal/syncer/resolve.go). Times are in
-- nanoseconds.
pub mod Laws
use npmplus_docker_sync.Base.{
  ℕ, ◌+◌, ◌-◌, ◌*◌, ◌^◌, Bool, true, false, ◌&&◌, Option, none, some, List, [], ◌∷◌, ◌++◌, not,
  if◌then◌else◌, ltb,
}
use npmplus_docker_sync.Base.Dict
use npmplus_docker_sync.Base.Dict.{Dict}
use npmplus_docker_sync.Base.Text.{Text, ◌=?◌}
use npmplus_docker_sync.Npm.Kind.{Kind, to_text}

abbrev second : ℕ
second = 10 ^ 9

abbrev pub backoff_min : ℕ
backoff_min = 30 * second

abbrev pub backoff_max : ℕ
backoff_max = 30 * (60 * second)

-- `failure`
pub record Failure : Type 0 where
  pub until : ℕ
  pub delay : ℕ
  pub hash : Text
  pub reason : Text

-- `backoffKey`
unfoldable pub backoff_key : Kind → Text → Text
unfolding to_text
backoff_key k key = to_text k ++ (b'|' ∷ key)

-- `Worker.deferred`: whether to wait, how long, and the failures, of which a changed
-- configuration clears its own.
unfoldable pub deferred_id : Text → Text → ℕ → Dict Failure → Bool × ℕ × Dict Failure
deferred_id id hash now failures = elim (Dict.lookup id failures) [
  | none ↦ (false, 0, failures)
  | some f ↦
      if not (f.hash =? hash)
      then (false, 0, Dict.erase id failures)
      else if ltb now f.until
      then (true, f.until - now, failures)
      else (false, 0, failures)
]

unfoldable pub deferred : Kind → Text → Text → ℕ → Dict Failure → Bool × ℕ × Dict Failure
unfolding deferred_id
deferred k key hash now failures = deferred_id (backoff_key k key) hash now failures

-- The delay that `Worker.noteFailure` chooses.
unfoldable pub next_delay : Option Failure → Text → ℕ
next_delay none hash = backoff_min
next_delay (some f) hash =
    if f.hash =? hash
    then (if ltb backoff_max (f.delay * 2) then backoff_max else f.delay * 2)
    else backoff_min

-- `Worker.noteFailure`
unfoldable pub note_failure : Kind → Text → Text → Text → ℕ → Dict Failure → Dict Failure × ℕ
unfolding next_delay
note_failure k key hash reason now failures =
    let id = backoff_key k key in
    let delay = next_delay (Dict.lookup id failures) hash in
    (
      Dict.insert id (record { until = now + delay; delay = delay; hash = hash; reason = reason })
          failures,
      delay,
    )

-- `Worker.noteSuccess`
unfoldable pub note_success : Kind → Text → Dict Failure → Dict Failure
note_success k key failures = Dict.erase (backoff_key k key) failures
