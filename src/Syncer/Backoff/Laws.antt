-- ===== src/Syncer/Backoff/Laws.antt =====
-- The delays of the backoff and what is remembered of failures (internal/syncer/resolve.go).
use Prim.Native.Nat.{min}
use native.Mathlib.Nat.{pow-suc}
use npmplus_docker_sync.Base.{
  ℕ, ◌+◌, ◌*◌, ◌^◌, ◌≤◌, ◌&&◌, Option, none, some, ◌≡◌, refl, arith, if◌then◌else◌, ltb, zero, suc,
  ap, ◌∙◌,
}
use npmplus_docker_sync.Base.Dict
use npmplus_docker_sync.Base.Dict.{Dict}
use npmplus_docker_sync.Base.Text.{Text, ◌=?◌, =?_refl}
use npmplus_docker_sync.Npm.Kind.{Kind}
use npmplus_docker_sync.Syncer.Backoff.{
  backoff_min, backoff_max, Failure, backoff_key, deferred, deferred_id, next_delay, note_failure,
}

-- Every failure that is remembered has a delay within the bounds.
abbrev pub InBounds : Dict Failure → Type 0
InBounds failures =
    (id : Text) (f : Failure)
    → Dict.lookup id failures ≡ some f
    → (backoff_min ≤ f.delay) × (f.delay ≤ backoff_max)

next_delay_bounds :
    (o : Option Failure) (hash : Text)
    → ((f : Failure) → o ≡ some f → (backoff_min ≤ f.delay) × (f.delay ≤ backoff_max))
    → (backoff_min ≤ next_delay o hash) × (next_delay o hash ≤ backoff_max)
unfolding next_delay
next_delay_bounds none hash h = (omega arith, omega arith)
next_delay_bounds (some f) hash h = let k = h f refl in ground arith

-- A failure is remembered until now plus the delay that is returned, and this delay and all others
-- that are remembered stay between thirty seconds and thirty minutes.
pub note_failure-InBounds :
    (k : Kind) (key hash reason : Text) (now : ℕ) (failures : Dict Failure)
    → InBounds failures
    → InBounds (note_failure k key hash reason now failures).0
      × (backoff_min ≤ (note_failure k key hash reason now failures).1)
      × ((note_failure k key hash reason now failures).1 ≤ backoff_max)
      × (Dict.lookup (backoff_key k key) (note_failure k key hash reason now failures).0
          ≡ some (record {
            until = now + (note_failure k key hash reason now failures).1;
            delay = (note_failure k key hash reason now failures).1;
            hash = hash;
            reason = reason;
          }))
unfolding note_failure
note_failure-InBounds k key hash reason now failures h = (
  λ id f e. inserted id f (Dict.lookup-insert (backoff_key k key) id _ failures) e,
  bounds.0,
  bounds.1,
  Dict.lookup-insert_self (backoff_key k key) _ failures,
)
  where
    bounds :
        (backoff_min ≤ next_delay (Dict.lookup (backoff_key k key) failures) hash)
        × (next_delay (Dict.lookup (backoff_key k key) failures) hash ≤ backoff_max)
    bounds =
        next_delay_bounds (Dict.lookup (backoff_key k key) failures) hash (h (backoff_key k key))

    inserted :
        (id : Text) (f : Failure) {m : Option Failure}
        → m ≡ (
            if backoff_key k key =? id
            then some (record {
              until = now + next_delay (Dict.lookup (backoff_key k key) failures) hash;
              delay = next_delay (Dict.lookup (backoff_key k key) failures) hash;
              hash = hash;
              reason = reason;
            })
            else Dict.lookup id failures)
        → m ≡ some f
        → (backoff_min ≤ f.delay) × (f.delay ≤ backoff_max)
    inserted id f e e' = ground (arith, h id f, bounds)

deferred_of_lookup :
    (id hash : Text) (now : ℕ) (f : Failure) (failures : Dict Failure)
    → Dict.lookup id failures ≡ some f
    → (deferred_id id hash now failures).0 ≡ (f.hash =? hash && ltb now f.until)
unfolding deferred_id
deferred_of_lookup id hash now f failures e = rw (e, deferred_id) (ground arith)

-- Right after a failure, a configuration has to wait exactly if it is the one that failed and
-- the delay has not passed: a changed one is tried at once.
pub deferred-note_failure :
    (k : Kind) (key hash other reason : Text) (now later : ℕ) (failures : Dict Failure)
    → let noted = note_failure k key hash reason now failures in
      (deferred k key other later noted.0).0 ≡ (hash =? other && ltb later (now + noted.1))
unfolding deferred note_failure
deferred-note_failure k key hash other reason now later failures =
    deferred_of_lookup (backoff_key k key) other later _ _
      (Dict.lookup-insert_self (backoff_key k key) _ failures)

-- The failures of one configuration in a row, at the given times.
abbrev pub repeated : ℕ → Kind → Text → Text → Text → (ℕ → ℕ) → Dict Failure → Dict Failure
repeated zero k key hash reason at failures = failures
repeated (suc n) k key hash reason at failures =
    (note_failure k key hash reason (at n) (repeated n k key hash reason at failures)).0

doubled :
    (n : ℕ)
    → min (min (backoff_min * 2 ^ n) backoff_max * 2) backoff_max
      ≡ min (backoff_min * 2 ^ suc n) backoff_max
doubled n = let e = pow-suc 2 n in omega (arith, e)

next_delay_same : (f : Failure) → next_delay (some f) f.hash ≡ min (f.delay * 2) backoff_max
unfolding next_delay
next_delay_same f = rw =?_refl (ground arith)

-- The n-th failure in a row of one configuration is remembered with thirty seconds doubled n - 1
-- times, and at most thirty minutes.
pub repeated_delay :
    (n : ℕ) (k : Kind) (key hash reason : Text) (at : ℕ → ℕ) (failures : Dict Failure)
    → Dict.lookup (backoff_key k key) failures ≡ none
    → Dict.lookup (backoff_key k key) (repeated (suc n) k key hash reason at failures)
      ≡ some (record {
        until = at n + min (backoff_min * 2 ^ n) backoff_max;
        delay = min (backoff_min * 2 ^ n) backoff_max;
        hash = hash;
        reason = reason;
      })
unfolding note_failure
repeated_delay zero k key hash reason at failures h =
    Dict.lookup-insert_self (backoff_key k key) _ failures
    ∙ rw (h, next_delay)
        (ap (λ d. some (record { until = at 0 + d; delay = d; hash = hash; reason = reason }))
          (omega arith))
repeated_delay (suc n) k key hash reason at failures h =
    Dict.lookup-insert_self (backoff_key k key) _ (repeated (suc n) k key hash reason at failures)
    ∙ ap (λ d. some (record { until = at (suc n) + d; delay = d; hash = hash; reason = reason }))
        (ap (λ o. next_delay o hash) (repeated_delay n k key hash reason at failures h)
          ∙ next_delay_same (record {
            until = at n + min (backoff_min * 2 ^ n) backoff_max;
            delay = min (backoff_min * 2 ^ n) backoff_max;
            hash = hash;
            reason = reason;
          })
          ∙ doubled n)
