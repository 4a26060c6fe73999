-- ===== src/Tests/Events.antt =====
-- The debouncer at concrete inputs (internal/syncer/debounce.go).
use npmplus_docker_sync.Base.{ℕ, List, [], ◌∷◌, ◌≡◌, arith}
use npmplus_docker_sync.Syncer.Debounce.{
  Debouncer, Input, event, fired, no_state, pump, on_close, interval_of,
}
use npmplus_docker_sync.Syncer.Debounce.Laws.{pump-close, burst-InTime, InTime, burst, events, flat}

abbrev quick : Debouncer
quick = record { interval = 3; max_wait = 30 }

abbrev inputs : List (Input ℕ)
inputs = event 1 7 ∷ event 2 8 ∷ fired ∷ event 9 5 ∷ []

pump-close_example : flat (on_close (pump quick inputs no_state)).batches ≡ events inputs
pump-close_example = pump-close quick inputs

abbrev later : List (ℕ × ℕ)
later = (2, 8) ∷ (9, 5) ∷ []

burst-InTime_example : InTime {T = ℕ} quick 31 9 (burst quick ((1, 7) ∷ later) no_state)
unfolding interval_of
burst-InTime_example = burst-InTime quick 1 7 later (ground arith) (ground arith)
