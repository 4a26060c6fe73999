-- ===== src/Syncer/Debounce.antt =====
-- The debouncer of internal/syncer/debounce.go: its state, and what each case of the loop of `Run`
-- does. The order of the cases is the order of the inputs.
pub mod Laws
use npmplus_docker_sync.Base.{
  ℕ, ◌+◌, ◌-◌, ◌==◌, ltb, Option, none, some, List, [], ◌∷◌, ◌++◌, if◌then◌else◌, is_empty,
}

-- `Debouncer`: the quiet period, and the cap, zero for none.
pub record Debouncer : Type 0 where
  pub interval : ℕ
  pub max_wait : ℕ

-- The variables of `Run`: the pending events, when the timer fires if it is set, the deadline
-- (`none` is the zero time), and the batches that were handed over so far.
pub record State {ℓ} (T : Type ℓ) : Type ℓ where
  pub pending : List T
  pub timer : Option ℕ
  pub deadline : Option ℕ
  pub batches : List (List T)

-- What the loop receives: an event at a time, or the timer.
pub data Input {ℓ} (T : Type ℓ) : Type ℓ where
  event : ℕ → T → Input T
  fired : Input T

abbrev pub second : ℕ
second = 1000000000

-- The quiet period that `Run` uses.
unfoldable pub interval_of : Debouncer → ℕ
interval_of d = if d.interval == 0 then second else d.interval

-- The wait after an event that finds the timer set: `max` cuts a remainder below zero, and so does
-- the subtraction.
unfoldable pub wait_for : Debouncer → Option ℕ → ℕ → ℕ
unfolding interval_of
wait_for d none now = interval_of d
wait_for d (some deadline) now =
    if ltb (deadline - now) (interval_of d) then deadline - now else interval_of d

-- The deadline that the first event of a burst sets.
abbrev first_deadline : Debouncer → ℕ → Option ℕ
first_deadline d now = if d.max_wait == 0 then none else some (now + d.max_wait)

module _ {ℓ} {T : Type ℓ} where
  abbrev pub no_state : State T
  no_state = record { pending = []; timer = none; deadline = none; batches = [] }

  abbrev pub arm : Debouncer → ℕ → T → State T → Option ℕ → State T
  arm d now e s none = record s {
    pending = s.pending ++ (e ∷ []);
    timer = some (now + interval_of d);
    deadline = first_deadline d now;
  }
  arm d now e s (some t) = record s {
    pending = s.pending ++ (e ∷ []);
    timer = some (now + wait_for d s.deadline now);
  }

  -- An event arrives.
  unfoldable pub on_event : Debouncer → ℕ → T → State T → State T
  unfolding interval_of wait_for
  on_event d now e s = arm d now e s s.timer

  abbrev pub hand_over : State T → Option ℕ → State T
  hand_over s none = s
  hand_over s (some t) = record s {
    pending = [];
    timer = none;
    batches = s.batches ++ (s.pending ∷ []);
  }

  -- The timer fires. While it is not set, its channel is nil and never ready.
  unfoldable pub on_timer : State T → State T
  on_timer s = hand_over s s.timer

  -- The producer is gone: what is pending is handed over, and `Run` returns.
  unfoldable pub on_close : State T → State T
  on_close s =
      if is_empty s.pending
      then s
      else record s { pending = []; batches = s.batches ++ (s.pending ∷ []) }

  unfoldable pub step : Debouncer → Input T → State T → State T
  unfolding on_event on_timer
  step d (event now e) s = on_event d now e s
  step d fired s = on_timer s

  -- The loop of `Run` over its inputs.
  unfoldable pub pump : Debouncer → List (Input T) → State T → State T
  unfolding step
  pump d [] s = s
  pump d (i ∷ is) s = pump d is (step d i s)
