-- ===== src/Syncer/Debounce/Laws.antt =====
-- The debouncer (internal/syncer/debounce.go) loses no event, and hands a batch over in time.
use mathlib.Core.Path.{subst}
use npmplus_docker_sync.Base.{
  ℕ, ◌+◌, ◌<◌, ◌≤◌, Option, none, some, List, [], ◌∷◌, ◌++◌, ◌≡◌, refl, sym, ap, ◌∙◌, ◌⊎◌, inl,
  arith, if◌then◌else◌, is_empty,
}
use npmplus_docker_sync.Syncer.Debounce.{
  Debouncer, State, Input, event, fired, interval_of, wait_for, no_state, arm, on_event, hand_over,
  on_timer, on_close, step, pump,
}

module _ {ℓ} {T : Type ℓ} where
  -- The events of the inputs, in their order.
  abbrev pub events : List (Input T) → List T
  events [] = []
  events (event now e ∷ is) = e ∷ events is
  events (fired ∷ is) = events is

  abbrev pub flat : List (List T) → List T
  flat [] = []
  flat (b ∷ bs) = b ++ flat bs

  -- All events that the state has seen: those handed over, then those pending.
  abbrev pub seen : State T → List T
  seen s = flat s.batches ++ s.pending

  append_assoc : (xs ys zs : List T) → (xs ++ ys) ++ zs ≡ xs ++ (ys ++ zs)
  append_assoc [] ys zs = refl
  append_assoc (x ∷ xs) ys zs = ap (λ l. x ∷ l) (append_assoc xs ys zs)

  append-nil : (xs : List T) → xs ++ [] ≡ xs
  append-nil [] = refl
  append-nil (x ∷ xs) = ap (λ l. x ∷ l) (append-nil xs)

  flat-append : (bs : List (List T)) (b : List T) → flat (bs ++ (b ∷ [])) ≡ flat bs ++ b
  flat-append [] b = append-nil b
  flat-append (c ∷ bs) b = ap (λ l. c ++ l) (flat-append bs b) ∙ sym (append_assoc c (flat bs) b)

  seen-arm :
      (d : Debouncer) (now : ℕ) (e : T) (s : State T) (t : Option ℕ)
      → seen (arm d now e s t) ≡ seen s ++ (e ∷ [])
  seen-arm d now e s none = sym (append_assoc (flat s.batches) s.pending (e ∷ []))
  seen-arm d now e s (some t) = sym (append_assoc (flat s.batches) s.pending (e ∷ []))

  seen-hand_over : (s : State T) (t : Option ℕ) → seen (hand_over s t) ≡ seen s
  seen-hand_over s none = refl
  seen-hand_over s (some t) =
      append-nil (flat (s.batches ++ (s.pending ∷ []))) ∙ flat-append s.batches s.pending

  seen-pump :
      (d : Debouncer) (is : List (Input T)) (s : State T) → seen (pump d is s) ≡ seen s ++ events is
  unfolding pump step on_event on_timer
  seen-pump d [] s = sym (append-nil (seen s))
  seen-pump d (event now e ∷ is) s =
      seen-pump d is (arm d now e s s.timer)
      ∙ ap (λ l. l ++ events is) (seen-arm d now e s s.timer)
      ∙ append_assoc (seen s) (e ∷ []) (events is)
  seen-pump d (fired ∷ is) s =
      seen-pump d is (hand_over s s.timer) ∙ ap (λ l. l ++ events is) (seen-hand_over s s.timer)

  close_step :
      (s : State T) (p : List T)
      → s.pending ≡ p
      → flat
          (if◌then◌else◌ {A = State T}
            (is_empty p)
            s
            (record s { pending = []; batches = s.batches ++ (s.pending ∷ []) })).batches
        ≡ seen s
  close_step s [] h = sym (ap (λ l. flat s.batches ++ l) h ∙ append-nil (flat s.batches))
  close_step s (e ∷ es) h = flat-append s.batches s.pending

  -- When the producer closes its channel, the batches handed over are exactly the events that
  -- arrived, in their order: none is lost, doubled or moved, however often the timer fired.
  pub pump-close :
      (d : Debouncer) (is : List (Input T))
      → flat (on_close (pump d is no_state)).batches ≡ events is
  unfolding on_close
  pump-close d is =
      close_step (pump d is no_state) (pump d is no_state).pending refl ∙ seen-pump d is no_state

  -- A burst: the events that arrive, with their times, while the timer does not fire.
  abbrev pub burst : Debouncer → List (ℕ × T) → State T → State T
  burst d [] s = s
  burst d ((now, e) ∷ es) s = burst d es (on_event d now e s)

  -- The time of the last event.
  abbrev last_of : ℕ → List (ℕ × T) → ℕ
  last_of now [] = now
  last_of now ((later, e) ∷ es) = last_of later es

  -- The timer is set; it fires at most one quiet period after the last event, and no later than
  -- the deadline or, once that has passed, at once.
  pub record InTime (d : Debouncer) (deadline last : ℕ) (s : State T) : Type ℓ where
    pub fires : ℕ
    pub timer_is : s.timer ≡ some fires
    pub deadline_is : s.deadline ≡ some deadline
    pub capped : (fires ≤ deadline) ⊎ (fires ≡ last)
    pub quiet : fires ≤ last + interval_of d

  event-InTime :
      (d : Debouncer) (deadline last now : ℕ) (e : T) (s : State T)
      → InTime d deadline last s
      → InTime d deadline now (on_event d now e s)
  unfolding on_event wait_for
  event-InTime d deadline last now e s i =
      subst (λ t. InTime d deadline now (arm d now e s t)) (sym i.timer_is)
        (record {
          fires = now + wait_for d (some deadline) now;
          timer_is = ap (λ o. some (now + wait_for d o now)) i.deadline_is;
          deadline_is = i.deadline_is;
          capped = ground arith;
          quiet = ground arith;
        })

  burst-InTime_step :
      (d : Debouncer) (deadline last : ℕ) (es : List (ℕ × T)) (s : State T)
      → InTime d deadline last s
      → InTime d deadline (last_of last es) (burst d es s)
  burst-InTime_step d deadline last [] s i = i
  burst-InTime_step d deadline last ((now, e) ∷ es) s i =
      burst-InTime_step d deadline now es (on_event d now e s)
        (event-InTime d deadline last now e s i)

  -- With a cap that is no shorter than the quiet period, a burst is handed over at most one quiet
  -- period after its last event, and at most the cap after its first one - or at once, where an
  -- event arrives after that.
  pub burst-InTime :
      (d : Debouncer) (now : ℕ) (e : T) (es : List (ℕ × T))
      → 0 < d.max_wait
      → interval_of d ≤ d.max_wait
      → InTime d (now + d.max_wait) (last_of now es) (burst d ((now, e) ∷ es) no_state)
  unfolding on_event
  burst-InTime d now e es capped fits =
      burst-InTime_step d (now + d.max_wait) now es (on_event d now e no_state) (record {
        fires = now + interval_of d;
        timer_is = refl;
        deadline_is = ground arith;
        capped = inl (omega (arith, fits));
        quiet = omega arith;
      })
