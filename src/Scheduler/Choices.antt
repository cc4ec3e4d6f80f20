-- ===== src/Scheduler/Choices.antt =====
-- What the choice of the next slot (scheduler/model.py) may return.
use mathlib.Core.List.{Memᴰ}
use mathlib.Core.List.Memᴰ.{head, tail}
use fox_runner_server.Prelude.{
  ℕ, zero, suc, ◌+◌, ◌-◌, ◌*◌, ◌≤◌, ◌<◌, String, ◌≡◌, refl, subst, Option, none, some, Bool, true,
  false, List, [], ◌∷◌, length, ltb, ltb→lt, All, Bool-cases, Option-cases, inl, inr, arith,
}
use fox_runner_server.Scheduler.Calendar.{Time, midnight, weekday, make_dt}
use fox_runner_server.Scheduler.Slots.{
  TimeSlot, contains_weekday, to_key, Candidate, Choice, chosen, value_error, runtime_error, draw,
  window_start, random_datetime_in_slot, add_candidate, candidates_of, earliest, pick_from,
  pick_next_execution, search_pending, find_next_pending_execution,
}

-- `t` lies in the slot's window of the day.
pub record IsInWindow (slot : TimeSlot) (day t : Time) : Type 0 where
  pub start : Time
  pub opens : make_dt day slot.start_hour slot.start_minute 0 ≡ some start
  pub after_start : start ≤ t
  pub stop : Time
  pub closes : make_dt day slot.end_hour slot.end_minute 0 ≡ some stop
  pub before_stop : t < stop

-- A run of one of the slots, on one of its weekdays, in its window and later than `now`.
pub record IsServed (now : Time) (slots : List TimeSlot) (c : Candidate) : Type 0 where
  pub listed : Memᴰ c.slot slots
  pub on_weekday : contains_weekday c.slot (weekday c.day) ≡ true
  pub in_window : IsInWindow c.slot c.day c.next_run
  pub later : now < c.next_run

IsServed-earlier :
    (now probe : Time) (slots : List TimeSlot) (c : Candidate)
    → now ≤ probe
    → IsServed probe slots c
    → IsServed now slots c
IsServed-earlier now probe slots c le s = record {
  listed = s.listed;
  on_weekday = s.on_weekday;
  in_window = s.in_window;
  later = omega (arith, le, s.later);
}

make_dt-second :
    (day hour minute a b : ℕ)
    → make_dt day hour minute 0 ≡ some a
    → make_dt day hour minute 1 ≡ some b
    → a ≤ b
unfolding make_dt
make_dt-second day hour minute a b ha hb = ground arith

later_slot :
    (now : Time) (slot : TimeSlot) (slots : List TimeSlot) (c : Candidate)
    → IsServed now slots c
    → IsServed now (slot ∷ slots) c
later_slot now slot slots c s = record {
  listed = tail s.listed;
  on_weekday = s.on_weekday;
  in_window = s.in_window;
  later = s.later;
}

later_slots :
    (now : Time) (slot : TimeSlot) (slots : List TimeSlot) (cs : List Candidate)
    → All (IsServed now slots) cs
    → All (IsServed now (slot ∷ slots)) cs
later_slots now slot slots [] all = tt
later_slots now slot slots (c ∷ cs) all =
    (later_slot now slot slots c all.0, later_slots now slot slots cs all.1)

-- A predicate on the result of a chain of options that holds whenever there is a result.
abbrev Returns {ℓ κ} : {A : Type ℓ} → (A → Type κ) → Option A → Type κ
Returns P none = Unit
Returns P (some a) = P a

-- Every candidate of a day's result is a run of one of the slots.
abbrev AllServed {ℓ} : {R : Type ℓ} → Time → List TimeSlot → Option (List Candidate × R) → Type 0
AllServed now slots none = Unit
AllServed now slots (some (cs, r)) = All (IsServed now slots) cs

AllServed-cons {ℓ} :
    {R : Type ℓ} (now : Time) (slot : TimeSlot) (slots : List TimeSlot)
    (o : Option (List Candidate × R))
    → AllServed now slots o
    → AllServed now (slot ∷ slots) o
AllServed-cons now slot slots none all = tt
AllServed-cons now slot slots (some (cs, r)) all = later_slots now slot slots cs all

module _ {R : Type 0} (randint : R → ℕ → ℕ × R)
    (fair : (r : R) (top : ℕ) → (randint r top).0 ≤ top) where
  draw-bounds :
      (r : R) (start end : Time)
      → Returns (λ (t : Time). (start ≤ t) × (t < end)) (draw randint r start end).0
  unfolding draw
  draw-bounds r start end = ground (arith, fair r (end - start - 1))

  window_start-le : (day start : Time) (now : Option Time) → start ≤ window_start day start now
  unfolding window_start
  window_start-le day start none = omega arith
  window_start-le day start (some now) = ground arith

  windowed :
      (day : Time) (slot : TimeSlot) (start end : Time)
      → make_dt day slot.start_hour slot.start_minute 0 ≡ some start
      → make_dt day slot.end_hour slot.end_minute 0 ≡ some end
      → (from : Time) → start ≤ from
      → (o : Option Time) → Returns (λ (t : Time). (from ≤ t) × (t < end)) o
      → Returns (IsInWindow slot day) o
  windowed day slot start end opens closes from after none b = tt
  windowed day slot start end opens closes from after (some t) b = record {
    start = start;
    opens = opens;
    after_start = omega (arith, after, b.0);
    stop = end;
    closes = closes;
    before_stop = b.1;
  }

  random_datetime_in_slot-IsInWindow :
      (r : R) (day : Time) (slot : TimeSlot) (now : Option Time)
      → Returns
          (λ (out : Option Time × R). Returns (IsInWindow slot day) out.0)
          (random_datetime_in_slot randint r day slot now)
  unfolding random_datetime_in_slot
  random_datetime_in_slot-IsInWindow r day slot now =
      elim (Option-cases (make_dt day slot.start_hour slot.start_minute 0)) [
        | inl fails ↦ rw fails tt
        | inr (start, opens) ↦ elim (Option-cases (make_dt day slot.end_hour slot.end_minute 0)) [
          | inl fails ↦ rw (opens, fails) tt
          | inr (end, closes) ↦
              rw (opens, closes)
                (windowed day slot start end opens closes _ (window_start-le day start now) _
                  (draw-bounds r (window_start day start now) end))
        ]
      ]

  add_candidate-IsServed :
      (now day : Time) (slot : TimeSlot) (slots : List TimeSlot) (o : Option Time)
      (rest : List Candidate)
      → contains_weekday slot (weekday day) ≡ true
      → Returns (IsInWindow slot day) o
      → All (IsServed now slots) rest
      → All (IsServed now (slot ∷ slots)) (add_candidate now slot day o rest)
  unfolding add_candidate
  add_candidate-IsServed now day slot slots none rest on w all = later_slots now slot slots rest all
  add_candidate-IsServed now day slot slots (some t) rest on w all = elim (Bool-cases (ltb now t)) [
    | inr early ↦ rw early (later_slots now slot slots rest all)
    | inl late ↦ rw late (
      record { listed = head refl; on_weekday = on; in_window = w; later = ltb→lt now t late },
      later_slots now slot slots rest all,
    )
  ]

  candidates_of-IsServed :
      (r : R) (now day : Time) (slots : List TimeSlot)
      → AllServed now slots (candidates_of randint r now day slots)
  unfolding candidates_of
  candidates_of-IsServed r now day [] = tt
  candidates_of-IsServed r now day (slot ∷ slots) =
      elim (Bool-cases (contains_weekday slot (weekday day))) [
        | inr off ↦
            rw (off, candidates_of)
              (AllServed-cons now slot slots (candidates_of randint r now day slots)
                (candidates_of-IsServed r now day slots))
        | inl on ↦ elim (Option-cases (random_datetime_in_slot randint r day slot (some now))) [
          | inl fails ↦ rw (on, fails, candidates_of) tt
          | inr ((candidate, r'), draws) ↦
              elim (Option-cases (candidates_of randint r' now day slots)) [
                | inl fails ↦ rw (on, candidates_of, draws, fails) tt
                | inr ((rest, r''), gives) ↦
                    rw (on, candidates_of, draws, gives)
                      (add_candidate-IsServed now day slot slots candidate rest on
                        (subst
                          (Returns (λ (out : Option Time × R). Returns (IsInWindow slot day) out.0))
                          draws (random_datetime_in_slot-IsInWindow r day slot (some now)))
                        (subst (AllServed now slots) gives
                          (candidates_of-IsServed r' now day slots)))
              ]
        ]
      ]

  earliest-IsServed :
      (now : Time) (slots : List TimeSlot) (c : Candidate) (cs : List Candidate)
      → IsServed now slots c
      → All (IsServed now slots) cs
      → IsServed now slots (earliest c cs)
  unfolding earliest
  earliest-IsServed now slots c [] s all = s
  earliest-IsServed now slots c (d ∷ ds) s all = elim (Bool-cases (ltb d.next_run c.next_run)) [
    | inl sooner ↦ rw (sooner, earliest) (earliest-IsServed now slots d ds all.0 all.1)
    | inr later ↦ rw (later, earliest) (earliest-IsServed now slots c ds s all.1)
  ]

  -- what a choice may be
  abbrev Chosen : (Candidate → Type 0) → Choice R → Type 0
  Chosen P (chosen c r) = P c
  Chosen P value_error = Unit
  Chosen P (runtime_error message) = Unit

  pick_from-IsServed :
      (r : R) (now : Time) (slots : List TimeSlot) (day : Time) (left : ℕ)
      → Chosen (IsServed now slots) (pick_from randint r now slots day left)
  unfolding pick_from
  pick_from-IsServed r now slots day zero = tt
  pick_from-IsServed r now slots day (suc left) =
      elim (Option-cases (candidates_of randint r now day slots)) [
        | inl fails ↦ rw (fails, pick_from) tt
        | inr (([], r'), gives) ↦
            rw (gives, pick_from) (pick_from-IsServed r' now slots (day + 86400) left)
        | inr ((c ∷ cs, r'), gives) ↦
            let all = subst (AllServed now slots) gives (candidates_of-IsServed r now day slots) in
            rw (gives, pick_from) (earliest-IsServed now slots c cs all.0 all.1)
      ]

  -- the next second after the window lies after `now`
  probe-le :
      (now : Time) (slots : List TimeSlot) (c : Candidate) (probe : Time)
      → IsServed now slots c
      → make_dt c.day c.slot.end_hour c.slot.end_minute 1 ≡ some probe
      → now ≤ probe
  probe-le now slots c probe s next = omega (
    arith,
    s.later,
    s.in_window.before_stop,
    make_dt-second c.day c.slot.end_hour c.slot.end_minute s.in_window.stop probe s.in_window.closes
        next,
  )

  search_pending-IsServed :
      (r : R) (now probe : Time) (slots : List TimeSlot) (is_slot_executed : String → Bool)
      (lookahead_days left : ℕ)
      → now ≤ probe
      → Chosen
          (λ (c : Candidate).
            IsServed now slots c × (is_slot_executed (to_key c.slot c.day) ≡ false))
          (search_pending randint r probe slots is_slot_executed lookahead_days left)
  unfolding search_pending
  search_pending-IsServed r now probe slots done lookahead zero le = tt
  search_pending-IsServed r now probe slots done lookahead (suc left) le =
      round (pick_next_execution randint r probe slots lookahead)
        (unfold pick_next_execution in pick_from-IsServed r probe slots (midnight probe) lookahead)
        refl (λ r' probe' le'. search_pending-IsServed r' now probe' slots done lookahead left le')
    where
      Pending : Candidate → Type 0
      Pending c = IsServed now slots c × (done (to_key c.slot c.day) ≡ false)

      round :
          (picked : Choice R)
          → Chosen (IsServed probe slots) picked
          → pick_next_execution randint r probe slots lookahead ≡ picked
          → ((r' : R) (probe' : Time)
              → now ≤ probe'
              → Chosen Pending (search_pending randint r' probe' slots done lookahead left))
          → Chosen Pending (search_pending randint r probe slots done lookahead (suc left))
      round value_error s e again = rw (e, search_pending) tt
      round (runtime_error message) s e again = rw (e, search_pending) tt
      round (chosen c r') s e again =
          let served = IsServed-earlier now probe slots c le s in
          elim (Bool-cases (done (to_key c.slot c.day))) [
            | inr pending ↦ rw (e, search_pending, pending) (served, pending)
            | inl executed ↦
                elim (Option-cases (make_dt c.day c.slot.end_hour c.slot.end_minute 1)) [
                  | inl fails ↦ rw (e, search_pending, executed, fails) tt
                  | inr (probe', next) ↦
                      rw (e, search_pending, executed, next)
                        (again r' probe' (probe-le now slots c probe' served next))
                ]
          ]

  -- The search for the next pending run, if it chooses one, chooses a listed slot on one of the
  -- slot's weekdays, at a time in the slot's window of that day and later than `now`, whose key has
  -- not been executed; this supposes that `randint` stays within its bounds.
  pub find_next_pending_execution-IsServed :
      (r : R) (now : Time) (slots : List TimeSlot) (is_slot_executed : String → Bool)
      (lookahead_days : ℕ) (c : Candidate) (r' : R)
      → find_next_pending_execution randint r now slots is_slot_executed lookahead_days
        ≡ chosen c r'
      → IsServed now slots c × (is_slot_executed (to_key c.slot c.day) ≡ false)
  unfolding find_next_pending_execution
  find_next_pending_execution-IsServed r now slots done lookahead c r' chooses =
      subst
        (Chosen (λ (c : Candidate). IsServed now slots c × (done (to_key c.slot c.day) ≡ false)))
        chooses
        (search_pending-IsServed r now now slots done lookahead (length slots * lookahead + 1)
          (omega arith))
