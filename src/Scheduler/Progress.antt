-- ===== src/Scheduler/Progress.antt =====
-- When the choice of the next slot (scheduler/model.py) succeeds, and when it misses a slot.
use mathlib.Core.List.{Memᴰ}
use mathlib.Core.List.Memᴰ.{head, tail}
use fox_runner_server.Prelude.{
  ℕ, zero, suc, ◌+◌, ◌-◌, ◌*◌, ◌<◌, ◌≡◌, refl, ap, subst, Option, none, some, true, List, [], ◌∷◌,
  ltb, lt→ltb, All, Bool-cases, Option-cases, inl, inr, arith,
}
use fox_runner_server.Scheduler.Calendar.{Time, day_of, midnight, weekday, make_dt}
use fox_runner_server.Scheduler.Slots.{
  TimeSlot, contains_weekday, Candidate, chosen, draw, window_start, random_datetime_in_slot,
  add_candidate, candidates_of, earliest, pick_from, pick_next_execution,
}

-- The slot's bounds are times of day.
pub record IsClock (slot : TimeSlot) : Type 0 where
  pub start_hour : slot.start_hour < 24
  pub start_minute : slot.start_minute < 60
  pub end_hour : slot.end_hour < 24
  pub end_minute : slot.end_minute < 60

-- The slot is open for some seconds of the day, which begins after `now`.
pub record IsOpen (now day : Time) (slot : TimeSlot) : Type 0 where
  pub on_weekday : contains_weekday slot (weekday day) ≡ true
  pub not_empty : slot.start_hour * 60 + slot.start_minute < slot.end_hour * 60 + slot.end_minute
  pub begins_later : now < midnight day

make_dt-valid :
    (day hour minute : ℕ)
    → hour < 24
    → minute < 60
    → make_dt day hour minute 0 ≡ some (midnight day + hour * 3600 + minute * 60)
unfolding make_dt
make_dt-valid day hour minute h m = ground arith

window_start-future :
    (day start now : Time) → now < start → window_start day start (some now) ≡ start
unfolding window_start
window_start-future day start now h = ground arith

add_candidate-cons :
    (now day : Time) (slot : TimeSlot) (o : Option Time) (c : Candidate) (cs : List Candidate)
    → (c' : Candidate) × (cs' : List Candidate) × (add_candidate now slot day o (c ∷ cs) ≡ c' ∷ cs')
unfolding add_candidate
add_candidate-cons now day slot none c cs = (c, cs, refl)
add_candidate-cons now day slot (some t) c cs = elim (Bool-cases (ltb now t)) [
  | inl late ↦ rw late (_, c ∷ cs, refl)
  | inr early ↦ rw early (c, cs, refl)
]

module _ {R : Type 0} (randint : R → ℕ → ℕ × R) where
  draw-open :
      (r : R) (start end : Time)
      → start < end
      → draw randint r start end
        ≡ (some (start + (randint r (end - start - 1)).0), (randint r (end - start - 1)).1)
  unfolding draw
  draw-open r start end h = ground arith

  random_datetime_in_slot-total :
      (r : R) (day : Time) (slot : TimeSlot) (now : Option Time)
      → IsClock slot
      → (out : Option Time × R) × (random_datetime_in_slot randint r day slot now ≡ some out)
  unfolding random_datetime_in_slot
  random_datetime_in_slot-total r day slot now k =
      rw
        (
          make_dt-valid day slot.start_hour slot.start_minute k.start_hour k.start_minute,
          make_dt-valid day slot.end_hour slot.end_minute k.end_hour k.end_minute,
        )
        (_, refl)

  -- An open slot is drawn from, at a time after `now`.
  random_datetime_in_slot-open :
      (r : R) (day now : Time) (slot : TimeSlot)
      → IsClock slot
      → IsOpen now day slot
      → (t : Time) × (r' : R) × (random_datetime_in_slot randint r day slot (some now)
          ≡ some (some t, r'))
        × (now < t)
  unfolding random_datetime_in_slot
  random_datetime_in_slot-open r day now slot k o =
      let start = midnight day + slot.start_hour * 3600 + slot.start_minute * 60 in
      let end = midnight day + slot.end_hour * 3600 + slot.end_minute * 60 in
      let later : now < start = omega (arith, o.begins_later) in
      rw
        (
          make_dt-valid day slot.start_hour slot.start_minute k.start_hour k.start_minute,
          make_dt-valid day slot.end_hour slot.end_minute k.end_hour k.end_minute,
          window_start-future day start now later,
          draw-open r start end (omega (arith, o.not_empty)),
        )
        (_, _, refl, omega (arith, later))

  candidates_of-total :
      (r : R) (now day : Time) (slots : List TimeSlot)
      → All IsClock slots
      → (out : List Candidate × R) × (candidates_of randint r now day slots ≡ some out)
  unfolding candidates_of
  candidates_of-total r now day [] k = (_, refl)
  candidates_of-total r now day (slot ∷ slots) k =
      elim (Bool-cases (contains_weekday slot (weekday day))) [
        | inr off ↦
            let (out, gives) = candidates_of-total r now day slots k.1 in
            (out, rw (off, candidates_of) gives)
        | inl on ↦
            let ((t, r'), draws) = random_datetime_in_slot-total r day slot (some now) k.0 in
            let (out, gives) = candidates_of-total r' now day slots k.1 in
            ((add_candidate now slot day t out.0, out.1), rw (on, candidates_of, draws, gives) refl)
      ]

  -- A day with an open slot has a candidate.
  candidates_of-open :
      (r : R) (now day : Time) (slots : List TimeSlot) (slot : TimeSlot)
      → All IsClock slots
      → Memᴰ slot slots
      → IsOpen now day slot
      → (c : Candidate) × (cs : List Candidate) × (r' : R) × (candidates_of randint r now day slots
          ≡ some (c ∷ cs, r'))
  unfolding candidates_of add_candidate
  candidates_of-open r now day [] slot k m o = elim m [ ]
  candidates_of-open r now day (first ∷ slots) slot k (head e) o =
      let o' = subst (IsOpen now day) e o in
      let (t, r', draws, late) = random_datetime_in_slot-open r day now first k.0 o' in
      let ((rest, r''), gives) = candidates_of-total r' now day slots k.1 in
      (
        record { next_run = t; slot = first; day = day },
        rest,
        r'',
        rw (o'.on_weekday, candidates_of, draws, gives, lt→ltb now t late) refl,
      )
  candidates_of-open r now day (first ∷ slots) slot k (tail m) o =
      elim (Bool-cases (contains_weekday first (weekday day))) [
        | inr off ↦
            let (c, cs, r', gives) = candidates_of-open r now day slots slot k.1 m o in
            (c, cs, r', rw (off, candidates_of) gives)
        | inl on ↦
            let ((t, r'), draws) = random_datetime_in_slot-total r day first (some now) k.0 in
            let (c, cs, r'', gives) = candidates_of-open r' now day slots slot k.1 m o in
            let (c', cs', adds) = add_candidate-cons now day first t c cs in
            (c', cs', r'', rw (on, candidates_of, draws, gives, adds) refl)
      ]

  first_day : (day : Time) → day + 0 * 86400 ≡ day
  first_day day = omega arith

  following_day : (day : Time) (k : ℕ) → day + suc k * 86400 ≡ day + 86400 + k * 86400
  following_day day k = omega arith

  -- a day among the next `left` days on which a slot is open
  pick_from-chooses :
      (r : R) (now : Time) (slots : List TimeSlot) (slot : TimeSlot) (day : Time) (left k : ℕ)
      → All IsClock slots
      → Memᴰ slot slots
      → k < left
      → IsOpen now (day + k * 86400) slot
      → (c : Candidate) × (r' : R) × (pick_from randint r now slots day left ≡ chosen c r')
  unfolding pick_from
  pick_from-chooses r now slots slot day zero k cl m lt o =
      let no : ⊥ = omega (arith, lt) in elim no [ ]
  pick_from-chooses r now slots slot day (suc left) zero cl m lt o =
      let (c, cs, r', gives) =
        candidates_of-open r now day slots slot cl m
          (subst (λ (d : Time). IsOpen now d slot) (first_day day) o) in
      (earliest c cs, r', rw (gives, pick_from) refl)
  pick_from-chooses r now slots slot day (suc left) (suc k) cl m lt o =
      let o' = subst (λ (d : Time). IsOpen now d slot) (following_day day k) o in
      elim (Option-cases (candidates_of randint r now day slots)) [
        | inl fails ↦ let (out, gives) = candidates_of-total r now day slots cl in cc
        | inr (([], r'), gives) ↦
            let (c, r'', picks) =
              pick_from-chooses r' now slots slot (day + 86400) left k cl m (omega (arith, lt))
                o' in
            (c, r'', rw (gives, pick_from) picks)
        | inr ((c ∷ cs, r'), gives) ↦ (earliest c cs, r', rw (gives, pick_from) refl)
      ]

  -- If the bounds of all slots are times of day, and one of the next days, fewer than
  -- `lookahead_days` ahead, has a slot that is open on it, then a run is chosen, whatever the
  -- generator draws.
  pub pick_next_execution-chooses :
      (r : R) (now : Time) (slots : List TimeSlot) (lookahead_days : ℕ) (slot : TimeSlot) (k : ℕ)
      → All IsClock slots
      → Memᴰ slot slots
      → k < lookahead_days
      → IsOpen now (midnight now + k * 86400) slot
      → (c : Candidate) × (r' : R) × (pick_next_execution randint r now slots lookahead_days
          ≡ chosen c r')
  unfolding pick_next_execution
  pick_next_execution-chooses r now slots lookahead slot k =
      pick_from-chooses r now slots slot (midnight now) lookahead k

  window_start-today :
      (start now : Time) → start < now → window_start (midnight now) start (some now) ≡ now
  unfolding window_start midnight day_of
  window_start-today start now h = ground arith

  draws_now :
      (r : R) (now start end : Time) (slot : TimeSlot)
      → make_dt (midnight now) slot.start_hour slot.start_minute 0 ≡ some start
      → make_dt (midnight now) slot.end_hour slot.end_minute 0 ≡ some end
      → start < now
      → now < end
      → (randint r (end - now - 1)).0 ≡ 0
      → random_datetime_in_slot randint r (midnight now) slot (some now)
        ≡ some (some now, (randint r (end - now - 1)).1)
  unfolding random_datetime_in_slot
  draws_now r now start end slot opens closes begun still drawn =
      rw (opens, closes, window_start-today start now begun, draw-open r now end still)
        (ap (λ (t : ℕ). some (some t, (randint r (end - now - 1)).1)) (omega (arith, drawn)))

  -- A poll inside the window of a slot may miss the slot for the day: if the generator draws 0 the
  -- time drawn is `now` itself, which is not later than `now`, and the slot is no candidate.
  pub candidates_of-misses_open_slot :
      (r : R) (now start end : Time) (slot : TimeSlot)
      → make_dt (midnight now) slot.start_hour slot.start_minute 0 ≡ some start
      → make_dt (midnight now) slot.end_hour slot.end_minute 0 ≡ some end
      → start < now
      → now < end
      → (randint r (end - now - 1)).0 ≡ 0
      → (r' : R) × (candidates_of randint r now (midnight now) (slot ∷ []) ≡ some ([], r'))
  unfolding candidates_of add_candidate
  candidates_of-misses_open_slot r now start end slot opens closes begun still drawn =
      elim (Bool-cases (contains_weekday slot (weekday (midnight now)))) [
        | inr off ↦ (r, rw (off, candidates_of) refl)
        | inl on ↦ (
          (randint r (end - now - 1)).1,
          rw (on, candidates_of, draws_now r now start end slot opens closes begun still drawn)
              (ground arith),
        )
      ]
