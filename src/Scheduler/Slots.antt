-- ===== src/Scheduler/Slots.antt =====
-- scheduler/model.py: time slots and the choice of the next one to run.
use Prim.Native.String.{◌++◌}
use fox_runner_server.Prelude.{
  ℕ, zero, suc, ◌+◌, ◌-◌, ◌*◌, ◌/◌, ◌%◌, String, Option, none, some, Bool, true, false, ◌&&◌, List,
  [], ◌∷◌, ◌>>=◌, any, length, ltb, leb, ◌==◌, if◌then◌else◌,
}
use fox_runner_server.Prelude.Decimal.{show, two_digits}
use fox_runner_server.Scheduler.Calendar.{Time, day_of, midnight, weekday, make_dt, iso_date}

pub record TimeSlot : Type 0 where
  pub slot_id : String
  pub days : List ℕ
  pub start_hour : ℕ
  pub start_minute : ℕ
  pub end_hour : ℕ
  pub end_minute : ℕ
  pub scenario_id : String

unfoldable pub contains_weekday : TimeSlot → ℕ → Bool
contains_weekday slot d = any (λ (x : ℕ). x == d) slot.days

unfoldable pub to_key : TimeSlot → Time → String
to_key slot day =
    iso_date (day_of day)
    ++ "|"
    ++ slot.slot_id
    ++ "|"
    ++ two_digits slot.start_hour
    ++ ":"
    ++ two_digits slot.start_minute
    ++ "-"
    ++ two_digits slot.end_hour
    ++ ":"
    ++ two_digits slot.end_minute

pub record Candidate : Type 0 where
  pub next_run : Time
  pub slot : TimeSlot
  pub day : Time

-- What a choice comes to: a candidate, with the generator's state after it, the `ValueError` of a time
-- of day that does not exist, or the `RuntimeError` that there is no slot.
pub data Choice (R : Type 0) : Type 0 where
  chosen : Candidate → R → Choice R
  value_error : Choice R
  runtime_error : String → Choice R

-- `now` is the start of the window when it lies in the slot's day, after the slot's start.
unfoldable pub window_start : Time → Time → Option Time → Time
window_start day start none = start
window_start day start (some now) =
    if (day_of day == day_of now) && ltb start now then now else start

-- `if candidate is not None and candidate > now: candidates.append(...)`
unfoldable pub add_candidate :
    Time → TimeSlot → Time → Option Time → List Candidate → List Candidate
add_candidate now slot day none rest = rest
add_candidate now slot day (some t) rest =
    if ltb now t then record { next_run = t; slot = slot; day = day } ∷ rest else rest

-- `min(candidates, key=lambda item: item[0])`: the first of the earliest
unfoldable pub earliest : Candidate → List Candidate → Candidate
earliest best [] = best
earliest best (c ∷ cs) = earliest (if ltb c.next_run best.next_run then c else best) cs

-- `randint r top` is `random.randint(0, top)` on the state `r` of the generator.
module _ {R : Type 0} (randint : R → ℕ → ℕ × R) where
  -- the draw from the seconds of [start, end), if there are any
  unfoldable pub draw : R → Time → Time → Option Time × R
  draw r start end =
      let (seconds, r') = randint r (end - start - 1) in
      if leb end start then (none, r) else (some (start + seconds), r')

  unfoldable pub random_datetime_in_slot :
      R → Time → TimeSlot → Option Time → Option (Option Time × R)
  random_datetime_in_slot r day slot now = do
    start ← make_dt day slot.start_hour slot.start_minute 0
    end ← make_dt day slot.end_hour slot.end_minute 0
    some (draw r (window_start day start now) end)

  unfoldable pub candidates_of : R → Time → Time → List TimeSlot → Option (List Candidate × R)
  candidates_of r now day [] = some ([], r)
  candidates_of r now day (slot ∷ slots) = elim (contains_weekday slot (weekday day)) [
    | true ↦ do
      (candidate, r') ← random_datetime_in_slot r day slot (some now)
      (rest, r'') ← candidates_of r' now day slots
      some (add_candidate now slot day candidate rest, r'')
    | false ↦ candidates_of r now day slots
  ]

  -- the days from `day` on, `left` of them
  unfoldable pub pick_from : R → Time → List TimeSlot → Time → ℕ → Choice R
  pick_from r now slots day zero = runtime_error "Aucun creneau futur valide trouve."
  pick_from r now slots day (suc left) = elim (candidates_of r now day slots) [
    | none ↦ value_error
    | some ([], r') ↦ pick_from r' now slots (day + 86400) left
    | some (c ∷ cs, r') ↦ chosen (earliest c cs) r'
  ]

  unfoldable pub pick_next_execution : R → Time → List TimeSlot → ℕ → Choice R
  pick_next_execution r now slots lookahead_days =
      pick_from r now slots (midnight now) lookahead_days

  -- the rounds of the search, `left` of them
  unfoldable pub search_pending : R → Time → List TimeSlot → (String → Bool) → ℕ → ℕ → Choice R
  search_pending r probe slots is_slot_executed lookahead_days zero =
      runtime_error "Aucun creneau en attente trouve."
  search_pending r probe slots is_slot_executed lookahead_days (suc left) =
      elim (pick_next_execution r probe slots lookahead_days) [
        | value_error ↦ value_error
        | runtime_error message ↦ runtime_error message
        | chosen c r' ↦ elim (is_slot_executed (to_key c.slot c.day)) [
          | false ↦ chosen c r'
          | true ↦ elim (make_dt c.day c.slot.end_hour c.slot.end_minute 1) [
            | none ↦ value_error
            | some probe' ↦ search_pending r' probe' slots is_slot_executed lookahead_days left
          ]
        ]
      ]

  unfoldable pub find_next_pending_execution :
      R → Time → List TimeSlot → (String → Bool) → ℕ → Choice R
  find_next_pending_execution r now slots is_slot_executed lookahead_days =
      search_pending r now slots is_slot_executed lookahead_days (length slots * lookahead_days + 1)

unfoldable pub format_remaining : ℕ → String
format_remaining seconds =
    two_digits (seconds / 3600)
    ++ ":"
    ++ two_digits (seconds % 3600 / 60)
    ++ ":"
    ++ two_digits (seconds % 3600 % 60)

-- an entry of the old configuration: the days, the start and the end
pub record RawSlot : Type 0 where
  pub days : List ℕ
  pub start_hour : ℕ
  pub start_minute : ℕ
  pub end_hour : ℕ
  pub end_minute : ℕ

unfoldable pub build_slots_from : ℕ → List RawSlot → List TimeSlot
build_slots_from index [] = []
build_slots_from index (raw ∷ raws) =
    record {
      slot_id = "slot_" ++ show index;
      days = raw.days;
      start_hour = raw.start_hour;
      start_minute = raw.start_minute;
      end_hour = raw.end_hour;
      end_minute = raw.end_minute;
      scenario_id = "default";
    }
    ∷ build_slots_from (index + 1) raws

unfoldable pub build_slots : List RawSlot → List TimeSlot
build_slots raw_slots = build_slots_from 0 raw_slots
