-- ===== src/Store/Witnesses.antt =====
-- The theorems about state/store.py at small inputs.
use mathlib.Core.List.{Memᴰ}
use fox_runner_server.Prelude.{
  ℕ, ◌+◌, String, ◌≡◌, refl, none, some, true, false, not, ◌&&◌, ◌||◌, List, [], ◌∷◌, length, All,
  pos, str_eq, split_once,
}
use fox_runner_server.Scenario.Effects.{return}
use fox_runner_server.Store.Executed.{
  missing, before, date_part, has_executed, mark_executed, has_executed-mark_executed,
}
use fox_runner_server.Store.History.{Row, is_recent, prune}
use fox_runner_server.Store.Lock.{
  Lock, unwritten, outside, created, holding, opens, moved, opened, take_step, Reaches, stays, goes,
}
use fox_runner_server.Store.LockExclusion.{IsExclusive, owns, not_removal, Reaches-IsExclusive}
use fox_runner_server.Store.LockRace.{is_at_once, both_hold}
use fox_runner_server.Store.HistoryLaws.{prune-exact}

abbrev key : String
key = "2024-02-28|evening|20:00-21:00"

-- West of Greenwich: the local date is still the 28th when the date in UTC is the 29th.
has_executed-mark_executed_example :
    has_executed (mark_executed "2024-02-29" missing key 7) key
    ≡ ((str_eq key key || has_executed missing key) && not (before (date_part key) "2024-02-29"))
has_executed-mark_executed_example = has_executed-mark_executed "2024-02-29" missing key 7 key

mark_executed-key_lost : not (before (date_part key) "2024-02-29") ≡ false
unfolding date_part before split_once
mark_executed-key_lost = refl

abbrev row : ℕ → String → Row
row at status = record {
  slot_key = key;
  slot_id = "evening";
  scenario_id = "s";
  execution_id = none;
  executed_at = at;
  status = status;
  step = "0:open_url";
  message = "";
}

abbrev file : List Row
file = row 100 "success" ∷ row 90000 "failed" ∷ []

prune-exact_example :
    (kept : List Row) × (removed : ℕ) × (prune 90100 (some file) (pos 1)
      ≡ (return removed, some kept))
    × All (λ (r : Row). is_recent 90100 1 r ≡ true) kept
    × ((r : Row) → Memᴰ r file → is_recent 90100 1 r ≡ true → Memᴰ r kept)
    × (removed + length kept ≡ length file)
    × (prune 90100 (some kept) (pos 1) ≡ (return 0, some kept))
prune-exact_example = prune-exact 90100 1 file

-- no lock file, and every process outside
abbrev unlocked : Lock
unlocked = record { file = none; phase = λ i. outside }

unlocked-IsExclusive : IsExclusive unlocked
unfolding owns
unlocked-IsExclusive = record { free = λ _ i. refl; single = λ i j hi hj. cc }

abbrev one_created : Lock
one_created = record { file = some (1, unwritten); phase = moved unlocked.phase 1 created }

opens-1 : Reaches (take_step 3600 (λ pid. true) (λ i. i + 100)) not_removal unlocked one_created
unfolding take_step opened
opens-1 = goes (opens 1) (unfold not_removal in refl) refl stays

Reaches-IsExclusive_example : IsExclusive one_created
Reaches-IsExclusive_example =
    Reaches-IsExclusive 3600 (λ pid. true) (λ i. i + 100) unlocked one_created opens-1
      unlocked-IsExclusive

both_hold_example :
    (n : Lock) × Reaches
      (take_step 3600 (λ pid. true) (λ i. i + 100))
      (is_at_once 1 2 50)
      unlocked
      n
    × (n.phase 1 ≡ holding)
    × (n.phase 2 ≡ holding)
both_hold_example = both_hold 3600 (λ pid. true) (λ i. i + 100) unlocked 1 2 50 refl refl refl refl
