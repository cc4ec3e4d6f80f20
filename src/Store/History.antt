-- ===== src/Store/History.antt =====
-- `HistoryStore` of state/store.py: the history file, one row a line, oldest first. A file whose
-- lines are not JSON, and the locks around the writes, are not part of this module.
use fox_runner_server.Prelude.{
  ℕ, suc, ◌+◌, ◌-◌, ◌*◌, String, Option, none, some, Bool, true, false, ◌&&◌, List, [], ◌∷◌, ◌++◌,
  length, take, keep, str_eq, leb, ℤ, pos, negsuc,
}
use fox_runner_server.Scenario.Effects.{Result, return, raise}

pub record Row : Type 0 where
  pub slot_key : String
  pub slot_id : String
  pub scenario_id : String
  pub execution_id : Option String
  pub executed_at : ℕ
  pub status : String
  pub step : String
  pub message : String

-- The file, `none` while it does not exist.
abbrev pub HistoryFile : Type 0
HistoryFile = Option (List Row)

unfoldable pub rows_of : HistoryFile → List Row
rows_of none = []
rows_of (some rows) = rows

unfoldable pub append : HistoryFile → Row → HistoryFile
unfolding rows_of
append file row = some (rows_of file ++ row ∷ [])

-- `if value is not None: rows = [row for row in rows if row.get(...) == value]`
unfoldable pub matches : (Row → Option String) → Option String → Row → Bool
matches field none row = true
matches field (some wanted) row = elim (field row) [ none ↦ false | some s ↦ str_eq s wanted ]

unfoldable pub selected : (status slot_id scenario_id execution_id : Option String) → Row → Bool
unfolding matches
selected status slot_id scenario_id execution_id row =
    matches (λ r. some r.status) status row
    && matches (λ r. some r.slot_id) slot_id row
    && matches (λ r. some r.scenario_id) scenario_id row
    && matches (λ r. r.execution_id) execution_id row

unfoldable pub reverse : List Row → List Row
reverse [] = []
reverse (row ∷ rows) = reverse rows ++ row ∷ []

-- `rows[:limit]`; a negative limit leaves out as many rows at the end
unfoldable pub slice : Option ℤ → List Row → List Row
slice none rows = rows
slice (some (pos n)) rows = take n rows
slice (some (negsuc n)) rows = take (length rows - suc n) rows

unfoldable pub read :
    HistoryFile
    → (limit : Option ℤ) → (status slot_id scenario_id execution_id : Option String) → List Row
unfolding rows_of selected reverse slice
read file limit status slot_id scenario_id execution_id =
    slice limit (reverse (keep (selected status slot_id scenario_id execution_id) (rows_of file)))

-- `_parse_datetime(row["executed_at"]).timestamp() >= time.time() - older_than_days * 86400`
unfoldable pub is_recent : ℕ → ℕ → Row → Bool
is_recent now days row = leb now (row.executed_at + days * 86400)

unfoldable pub prune : ℕ → HistoryFile → ℤ → Result ℕ × HistoryFile
unfolding is_recent
prune now file (negsuc n) = (raise "'older_than_days' doit etre >= 0.", file)
prune now none (pos days) = (return 0, none)
prune now (some rows) (pos days) =
    let kept_rows = keep (is_recent now days) rows in
    (return (length rows - length kept_rows), some kept_rows)
