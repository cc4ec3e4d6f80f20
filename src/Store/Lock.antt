-- ===== src/Store/Lock.antt =====
-- `ProcessLock` of state/store.py: the steps that processes take over one lock file, in any order.
-- Processes are numbered; a lock file is unlinked whatever it holds, as the code does.
use fox_runner_server.Prelude.{
  ℕ, ◌+◌, ◌≡◌, Option, none, some, Bool, true, false, not, ◌&&◌, ◌||◌, ltb, leb, ◌==◌,
  if◌then◌else◌,
}

-- What the lock file holds: nothing yet (or nothing that is JSON), or the payload.
pub data Content : Type 0 where
  unwritten : Content
  payload : (pid : Option ℕ) (created_at : ℕ) → Content

-- Where a process stands: outside; in `acquire` between `os.open` and `os.write`; in
-- `_recover_stale_lock` before `_remove_lock_file`; with the lock.
pub data Phase : Type 0 where
  outside created removing holding : Phase

-- The file at the path, with the process that created it.
pub record Lock : Type 0 where
  pub file : Option (ℕ × Content)
  pub phase : ℕ → Phase

pub data Act : Type 0 where
  opens : (process : ℕ) → Act
  writes inspects : (process now : ℕ) → Act
  removes releases : (process : ℕ) → Act

unfoldable pub moved : (ℕ → Phase) → ℕ → Phase → ℕ → Phase
moved phase i x j = if i == j then x else phase j

-- `_pid_exists` says whether the process runs
unfoldable pub is_dead : (ℕ → Bool) → Option ℕ → Bool
is_dead pid_exists none = true
is_dead pid_exists (some pid) = not (ltb 0 pid && pid_exists pid)

-- `_recover_stale_lock` up to the removal: whether the lock file is to be removed
unfoldable pub is_stale : (stale_seconds : ℕ) (pid_exists : ℕ → Bool) → ℕ → Content → Bool
is_stale stale_seconds pid_exists now unwritten = true
is_stale stale_seconds pid_exists now (payload pid created_at) =
    leb (created_at + stale_seconds) now || is_dead pid_exists pid

module _ (stale_seconds : ℕ) (pid_exists : ℕ → Bool) (pid_of : ℕ → ℕ) where
  -- One step of one process, or none where it is not the step's turn. The file is created empty by
  -- `os.open(..., O_CREAT | O_EXCL)` and gets its payload by `os.write`; a payload that is written
  -- after the file was unlinked goes with it, and `acquire` returns true all the same.
  unfoldable pub opened : ℕ → Lock → Option Lock
  opened i m = elim (m.phase i) [
    | outside ↦ elim (m.file) [
      | none ↦ some (record { file = some (i, unwritten); phase = moved m.phase i created })
      | some _ ↦ none
    ]
    | created ↦ none
    | removing ↦ none
    | holding ↦ none
  ]

  -- the process's own file, if it is still the one at the path, gets the payload
  unfoldable pub filled : ℕ → Option (ℕ × Content) → Content → Option (ℕ × Content)
  filled i none c = none
  filled i (some (owner, old)) c = if owner == i then some (owner, c) else some (owner, old)

  unfoldable pub written : ℕ → ℕ → Lock → Option Lock
  written i now m = elim (m.phase i) [
    | created ↦ some (record {
      file = filled i m.file (payload (some (pid_of i)) now);
      phase = moved m.phase i holding;
    })
    | outside ↦ none
    | removing ↦ none
    | holding ↦ none
  ]

  -- `FileExistsError`: a lock in force ends `acquire` with false, a stale one is to be removed. A
  -- file that is gone by now reads as no metadata.
  unfoldable pub inspected : ℕ → ℕ → Lock → Option Lock
  inspected i now m = elim (m.phase i) [
    | outside ↦ elim (m.file) [
      | none ↦ some (record m { phase = moved m.phase i removing })
      | some (_, c) ↦ elim (is_stale stale_seconds pid_exists now c) [
        | true ↦ some (record m { phase = moved m.phase i removing })
        | false ↦ some m
      ]
    ]
    | created ↦ none
    | removing ↦ none
    | holding ↦ none
  ]

  -- `_remove_lock_file`, after which the process calls `acquire` again
  unfoldable pub removed : ℕ → Lock → Option Lock
  removed i m = elim (m.phase i) [
    | removing ↦ some (record { file = none; phase = moved m.phase i outside })
    | outside ↦ none
    | created ↦ none
    | holding ↦ none
  ]

  -- `release`
  unfoldable pub released : ℕ → Lock → Option Lock
  released i m = elim (m.phase i) [
    | holding ↦ some (record { file = none; phase = moved m.phase i outside })
    | outside ↦ none
    | created ↦ none
    | removing ↦ none
  ]

  unfoldable pub take_step : Act → Lock → Option Lock
  take_step (opens i) m = opened i m
  take_step (writes i now) m = written i now m
  take_step (inspects i now) m = inspected i now m
  take_step (removes i) m = removed i m
  take_step (releases i) m = released i m

-- The locks that a sequence of steps leads to.
pub data Reaches (step : Act → Lock → Option Lock) (allowed : Act → Bool)
    : Lock → Lock → Type 0 where
  stays : {m : Lock} → Reaches step allowed m m
  goes :
      {m n o : Lock} (act : Act)
      → allowed act ≡ true
      → step act m ≡ some n
      → Reaches step allowed n o
      → Reaches step allowed m o
