-- ===== src/Store/HistoryLaws.antt =====
-- What the history file (`HistoryStore` of state/store.py) gives back, and what pruning leaves.
use mathlib.Core.List.{Memᴰ}
use mathlib.Core.List.Memᴰ.{head, tail}
use fox_runner_server.Prelude.{
  ℕ, ◌+◌, ◌-◌, ◌≡◌, refl, sym, ap, ◌∙◌, some, Bool, true, List, [], ◌∷◌, length, keep, pos, arith,
  All, Bool-cases, inl, inr, length-keep-le,
}
use fox_runner_server.Scenario.Effects.{return}
use fox_runner_server.Store.History.{Row, is_recent, prune}

keep-passes :
    (now days : ℕ) (rows : List Row)
    → All (λ (r : Row). is_recent now days r ≡ true) (keep (is_recent now days) rows)
keep-passes now days [] = tt
keep-passes now days (r ∷ rows) = elim (Bool-cases (is_recent now days r)) [
  | inl passes ↦ rw passes (passes, keep-passes now days rows)
  | inr fails ↦ rw fails (keep-passes now days rows)
]

keep-Memᴰ {ℓ} :
    {A : Type ℓ} (test : A → Bool) (xs : List A) (x : A)
    → Memᴰ x xs
    → test x ≡ true
    → Memᴰ x (keep test xs)
keep-Memᴰ test [] x m passes = elim m [ ]
keep-Memᴰ test (y ∷ xs) x (head e) passes = rw (ap test (sym e) ∙ passes) (head e)
keep-Memᴰ test (y ∷ xs) x (tail m) passes = elim (Bool-cases (test y)) [
  | inl in_front ↦ rw in_front (tail (keep-Memᴰ test xs x m passes))
  | inr left_out ↦ rw left_out (keep-Memᴰ test xs x m passes)
]

keep_everything {ℓ} :
    {A : Type ℓ} (test : A → Bool) (xs : List A)
    → All (λ (x : A). test x ≡ true) xs
    → keep test xs ≡ xs
keep_everything test [] all = refl
keep_everything test (x ∷ xs) all =
    rw all.0 (ap (λ (ys : List _). x ∷ ys) (keep_everything test xs all.1))

-- Pruning with a number of days that is not negative keeps only rows that are no older than that,
-- and every one of them; the number it returns is that of the rows it removed; and pruning again at
-- once returns 0 and changes nothing.
pub prune-exact :
    (now days : ℕ) (rows : List Row)
    → (kept : List Row) × (removed : ℕ) × (prune now (some rows) (pos days)
        ≡ (return removed, some kept))
      × All (λ (r : Row). is_recent now days r ≡ true) kept
      × ((r : Row) → Memᴰ r rows → is_recent now days r ≡ true → Memᴰ r kept)
      × (removed + length kept ≡ length rows)
      × (prune now (some kept) (pos days) ≡ (return 0, some kept))
unfolding prune
prune-exact now days rows =
    let test = is_recent now days in
    let kept = keep test rows in
    let again = keep_everything test kept (keep-passes now days rows) in
    (
      kept,
      length rows - length kept,
      refl,
      keep-passes now days rows,
      keep-Memᴰ test rows,
      omega (arith, length-keep-le test rows),
      rw again (ap (λ (n : ℕ). (return n, some kept)) (omega arith)),
    )
