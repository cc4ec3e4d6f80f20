-- ===== src/Store/LockRace.antt =====
-- When the process lock (`ProcessLock` of state/store.py) does not exclude.
use fox_runner_server.Prelude.{
  ℕ, ◌≡◌, refl, ap, ◌∙◌, Option, none, some, Bool, false, ◌==◌, ◌||◌, ◌&&◌, arith,
}
use fox_runner_server.Store.Lock.{
  Content, unwritten, payload, Phase, outside, created, removing, holding, Lock, Act, opens, writes,
  inspects, removes, releases, moved, is_stale, opened, filled, written, inspected, removed,
  take_step, Reaches, stays, goes,
}

moved_self : (phase : ℕ → Phase) (i : ℕ) (x : Phase) → moved phase i x i ≡ x
unfolding moved
moved_self phase i x = ground arith

moved_other :
    (phase : ℕ → Phase) (i : ℕ) (x : Phase) (j : ℕ) → (i == j) ≡ false → moved phase i x j ≡ phase j
unfolding moved
moved_other phase i x j other = ground arith

other_way : (i j : ℕ) → (i == j) ≡ false → (j == i) ≡ false
other_way i j other = ground arith

-- a step of one of the two processes at the given time, and no release
unfoldable pub is_at_once : (i j now : ℕ) → Act → Bool
is_at_once i j now (opens k) = k == i || k == j
is_at_once i j now (writes k t) = (k == i || k == j) && t == now
is_at_once i j now (inspects k t) = (k == i || k == j) && t == now
is_at_once i j now (removes k) = k == i || k == j
is_at_once i j now (releases k) = false

module _ (stale_seconds : ℕ) (pid_exists : ℕ → Bool) (pid_of : ℕ → ℕ) where
  opened-outside :
      (i : ℕ) (m : Lock)
      → m.phase i ≡ outside
      → m.file ≡ none
      → opened stale_seconds pid_exists pid_of i m
        ≡ some (record { file = some (i, unwritten); phase = moved m.phase i created })
  unfolding opened
  opened-outside i m e free = rw (e, opened, free) refl

  inspected-unwritten :
      (i now owner : ℕ) (m : Lock)
      → m.phase i ≡ outside
      → m.file ≡ some (owner, unwritten)
      → inspected stale_seconds pid_exists pid_of i now m
        ≡ some (record { file = m.file; phase = moved m.phase i removing })
  unfolding inspected is_stale
  inspected-unwritten i now owner m e taken =
      rw (e, inspected, taken)
        (ap
          (λ (f : Option (ℕ × Content)).
            some (record { file = f; phase = moved m.phase i removing }))
          taken)

  removed-removing :
      (i : ℕ) (m : Lock)
      → m.phase i ≡ removing
      → removed stale_seconds pid_exists pid_of i m
        ≡ some (record { file = none; phase = moved m.phase i outside })
  unfolding removed
  removed-removing i m e = rw (e, removed) refl

  written-created :
      (i now : ℕ) (m : Lock)
      → m.phase i ≡ created
      → written stale_seconds pid_exists pid_of i now m
        ≡ some (record {
          file = filled stale_seconds pid_exists pid_of i m.file (payload (some (pid_of i)) now);
          phase = moved m.phase i holding;
        })
  unfolding written
  written-created i now m e = rw (e, written) refl

  -- From any state without a lock file, in which two processes stand outside of `acquire`, steps of
  -- these two alone lead to a state in which both have the lock. All of the steps are taken at one
  -- and the same time `now`, none of them is a release, and this is so for any time after which a
  -- lock counts as stale and whichever processes run: the second one finds the file that the first
  -- has created and not yet written to, takes it for a stale one and removes it.
  pub both_hold :
      (m : Lock) (i j now : ℕ)
      → m.file ≡ none
      → m.phase i ≡ outside
      → m.phase j ≡ outside
      → (i == j) ≡ false
      → (n : Lock) × Reaches (take_step stale_seconds pid_exists pid_of) (is_at_once i j now) m n
        × (n.phase i ≡ holding)
        × (n.phase j ≡ holding)
  unfolding take_step is_at_once
  both_hold m i j now free out_i out_j other =
      let fill = filled stale_seconds pid_exists pid_of in
      let back = other_way i j other in
      let m1 : Lock = record { file = some (i, unwritten); phase = moved m.phase i created } in
      let m2 : Lock = record { file = m1.file; phase = moved m1.phase j removing } in
      let m3 : Lock = record { file = none; phase = moved m2.phase j outside } in
      let m4 : Lock = record { file = some (j, unwritten); phase = moved m3.phase j created } in
      let m5 : Lock = record {
        file = fill j m4.file (payload (some (pid_of j)) now);
        phase = moved m4.phase j holding;
      } in
      let m6 : Lock = record {
        file = fill i m5.file (payload (some (pid_of i)) now);
        phase = moved m5.phase i holding;
      } in
      let still_created : m5.phase i ≡ created =
        moved_other m4.phase j holding i back
        ∙ moved_other m3.phase j created i back
        ∙ moved_other m2.phase j outside i back
        ∙ moved_other m1.phase j removing i back
        ∙ moved_self m.phase i created in
      (
        m6,
        goes {n = m1} (opens i) (ground arith) (opened-outside i m out_i free) (
            goes {n = m2} (inspects j now) (ground arith)
              (inspected-unwritten j now i m1 (moved_other m.phase i created j other ∙ out_j) refl)
              (goes {n = m3} (removes j) (ground arith)
                (removed-removing j m2 (moved_self m1.phase j removing))
                (goes {n = m4} (opens j) (ground arith)
                  (opened-outside j m3 (moved_self m2.phase j outside) refl)
                  (goes {n = m5} (writes j now) (ground arith)
                    (written-created j now m4 (moved_self m3.phase j created))
                    (goes {n = m6} (writes i now) (ground arith)
                      (written-created i now m5 still_created) stays))))),
        moved_self m5.phase i holding,
        moved_other m5.phase i holding j other ∙ moved_self m4.phase j holding,
      )
