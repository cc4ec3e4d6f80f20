-- ===== src/Store/LockExclusion.antt =====
-- When the process lock (`ProcessLock` of state/store.py) excludes.
use fox_runner_server.Prelude.{
  ℕ, ◌≡◌, refl, sym, ap, ◌∙◌, subst, Option, none, some, Bool, true, false, ◌==◌, ==_iff,
  if◌then◌else◌, inl, inr, Bool-cases, Option-cases, arith,
}
use fox_runner_server.Store.Lock.{
  Content, Phase, outside, created, removing, holding, Lock, Act, opens, writes, inspects, removes,
  releases, moved, is_stale, opened, filled, written, inspected, released, take_step, Reaches,
  stays, goes,
}

-- the process has, or is about to have, the lock
unfoldable pub owns : Phase → Bool
owns outside = false
owns created = true
owns removing = false
owns holding = true

-- Nobody owns the lock while there is no file, and only one process does otherwise.
pub record IsExclusive (m : Lock) : Type 0 where
  pub free : m.file ≡ none → (i : ℕ) → owns (m.phase i) ≡ false
  pub single : (i j : ℕ) → owns (m.phase i) ≡ true → owns (m.phase j) ≡ true → i ≡ j

unfoldable pub not_removal : Act → Bool
not_removal (opens i) = true
not_removal (writes i now) = true
not_removal (inspects i now) = true
not_removal (removes i) = false
not_removal (releases i) = true

abbrev Returns : (Lock → Type 0) → Option Lock → Type 0
Returns P none = Unit
Returns P (some m) = P m

owns-moved :
    (phase : ℕ → Phase) (i : ℕ) (x : Phase) (j : ℕ)
    → owns (moved phase i x j) ≡ (if i == j then owns x else owns (phase j))
unfolding moved
owns-moved phase i x j = ground arith

-- A process that moves to a phase without the lock owns nothing new, and not itself.
left_outside :
    (phase : ℕ → Phase) (i : ℕ) (x : Phase) (j : ℕ)
    → owns x ≡ false
    → owns (moved phase i x j) ≡ true
    → ((i == j) ≡ false) × (owns (phase j) ≡ true)
left_outside phase i x j absent h = ground (arith, owns-moved phase i x j)

-- A process that owned the lock before its move is the only new owner there can be.
still_owner :
    (phase : ℕ → Phase) (i : ℕ) (x : Phase) (j : ℕ)
    → owns (phase i) ≡ true
    → owns (moved phase i x j) ≡ true
    → owns (phase j) ≡ true
still_owner phase i x j own h = elim (Bool-cases (i == j)) [
  | inl same ↦ subst (λ (k : ℕ). owns (phase k) ≡ true) ((==_iff i j).0 same) own
  | inr other ↦ ground (arith, owns-moved phase i x j)
]

new_owner :
    (phase : ℕ → Phase) (i : ℕ) (x : Phase) (j : ℕ)
    → owns (phase j) ≡ false
    → owns (moved phase i x j) ≡ true
    → i ≡ j
new_owner phase i x j none_yet h = ground (arith, owns-moved phase i x j, ==_iff i j)

refute_true : (b : Bool) → (b ≡ true → ⊥) → b ≡ false
refute_true true refuted = elim (refuted refl) [ ]
refute_true false refuted = refl

absurd_true : true ≡ false → ⊥
absurd_true e = cc

IsExclusive-free :
    (m : Lock) (i : ℕ) → IsExclusive m → owns (m.phase i) ≡ true → (m.file ≡ none) → ⊥
IsExclusive-free m i x own h = elim (absurd_true (sym own ∙ x.free h i)) [ ]

module _ (stale_seconds : ℕ) (pid_exists : ℕ → Bool) (pid_of : ℕ → ℕ) where
  opened-IsExclusive :
      (i : ℕ) (m : Lock)
      → IsExclusive m
      → Returns IsExclusive (opened stale_seconds pid_exists pid_of i m)
  unfolding opened
  opened-IsExclusive i m x = go (m.phase i) refl
    where
      go :
          (ph : Phase)
          → m.phase i ≡ ph
          → Returns IsExclusive (opened stale_seconds pid_exists pid_of i m)
      go outside e = elim (Option-cases m.file) [
        | inl free ↦
            rw (e, opened, free)
              (record {
                free = λ h k. cc;
                single = λ j k hj hk.
                    sym (new_owner m.phase i created j (x.free free j) hj)
                    ∙ new_owner m.phase i created k (x.free free k) hk;
              })
        | inr (c, taken) ↦ rw (e, opened, taken) tt
      ]
      go created e = rw (e, opened) tt
      go removing e = rw (e, opened) tt
      go holding e = rw (e, opened) tt

  filled-none :
      (i : ℕ) (f : Option (ℕ × Content)) (c : Content)
      → filled stale_seconds pid_exists pid_of i f c ≡ none
      → f ≡ none
  unfolding filled
  filled-none i none c h = refl
  filled-none i (some (owner, old)) c h = ground arith

  written-IsExclusive :
      (i now : ℕ) (m : Lock)
      → IsExclusive m
      → Returns IsExclusive (written stale_seconds pid_exists pid_of i now m)
  unfolding written owns
  written-IsExclusive i now m x = go (m.phase i) refl
    where
      go :
          (ph : Phase)
          → m.phase i ≡ ph
          → Returns IsExclusive (written stale_seconds pid_exists pid_of i now m)
      go created e =
          let own : owns (m.phase i) ≡ true = ap owns e in
          rw (e, written)
            (record {
              free = λ h k. elim (IsExclusive-free m i x own (filled-none i m.file _ h)) [ ];
              single = λ j k hj hk.
                  x.single j k (still_owner m.phase i holding j own hj)
                    (still_owner m.phase i holding k own hk);
            })
      go outside e = rw (e, written) tt
      go removing e = rw (e, written) tt
      go holding e = rw (e, written) tt

  to_removing :
      (i : ℕ) (m : Lock)
      → IsExclusive m
      → IsExclusive (record m { phase = moved m.phase i removing })
  unfolding owns
  to_removing i m x = record {
    free = λ h k.
        refute_true _
          (λ own. IsExclusive-free m k x (left_outside m.phase i removing k refl own).1 h);
    single = λ j k hj hk.
        x.single j k (left_outside m.phase i removing j refl hj).1
          (left_outside m.phase i removing k refl hk).1;
  }

  inspected-IsExclusive :
      (i now : ℕ) (m : Lock)
      → IsExclusive m
      → Returns IsExclusive (inspected stale_seconds pid_exists pid_of i now m)
  unfolding inspected
  inspected-IsExclusive i now m x = go (m.phase i) refl
    where
      go :
          (ph : Phase)
          → m.phase i ≡ ph
          → Returns IsExclusive (inspected stale_seconds pid_exists pid_of i now m)
      go outside e = elim (Option-cases m.file) [
        | inl gone ↦ rw (e, inspected, gone) (to_removing i m x)
        | inr ((owner, c), taken) ↦ elim (Bool-cases (is_stale stale_seconds pid_exists now c)) [
          | inl stale ↦ rw (e, inspected, taken, stale) (to_removing i m x)
          | inr live ↦ rw (e, inspected, taken, live) x
        ]
      ]
      go created e = rw (e, inspected) tt
      go removing e = rw (e, inspected) tt
      go holding e = rw (e, inspected) tt

  released-IsExclusive :
      (i : ℕ) (m : Lock)
      → IsExclusive m
      → Returns IsExclusive (released stale_seconds pid_exists pid_of i m)
  unfolding released owns
  released-IsExclusive i m x = go (m.phase i) refl
    where
      go :
          (ph : Phase)
          → m.phase i ≡ ph
          → Returns IsExclusive (released stale_seconds pid_exists pid_of i m)
      go holding e =
          let own : owns (m.phase i) ≡ true = ap owns e in
          let nobody : (k : ℕ) → owns (moved m.phase i outside k) ≡ true → ⊥ = λ k hk.
            let others = left_outside m.phase i outside k refl hk in
            let same = (==_iff i k).1 (x.single i k own others.1) in
            elim (absurd_true (sym same ∙ others.0)) [ ] in
          rw (e, released)
            (record {
              free = λ h k. refute_true _ (nobody k);
              single = λ j k hj hk. elim (nobody j hj) [ ];
            })
      go outside e = rw (e, released) tt
      go created e = rw (e, released) tt
      go removing e = rw (e, released) tt

  step-IsExclusive :
      (act : Act) (m : Lock)
      → not_removal act ≡ true
      → IsExclusive m
      → Returns IsExclusive (take_step stale_seconds pid_exists pid_of act m)
  unfolding take_step not_removal
  step-IsExclusive (opens i) m allowed x = opened-IsExclusive i m x
  step-IsExclusive (writes i now) m allowed x = written-IsExclusive i now m x
  step-IsExclusive (inspects i now) m allowed x = inspected-IsExclusive i now m x
  step-IsExclusive (removes i) m allowed x = cc
  step-IsExclusive (releases i) m allowed x = released-IsExclusive i m x

  -- However the steps of any number of processes interleave: as long as no process removes a lock
  -- file as a stale one, at most one process at a time has the lock or has just created its file.
  pub Reaches-IsExclusive :
      (m n : Lock)
      → Reaches (take_step stale_seconds pid_exists pid_of) not_removal m n
      → IsExclusive m
      → IsExclusive n
  Reaches-IsExclusive m n stays x = x
  Reaches-IsExclusive m n (goes act allowed step rest) x =
      Reaches-IsExclusive _ n rest
        (subst (Returns IsExclusive) step (step-IsExclusive act m allowed x))
