-- ===== src/Catalog/Stale.antt =====
-- What an update of a scenario (catalog/services.py) does to the file of slots.
use fox_runner_server.Prelude.{
  ℕ, String, ◌≡◌, refl, ◌∙◌, Option, none, some, Bool, true, false, inl, inr, Bool-cases,
}
use fox_runner_server.Prelude.Dict.{Dict}
use fox_runner_server.Prelude.Json.{Json}
use fox_runner_server.Backend.Exec.{
  Reply, done, http, Action, ◌>>=◌, ◌>>◌, pure, query, reply, change, require,
}
use fox_runner_server.Backend.Frame.{Within, Preorder, Within-bind, Within-query, Within-pure}
use fox_runner_server.Backend.Users.{User}
use fox_runner_server.Catalog.Tables.{
  Scenario, Db, Store, transaction, atomic, set_db, commit, roll_back, references_hold,
}
use fox_runner_server.Catalog.Files.{Outside, write_scenarios_file, set_scenarios_file, reject}
use fox_runner_server.Catalog.Scenarios.{
  ask, on_db, write_audit, owned_scenario, rename, change_owner, save_scenario_definition,
  update_owned_scenario,
}

-- the file of slots is as it was
SameFile : Store → Store → Type 0
SameFile s t = t.slots_file ≡ s.slots_file

SameFile-Preorder : Preorder SameFile
unfolding SameFile
SameFile-Preorder = record { same = λ s. refl; joined = λ s t u f g. g ∙ f }

-- the action leaves the file of slots alone, whether it returns or raises
abbrev Leaves : {A : Type 0} → Action Store A → Type 0
Leaves f = Within SameFile f

module _ {A B : Type 0} where
  Leaves-bind :
      (f : Action Store A) (k : A → Action Store B)
      → Leaves f
      → ((a : A) → Leaves (k a))
      → Leaves (f >>= k)
  Leaves-bind = Within-bind SameFile SameFile-Preorder

module _ {B : Type 0} where
  Leaves-seq :
      (f : Action Store (Unit {0})) (k : Action Store B) → Leaves f → Leaves k → Leaves (f >> k)
  unfolding ◌>>◌
  Leaves-seq f k hf hk = Leaves-bind f (λ (u : Unit {0}). k) hf (λ u. hk)

module _ {A : Type 0} where
  Leaves-query : (q : Store → Reply A) → Leaves (query q)
  Leaves-query = Within-query SameFile SameFile-Preorder

  Leaves-ask : (q : Db → Reply A) → Leaves (ask q)
  unfolding ask
  Leaves-ask q = Leaves-query (λ (s : Store). q s.db)

  Leaves-reply : (r : Reply A) → Leaves (reply r)
  unfolding reply SameFile
  Leaves-reply r = record { run = λ s. refl }

  Leaves-pure : (a : A) → Leaves {A = A} (pure a)
  Leaves-pure = Within-pure SameFile SameFile-Preorder

  rolled : (db : Db) (r : Reply A × Store) → (roll_back db r).1.slots_file ≡ r.1.slots_file
  unfolding roll_back set_db
  rolled db (done a, s) = refl
  rolled db (http code message, s) = refl

  committed_file : (db : Db) (r : Reply A × Store) → (commit db r).1.slots_file ≡ r.1.slots_file
  unfolding commit set_db
  committed_file db (done a, s) = elim (Bool-cases (references_hold s.db)) [
    | inl e ↦ rw e refl
    | inr e ↦ rw e refl
  ]
  committed_file db (http code message, s) = refl

  Leaves-atomic : (f : Action Store A) → Leaves f → Leaves (atomic f)
  unfolding atomic SameFile
  Leaves-atomic f h = record { run = λ s. rolled s.db (f s) ∙ h.run s }

  Leaves-transaction : (f : Action Store A) → Leaves f → Leaves (transaction f)
  unfolding transaction SameFile
  Leaves-transaction f h = record { run = λ s. committed_file s.db (f s) ∙ h.run s }

Leaves-on_db : (f : Db → Db) → Leaves (on_db f)
unfolding on_db change set_db SameFile
Leaves-on_db f = record { run = λ s. refl }

required :
    (b : Bool) (code : ℕ) (message : String) (s : Store)
    → (require {S = Store} b code message s).1.slots_file ≡ s.slots_file
unfolding require
required true code message s = refl
required false code message s = refl

Leaves-require : (b : Bool) (code : ℕ) (message : String) → Leaves (require b code message)
unfolding SameFile
Leaves-require b code message = record { run = λ s. required b code message s }

rejected : (o : Option String) (s : Store) → (reject o s).1.slots_file ≡ s.slots_file
unfolding reject
rejected none s = refl
rejected (some message) s = refl

Leaves-set : (d : Dict Json) → Leaves (change (set_scenarios_file d))
unfolding change set_scenarios_file SameFile
Leaves-set d = record { run = λ s. refl }

Leaves-write : (c : Outside) → Leaves (write_scenarios_file c)
unfolding write_scenarios_file SameFile
Leaves-write c = Leaves-bind _ _ (Leaves-query _) (λ old.
    Leaves-bind _ _ (Leaves-query _)
      (λ new. Leaves-seq _ _ (record { run = λ s. rejected _ s }) (Leaves-set new)))

Leaves-save :
    (c : Outside) (r : Scenario) (d : Dict Json) (o : Option String)
    → Leaves (save_scenario_definition c r d o)
unfolding save_scenario_definition
Leaves-save c r d o =
    Leaves-atomic _
      (Leaves-seq _ _ (Leaves-on_db _) (Leaves-seq _ _ (Leaves-write c) (Leaves-pure _)))

Leaves-owned : (scenario_id : String) (user : User) → Leaves (owned_scenario scenario_id user)
unfolding owned_scenario
Leaves-owned scenario_id user =
    Leaves-bind _ _ (Leaves-ask _) (λ r. Leaves-seq _ _ (Leaves-reply _) (Leaves-pure r))

Leaves-rename : (o : Option String) (r : Scenario) → Leaves (rename o r)
unfolding rename
Leaves-rename none r = Leaves-pure r
Leaves-rename (some name) r = Leaves-bind _ _ (Leaves-ask _) (λ exists.
    Leaves-seq _ _ (Leaves-require _ _ _) (Leaves-seq _ _ (Leaves-on_db _) (Leaves-pure _)))

Leaves-change_owner :
    (o : Option String) (user : User) (r : Scenario) → Leaves (change_owner o user r)
unfolding change_owner
Leaves-change_owner none user r = Leaves-pure r
Leaves-change_owner (some owner) user r =
    Leaves-seq _ _ (Leaves-ask _) (Leaves-bind _ _ (Leaves-ask _) (λ o. Leaves-pure _))

-- An update of a scenario leaves the file of slots as it was, also one that renames the scenario and
-- so changes the scenario of its slots in the table, whether it returns or raises.
pub update_owned_scenario-slots_file :
    (c : Outside)
    → (scenario_id : String) → (new_id owner_user_id description : Option String)
    → (definition : Option (Dict Json)) → (user : User) → (s : Store)
    → (update_owned_scenario c scenario_id new_id owner_user_id description definition user
        s).1.slots_file
      ≡ s.slots_file
unfolding update_owned_scenario write_audit SameFile
update_owned_scenario-slots_file c scenario_id new_id owner_user_id description definition user s =
    (Leaves-transaction _ (
        Leaves-bind _ _ (Leaves-owned scenario_id user) (λ r.
          Leaves-bind _ _ (Leaves-reply _) (λ before. Leaves-bind _ _ (Leaves-rename _ r) (λ moved.
            Leaves-bind _ _ (Leaves-change_owner _ user moved) (λ owned.
              Leaves-bind _ _ (Leaves-save c owned _ none) (λ saved.
                Leaves-bind _ _ (Leaves-reply _)
                  (λ result. Leaves-seq _ _ (Leaves-on_db _) (Leaves-pure result))))))))).run
      s
