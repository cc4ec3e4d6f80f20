-- ===== src/Catalog/Renamed.antt =====
-- What an update that renames a scenario does to its slots (catalog/services.py), in the table and in
-- the file.
use fox_runner_server.Prelude.{
  String, ◌≡◌, refl, sym, ap, ◌∙◌, Option, none, some, true, false, List, [], ◌∷◌, map, All, arith,
  if◌then◌else◌, is_truthy, str_eq, eq_iff, Bool-cases, inl, inr,
}
use fox_runner_server.Prelude.Dict.{Dict}
use fox_runner_server.Prelude.Json.{Json}
use fox_runner_server.Backend.Exec.{
  Reply, done, http, Action, ◌>>=◌, ◌>>◌, and_then, pure, query, reply,
}
use fox_runner_server.Backend.Laws.{
  Gives, Returned, Anything, Gives-bind, Gives-skip, Gives-seq, Gives-skip_seq, Gives-pure,
  Gives-query, Gives-reply, Gives-change,
}
use fox_runner_server.Backend.Users.{User}
use fox_runner_server.Catalog.Tables.{
  Scenario, Slot, Db, Store, transaction, atomic, set_db, commit, roll_back, add_audit, set_slots,
  set_scenarios,
}
use fox_runner_server.Catalog.Access.{get_scenario_for_user, find_scenario}
use fox_runner_server.Catalog.Files.{Outside, write_scenarios_file, set_scenarios_file, reject}
use fox_runner_server.Catalog.Scenarios.{
  ask, on_db, write_audit, owned_scenario, rename, rename_slots, new_name, change_owner,
  save_scenario_definition, update_owned_scenario,
}
use fox_runner_server.Catalog.Stale.{update_owned_scenario-slots_file}

-- no slot of the table names the scenario
abbrev pub Unnamed : String → Store → Type 0
Unnamed scenario_id s = All (λ (x : Slot). str_eq x.scenario_id scenario_id ≡ false) s.db.slots

-- what the action returns satisfies `V`
record Yields {A : Type 0} (f : Action Store A) (V : A → Type 0) : Type 0 where
  value : (s : Store) (a : A) → (f s).0 ≡ done a → V a

module _ {A B : Type 0} where
  continue_with :
      (V : A → Type 0) (R : Store → Type 0) (k : A → Action Store B)
      → ((a : A) → V a → Gives Anything (k a) R)
      → (r : Reply A × Store) → ((a : A) → r.0 ≡ done a → V a)
      → Returned R (and_then r.0 k r.1)
  continue_with V R k h (done a, s) v = (h a (v a refl)).after s tt
  continue_with V R k h (http code message, s) v = tt

  Gives-yields :
      (V : A → Type 0) (R : Store → Type 0) (f : Action Store A) (k : A → Action Store B)
      → Yields f V
      → ((a : A) → V a → Gives Anything (k a) R)
      → Gives Anything (f >>= k) R
  unfolding ◌>>=◌
  Gives-yields V R f k v h = record { after = λ s p. continue_with V R k h (f s) (v.value s) }

found_id :
    (rows : List Scenario) (scenario_id : String) (r : Scenario)
    → find_scenario rows scenario_id ≡ some r
    → r.scenario_id ≡ scenario_id
unfolding find_scenario
found_id [] scenario_id r h = cc
found_id (x ∷ rows) scenario_id r h =
    ground (arith, found_id rows scenario_id r, h, eq_iff x.scenario_id scenario_id)

given_id :
    (scenario_id : String) (user : User) (db : Db) (r : Scenario)
    → get_scenario_for_user scenario_id user db ≡ done r
    → r.scenario_id ≡ scenario_id
unfolding get_scenario_for_user
given_id scenario_id user db r h = ground (arith, found_id db.scenarios scenario_id r, h)

passed_on :
    (q : Reply (Unit {0})) (x r : Scenario) (s : Store)
    → (and_then q (λ (u : Unit {0}). pure x) s).0 ≡ done r
    → x ≡ r
unfolding pure
passed_on (done u) x r s h = cc
passed_on (http code message) x r s h = cc

owned_value :
    (g : Reply Scenario) (k : Scenario → Reply (Unit {0})) (s : Store) (r : Scenario)
    → (and_then g (λ x. (reply (k x) >> pure x)) s).0 ≡ done r
    → g ≡ done r
unfolding reply ◌>>=◌ ◌>>◌
owned_value (done x) k s r h = ap done (passed_on (k x) x r s h)
owned_value (http code message) k s r h = cc

owned-Yields :
    (scenario_id : String) (user : User)
    → Yields (owned_scenario scenario_id user) (λ r. r.scenario_id ≡ scenario_id)
unfolding owned_scenario ask query ◌>>=◌
owned-Yields scenario_id user = record {
  value = λ s r h.
      given_id scenario_id user s.db r
        (owned_value (get_scenario_for_user scenario_id user s.db) _ s r h);
}

renamed_slots :
    (old id new : String) (slots : List Slot)
    → old ≡ id
    → str_eq new id ≡ false
    → All
        (λ (x : Slot). str_eq x.scenario_id id ≡ false)
        (map
          (λ (x : Slot).
            if str_eq x.scenario_id old
            then record {
              slot_id = x.slot_id;
              scenario_id = new;
              days = x.days;
              start = x.start;
              end_at = x.end_at;
              enabled = x.enabled;
            }
            else x)
          slots)
renamed_slots old id new [] e h = tt
renamed_slots old id new (x ∷ slots) e h = elim (Bool-cases (str_eq x.scenario_id old)) [
  | inl same ↦ rw same (h, renamed_slots old id new slots e h)
  | inr other ↦
      rw other (ap (str_eq x.scenario_id) (sym e) ∙ other, renamed_slots old id new slots e h)
]

committed :
    {A : Type 0} (id : String) (db : Db) (r : Reply A × Store)
    → Returned (Unnamed id) r
    → Returned (Unnamed id) (commit db r)
unfolding commit
committed id db (done a, s) h = ground arith
committed id db (http code message, s) h = tt

rolled :
    {A : Type 0} (id : String) (db : Db) (r : Reply A × Store)
    → Returned (Unnamed id) r
    → Returned (Unnamed id) (roll_back db r)
unfolding roll_back
rolled id db (done a, s) h = h
rolled id db (http code message, s) h = tt

module _ (id : String) where
  in_transaction :
      {A : Type 0} (f : Action Store A)
      → Gives Anything f (Unnamed id)
      → Gives Anything (transaction f) (Unnamed id)
  unfolding transaction
  in_transaction f h = record { after = λ s p. committed id s.db (f s) (h.after s p) }

  in_atomic :
      {A : Type 0} (f : Action Store A)
      → Gives (Unnamed id) f (Unnamed id)
      → Gives (Unnamed id) (atomic f) (Unnamed id)
  unfolding atomic
  in_atomic f h = record { after = λ s p. rolled id s.db (f s) (h.after s p) }

  rejected : (o : Option String) (s : Store) → Unnamed id s → Returned (Unnamed id) (reject o s)
  unfolding reject
  rejected none s h = h
  rejected (some message) s h = tt

  write-Unnamed : (c : Outside) → Gives (Unnamed id) (write_scenarios_file c) (Unnamed id)
  unfolding write_scenarios_file set_scenarios_file
  write-Unnamed c =
      Gives-bind (Unnamed id) (Unnamed id) (Unnamed id) _ _ (Gives-query (Unnamed id) _) (λ old.
        Gives-bind (Unnamed id) (Unnamed id) (Unnamed id) _ _ (Gives-query (Unnamed id) _) (λ new.
          Gives-seq (Unnamed id) (Unnamed id) (Unnamed id) _ _
            (record { after = λ s h. rejected _ s h })
            (Gives-change (Unnamed id) (Unnamed id) _ (λ s h. h))))

  save-Unnamed :
      (c : Outside) (r : Scenario) (d : Dict Json) (o : Option String)
      → Gives (Unnamed id) (save_scenario_definition c r d o) (Unnamed id)
  unfolding save_scenario_definition on_db set_db set_scenarios
  save-Unnamed c r d o = in_atomic _ (
      Gives-seq (Unnamed id) (Unnamed id) (Unnamed id) _ _
        (Gives-change (Unnamed id) (Unnamed id) _ (λ t k. k))
        (Gives-seq (Unnamed id) (Unnamed id) (Unnamed id) _ _ (write-Unnamed c)
          (Gives-pure (Unnamed id) _)))

  owner-Unnamed :
      (o : Option String) (user : User) (r : Scenario)
      → Gives (Unnamed id) (change_owner o user r) (Unnamed id)
  unfolding change_owner ask
  owner-Unnamed none user r = Gives-pure (Unnamed id) r
  owner-Unnamed (some owner) user r =
      Gives-seq (Unnamed id) (Unnamed id) (Unnamed id) _ _ (Gives-query (Unnamed id) _) (
        Gives-bind (Unnamed id) (Unnamed id) (Unnamed id) _ _ (Gives-query (Unnamed id) _)
          (λ x. Gives-pure (Unnamed id) _))

  rename-Unnamed :
      (name : String) (r : Scenario)
      → is_truthy name ≡ true
      → str_eq name id ≡ false
      → r.scenario_id ≡ id
      → Gives Anything (rename (new_name (some name) r) r) (Unnamed id)
  unfolding rename new_name ask on_db set_db rename_slots set_slots
  rename-Unnamed name r filled other same =
      rw (ap (str_eq name) same, filled, other, new_name, rename)
        (Gives-skip Anything (Unnamed id) _ _ (λ exists. Gives-skip_seq Anything (Unnamed id) _ _ (
          Gives-seq Anything (Unnamed id) (Unnamed id) _ _
            (Gives-change Anything (Unnamed id) _
              (λ s h. renamed_slots r.scenario_id id name s.db.slots same other))
            (Gives-pure (Unnamed id) _))))

  audit-Unnamed :
      (user : User) (action target_type target_id : String) (before after : Dict Json)
      → Gives (Unnamed id) (write_audit user action target_type target_id before after) (Unnamed id)
  unfolding write_audit on_db set_db add_audit
  audit-Unnamed user action target_type target_id before after =
      Gives-change (Unnamed id) (Unnamed id) _ (λ s h. h)

  update-Unnamed :
      (c : Outside) (name : String) (owner_user_id description : Option String)
      (definition : Option (Dict Json)) (user : User)
      → is_truthy name ≡ true
      → str_eq name id ≡ false
      → Gives Anything
          (update_owned_scenario c id (some name) owner_user_id description definition user)
          (Unnamed id)
  unfolding update_owned_scenario
  update-Unnamed c name owner_user_id description definition user filled other = in_transaction _ (
      Gives-yields (λ r. r.scenario_id ≡ id) (Unnamed id) _ _ (owned-Yields id user)
        (λ r same. Gives-skip Anything (Unnamed id) _ _ (λ before.
          Gives-bind Anything (Unnamed id) (Unnamed id) _ _
            (rename-Unnamed name r filled other same)
            (λ moved.
              Gives-bind (Unnamed id) (Unnamed id) (Unnamed id) _ _
                (owner-Unnamed owner_user_id user moved)
                (λ owned.
                  Gives-bind (Unnamed id) (Unnamed id) (Unnamed id) _ _
                    (save-Unnamed c owned _ none)
                    (λ saved.
                      Gives-bind (Unnamed id) (Unnamed id) (Unnamed id) _ _
                        (Gives-reply (Unnamed id) _)
                        (λ result.
                          Gives-seq (Unnamed id) (Unnamed id) (Unnamed id) _ _
                            (audit-Unnamed user _ _ _ _ _) (Gives-pure (Unnamed id) _))))))))

result-Unnamed :
    {A : Type 0} (id : String) (r : Reply A × Store) (a : A)
    → Returned (Unnamed id) r
    → r.0 ≡ done a
    → Unnamed id r.1
result-Unnamed id (done b, s) a h e = h
result-Unnamed id (http code message, s) a h e = cc

-- An update that gives a scenario another name, which is not empty, and returns leaves no slot of the
-- table with the old name, and it leaves the file of slots as it was, with the old name in it if it
-- was there.
pub update_owned_scenario-renames :
    (c : Outside) (scenario_id name : String) (owner_user_id description : Option String)
    (definition : Option (Dict Json)) (user : User) (s : Store) (result : Dict Json)
    → is_truthy name ≡ true
    → str_eq name scenario_id ≡ false
    → (update_owned_scenario c scenario_id
        (some name)
        owner_user_id
        description
        definition
        user
        s).0
      ≡ done result
    → Unnamed scenario_id
        (update_owned_scenario c scenario_id
          (some name)
          owner_user_id
          description
          definition
          user
          s).1
      × ((update_owned_scenario c scenario_id
            (some name)
            owner_user_id
            description
            definition
            user
            s).1.slots_file
          ≡ s.slots_file)
update_owned_scenario-renames c scenario_id name owner description definition user s result filled
      other e =
    (
      result-Unnamed scenario_id
          (update_owned_scenario c scenario_id (some name) owner description definition user s)
          result
          ((update-Unnamed scenario_id c name owner description definition user filled other).after
            s tt)
          e,
      update_owned_scenario-slots_file c scenario_id (some name) owner description definition user
          s,
    )
