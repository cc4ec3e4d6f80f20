-- ===== src/Catalog/Mirrored.antt =====
-- Every operation of catalog/services.py that returns leaves the file of scenarios as the rows say.
use fox_runner_server.Prelude.{ℕ, String, Option, none, ℤ}
use fox_runner_server.Prelude.Dict.{Dict}
use fox_runner_server.Prelude.Json.{Json}
use fox_runner_server.Backend.Exec.{Action, ◌>>=◌, ◌>>◌, pure}
use fox_runner_server.Backend.Laws.{
  Gives, Anything, Gives-reply, Gives-bind, Gives-skip, Gives-seq, Gives-skip_seq, Gives-pure,
}
use fox_runner_server.Backend.Users.{User}
use fox_runner_server.Catalog.Tables.{Scenario, Store}
use fox_runner_server.Catalog.Files.{Outside, write_scenarios_file}
use fox_runner_server.Catalog.Scenarios.{
  write_audit, save_scenario_definition, create_owned_scenario, update_owned_scenario,
  duplicate_owned_scenario, delete_owned_scenario,
}
use fox_runner_server.Catalog.Steps.{create_step, update_step, delete_step}
use fox_runner_server.Catalog.Mirror.{
  Mirrors, Gives-transaction, Gives-write_scenarios_file, Gives-save_scenario_definition,
  Gives-write_audit,
}

abbrev pub Keeps : {A : Type 0} → Action Store A → Type 0
Keeps f = Gives Mirrors f Mirrors

module _ {A B : Type 0} where
  pub bind :
      (f : Action Store A) (k : A → Action Store B)
      → Keeps f
      → ((a : A) → Keeps (k a))
      → Keeps (f >>= k)
  bind f k hf hk = Gives-bind Mirrors Mirrors Mirrors f k hf hk

module _ {B : Type 0} where
  pub seq : (f : Action Store (Unit {0})) (k : Action Store B) → Keeps f → Keeps k → Keeps (f >> k)
  seq f k hf hk = Gives-seq Mirrors Mirrors Mirrors f k hf hk

  -- an entry of the audit is all that is left to do
  pub audited_last :
      (user : User) (action target_type target_id : String) (before after : Dict Json) (b : B)
      → Keeps (write_audit user action target_type target_id before after >> pure b)
  audited_last user action target_type target_id before after b =
      seq (write_audit user action target_type target_id before after) (pure b)
        (Gives-write_audit user action target_type target_id before after) (Gives-pure Mirrors b)

  -- a definition is saved, and what follows keeps the file
  saved_then :
      (c : Outside)
      → (r : Scenario) → (definition : Dict Json) → (k : Scenario → Action Store B)
      → ((saved : Scenario) → Keeps (k saved))
      → Gives Anything (save_scenario_definition c r definition none >>= k) Mirrors
  saved_then c r definition k h =
      Gives-bind Anything Mirrors Mirrors (save_scenario_definition c r definition none) k
        (Gives-save_scenario_definition c Anything r definition none) h

module _ (c : Outside) where
  pub create-Mirrors :
      (scenario_id owner_user_id description : String)
      → (definition : Option (Dict Json)) → (user : User)
      → Gives Anything
          (create_owned_scenario c scenario_id owner_user_id description definition user)
          Mirrors
  unfolding create_owned_scenario
  create-Mirrors scenario_id owner_user_id description definition user =
      Gives-transaction Anything _ (
        Gives-skip_seq Anything Mirrors _ _ (
          Gives-skip Anything Mirrors _ _ (λ owner. Gives-skip Anything Mirrors _ _ (λ row.
            saved_then c row row.definition _ (λ saved. bind _ _ (Gives-reply Mirrors _) (λ result.
              audited_last user "scenario.create" "scenario" saved.scenario_id _ result result))))))

  pub update-Mirrors :
      (scenario_id : String)
      → (new_id owner_user_id description : Option String) → (definition : Option (Dict Json))
      → (user : User)
      → Gives Anything
          (update_owned_scenario c scenario_id new_id owner_user_id description definition user)
          Mirrors
  unfolding update_owned_scenario
  update-Mirrors scenario_id new_id owner_user_id description definition user =
      Gives-transaction Anything _ (
        Gives-skip Anything Mirrors _ _ (λ r. Gives-skip Anything Mirrors _ _ (λ before.
          Gives-skip Anything Mirrors _ _ (λ moved. Gives-skip Anything Mirrors _ _ (λ owned.
            saved_then c owned _ _ (λ saved. bind _ _ (Gives-reply Mirrors _) (λ result.
              audited_last user "scenario.update" "scenario" saved.scenario_id before result
                result)))))))

  pub duplicate-Mirrors :
      (scenario_id new_scenario_id : String) (user : User)
      → Gives Anything (duplicate_owned_scenario c scenario_id new_scenario_id user) Mirrors
  unfolding duplicate_owned_scenario
  duplicate-Mirrors scenario_id new_scenario_id user = Gives-transaction Anything _ (
      Gives-skip Anything Mirrors _ _ (λ source. Gives-skip Anything Mirrors _ _ (λ row.
        saved_then c row row.definition _ (λ saved. bind _ _ (Gives-reply Mirrors _) (λ result.
          audited_last user "scenario.duplicate" "scenario" new_scenario_id _ result result)))))

  pub delete-Mirrors :
      (scenario_id : String) (user : User)
      → Gives Anything (delete_owned_scenario c scenario_id user) Mirrors
  unfolding delete_owned_scenario
  delete-Mirrors scenario_id user = Gives-transaction Anything _ (
      Gives-skip Anything Mirrors _ _ (λ r. Gives-skip Anything Mirrors _ _ (λ used.
        Gives-skip_seq Anything Mirrors _ _ (
          Gives-skip Anything Mirrors _ _ (λ before. Gives-skip_seq Anything Mirrors _ _ (
            Gives-seq Anything Mirrors Mirrors (write_scenarios_file c) _
              (Gives-write_scenarios_file c Anything)
              (audited_last user "scenario.delete" "scenario" scenario_id before _ _)))))))

  pub create_step-Mirrors :
      (user_id scenario_id collection : String)
      → (step : Dict Json) → (insert_at : Option ℕ) → (user : User)
      → Gives Anything (create_step c user_id scenario_id collection step insert_at user) Mirrors
  unfolding create_step
  create_step-Mirrors user_id scenario_id collection step insert_at user =
      Gives-transaction Anything _ (
        Gives-skip Anything Mirrors _ _ (λ scenario. Gives-skip Anything Mirrors _ _ (λ inserted.
          saved_then c scenario inserted.1 _
            (λ saved. audited_last user "step.create" "scenario" scenario_id _ _ _))))

  pub update_step-Mirrors :
      (user_id scenario_id collection : String)
      → (index : ℤ) → (step : Dict Json) → (user : User)
      → Gives Anything (update_step c user_id scenario_id collection index step user) Mirrors
  unfolding update_step
  update_step-Mirrors user_id scenario_id collection index step user =
      Gives-transaction Anything _ (
        Gives-skip Anything Mirrors _ _ (λ scenario. Gives-skip Anything Mirrors _ _ (λ replaced.
          saved_then c scenario replaced.1 _
            (λ saved. audited_last user "step.update" "scenario" scenario_id _ _ _))))

  pub delete_step-Mirrors :
      (user_id scenario_id collection : String)
      → (index : ℤ) → (user : User)
      → Gives Anything (delete_step c user_id scenario_id collection index user) Mirrors
  unfolding delete_step
  delete_step-Mirrors user_id scenario_id collection index user = Gives-transaction Anything _ (
      Gives-skip Anything Mirrors _ _ (λ scenario. Gives-skip Anything Mirrors _ _ (λ removed.
        saved_then c scenario removed.1 _
          (λ saved. audited_last user "step.delete" "scenario" scenario_id _ _ _))))
