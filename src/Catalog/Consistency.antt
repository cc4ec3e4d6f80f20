-- ===== src/Catalog/Consistency.antt =====
-- The tables of the catalog and the file of scenarios after a request (catalog/services.py).
use fox_runner_server.Prelude.{◌≡◌}
use fox_runner_server.Backend.Exec.{Reply, done, http, Action, ◌>>=◌, pure}
use fox_runner_server.Backend.Laws.{Gives, Returned, Anything, Gives-pure}
use fox_runner_server.Backend.Users.{User}
use fox_runner_server.Catalog.Tables.{Store}
use fox_runner_server.Catalog.Files.{Outside}
use fox_runner_server.Catalog.Requests.{
  Request, new_scenario, change_scenario, copy_scenario, drop_scenario, share, unshare, new_step,
  change_step, drop_step, new_slot, change_slot, drop_slot, serve_request,
}
use fox_runner_server.Catalog.Mirror.{Mirrors}
use fox_runner_server.Catalog.Mirrored.{
  Keeps, bind, create-Mirrors, update-Mirrors, duplicate-Mirrors, delete-Mirrors,
  create_step-Mirrors, update_step-Mirrors, delete_step-Mirrors,
}
use fox_runner_server.Catalog.Untouched.{
  share-Keeps, unshare-Keeps, create_owned_slot-Keeps, update_owned_slot-Keeps,
  delete_owned_slot-Keeps,
}

module _ {A : Type 0} where
  -- whatever the store was before
  from_Anything : (f : Action Store A) → Gives Anything f Mirrors → Keeps (f >>= λ _. pure tt)
  from_Anything f h = bind f _ (record { after = λ s m. h.after s tt }) (λ a. Gives-pure Mirrors tt)

  from_mirrored : (f : Action Store A) → Keeps f → Keeps (f >>= λ _. pure tt)
  from_mirrored f h = bind f _ h (λ a. Gives-pure Mirrors tt)

  returned : (r : Reply A × Store) (a : A) → Returned Mirrors r → r.0 ≡ done a → Mirrors r.1
  returned (done b, s) a h e = h
  returned (http code message, s) a h e = cc

serve_request-Keeps : (c : Outside) (req : Request) (user : User) → Keeps (serve_request c req user)
unfolding serve_request
serve_request-Keeps c (new_scenario scenario_id owner description definition) user =
    from_Anything _ (create-Mirrors c scenario_id owner description definition user)
serve_request-Keeps c (change_scenario scenario_id new_id owner description definition) user =
    from_Anything _ (update-Mirrors c scenario_id new_id owner description definition user)
serve_request-Keeps c (copy_scenario scenario_id new_id) user =
    from_Anything _ (duplicate-Mirrors c scenario_id new_id user)
serve_request-Keeps c (drop_scenario scenario_id) user =
    from_Anything _ (delete-Mirrors c scenario_id user)
serve_request-Keeps c (share scenario_id user_id) user =
    from_mirrored _ (share-Keeps scenario_id user_id user)
serve_request-Keeps c (unshare scenario_id user_id) user =
    from_mirrored _ (unshare-Keeps scenario_id user_id user)
serve_request-Keeps c (new_step user_id scenario_id collection step insert_at) user =
    from_Anything _ (create_step-Mirrors c user_id scenario_id collection step insert_at user)
serve_request-Keeps c (change_step user_id scenario_id collection index step) user =
    from_Anything _ (update_step-Mirrors c user_id scenario_id collection index step user)
serve_request-Keeps c (drop_step user_id scenario_id collection index) user =
    from_Anything _ (delete_step-Mirrors c user_id scenario_id collection index user)
serve_request-Keeps c (new_slot payload) user =
    from_mirrored _ (create_owned_slot-Keeps c payload user)
serve_request-Keeps c (change_slot slot_id payload) user =
    from_mirrored _ (update_owned_slot-Keeps c slot_id payload user)
serve_request-Keeps c (drop_slot slot_id) user =
    from_mirrored _ (delete_owned_slot-Keeps c slot_id user)

-- If the file of scenarios holds the scenarios and the configuration of the tables, then it does so
-- after every request that returns, whatever the validators say and whoever asks.
pub serve_request-Mirrors :
    (c : Outside) (req : Request) (user : User) (s : Store)
    → Mirrors s
    → (serve_request c req user s).0 ≡ done tt
    → Mirrors (serve_request c req user s).1
serve_request-Mirrors c req user s m e =
    returned (serve_request c req user s) tt ((serve_request-Keeps c req user).after s m) e
