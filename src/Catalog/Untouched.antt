-- ===== src/Catalog/Untouched.antt =====
-- The operations of catalog/services.py on shares and slots, which leave the scenarios and their file
-- alone.
use fox_runner_server.Prelude.{
  String, Option, none, some, true, false, List, arith, if◌then◌else◌, str_eq,
}
use fox_runner_server.Backend.Exec.{◌>>=◌, pure}
use fox_runner_server.Backend.Laws.{
  Gives-reply, Gives-query, Gives-pure, Gives-change, Gives-require,
}
use fox_runner_server.Backend.Users.{User}
use fox_runner_server.Catalog.Tables.{ScenarioShare, Slot, Db, set_db, set_slots, set_shares}
use fox_runner_server.Catalog.Files.{Outside, sync_slots_file, reject, set_slots_file}
use fox_runner_server.Catalog.Scenarios.{
  on_db, owned_scenario, share_owned_scenario, unshare_owned_scenario, share_scenario,
  unshare_scenario, add_share, remove_share,
}
use fox_runner_server.Catalog.Slots.{
  SlotPatch, create_owned_slot, update_owned_slot, delete_owned_slot, create_slot, move, add_slot,
  save_slot, remove_slot,
}
use fox_runner_server.Catalog.Mirror.{Mirrors, Gives-transaction, Gives-atomic, Gives-ask}
use fox_runner_server.Catalog.Mirrored.{Keeps, bind, seq, audited_last}

owned_scenario-Keeps :
    (scenario_id : String) (user : User) → Keeps (owned_scenario scenario_id user)
unfolding owned_scenario
owned_scenario-Keeps scenario_id user =
    bind _ _ (Gives-ask _) (λ r. seq _ _ (Gives-reply Mirrors _) (Gives-pure Mirrors r))

add_share-Keeps : (x : ScenarioShare) → Keeps (on_db (add_share x))
unfolding on_db add_share set_shares set_db Mirrors
add_share-Keeps x = Gives-change Mirrors Mirrors _ (λ s h. ground (arith, h))

remove_share-Keeps :
    (scenario_id user_id : String) → Keeps (on_db (remove_share scenario_id user_id))
unfolding on_db remove_share set_shares set_db Mirrors
remove_share-Keeps scenario_id user_id = Gives-change Mirrors Mirrors _ (λ s h. ground (arith, h))

share_scenario-Keeps : (scenario_id user_id : String) → Keeps (share_scenario scenario_id user_id)
unfolding share_scenario
share_scenario-Keeps scenario_id user_id = Gives-atomic Mirrors _ (
    bind _ _ (Gives-ask _) (λ r.
      bind _ _ (Gives-ask _)
        (λ target. seq _ _ (add_share-Keeps _) (Gives-pure Mirrors target.id))))

pub share-Keeps :
    (scenario_id share_user_id : String) (user : User)
    → Keeps (share_owned_scenario scenario_id share_user_id user)
unfolding share_owned_scenario
share-Keeps scenario_id share_user_id user = Gives-transaction Mirrors _ (
    bind _ _ (owned_scenario-Keeps scenario_id user) (λ r.
      bind _ _ (share_scenario-Keeps scenario_id share_user_id)
        (λ target. audited_last user "scenario.share" "scenario" scenario_id _ _ _)))

pub unshare-Keeps :
    (scenario_id share_user_id : String) (user : User)
    → Keeps (unshare_owned_scenario scenario_id share_user_id user)
unfolding unshare_owned_scenario unshare_scenario
unshare-Keeps scenario_id share_user_id user = Gives-transaction Mirrors _ (
    bind _ _ (owned_scenario-Keeps scenario_id user) (λ r.
      seq _ _ (Gives-atomic Mirrors _ (remove_share-Keeps scenario_id share_user_id))
        (audited_last user "scenario.unshare" "scenario" scenario_id _ _ _)))

reject-Keeps : (o : Option String) → Keeps (reject o)
unfolding reject
reject-Keeps none = record { after = λ s h. h }
reject-Keeps (some message) = record { after = λ s h. tt }

sync_slots_file-Keeps : (c : Outside) → Keeps (sync_slots_file c)
unfolding sync_slots_file set_slots_file Mirrors
sync_slots_file-Keeps c =
    bind _ _ (Gives-query Mirrors _)
      (λ new. seq _ _ (reject-Keeps _) (Gives-change Mirrors Mirrors _ (λ s h. h)))

-- a change of the slots
slots-keep : (rows : Db → List Slot) → Keeps (on_db (λ db. set_slots (rows db) db))
unfolding on_db set_slots set_db Mirrors
slots-keep rows = Gives-change Mirrors Mirrors _ (λ s h. h)

create_slot-Keeps : (payload : Slot) → Keeps (create_slot payload)
unfolding create_slot add_slot
create_slot-Keeps payload = Gives-atomic Mirrors _ (
    bind _ _ (Gives-ask _) (λ scenario. bind _ _ (Gives-ask _) (λ exists.
      seq _ _ (Gives-require Mirrors _ _ _) (seq _ _ (slots-keep _) (Gives-pure Mirrors payload)))))

move-Keeps : (o : Option String) (r : Slot) (user : User) → Keeps (move o r user)
unfolding move
move-Keeps none r user = Gives-pure Mirrors _
move-Keeps (some scenario_id) r user =
    elim (str_eq scenario_id r.scenario_id)
      as (λ b. Keeps (
        if b
        then pure r.scenario_id
        else (owned_scenario scenario_id user >>= λ target. pure target.scenario_id))) [
          | true ↦ Gives-pure Mirrors _
          | false ↦
              bind _ _ (owned_scenario-Keeps scenario_id user) (λ target. Gives-pure Mirrors _)
        ]

module _ (c : Outside) where
  pub create_owned_slot-Keeps :
      (payload : Slot) (user : User) → Keeps (create_owned_slot c payload user)
  unfolding create_owned_slot
  create_owned_slot-Keeps payload user = Gives-transaction Mirrors _ (
      bind _ _ (owned_scenario-Keeps payload.scenario_id user) (λ scenario.
        bind _ _ (create_slot-Keeps payload) (λ r.
          seq _ _ (sync_slots_file-Keeps c)
            (audited_last user "slot.create" "slot" r.slot_id _ _ _))))

  pub update_owned_slot-Keeps :
      (slot_id : String) (payload : SlotPatch) (user : User)
      → Keeps (update_owned_slot c slot_id payload user)
  unfolding update_owned_slot save_slot
  update_owned_slot-Keeps slot_id payload user = Gives-transaction Mirrors _ (
      bind _ _ (Gives-ask _) (λ r. bind _ _ (owned_scenario-Keeps r.scenario_id user) (λ scenario.
        bind _ _ (move-Keeps payload.scenario_id r user) (λ scenario_id.
          seq _ _ (slots-keep _)
            (seq _ _ (sync_slots_file-Keeps c) (audited_last user "slot.update" "slot" _ _ _ _))))))

  pub delete_owned_slot-Keeps :
      (slot_id : String) (user : User) → Keeps (delete_owned_slot c slot_id user)
  unfolding delete_owned_slot remove_slot
  delete_owned_slot-Keeps slot_id user = Gives-transaction Mirrors _ (
      bind _ _ (Gives-ask _) (λ r. bind _ _ (owned_scenario-Keeps r.scenario_id user) (λ scenario.
        seq _ _ (slots-keep _) (
          seq _ _ (sync_slots_file-Keeps c)
            (audited_last user "slot.delete" "slot" slot_id _ _ _)))))
