-- ===== src/Catalog/Witnesses.antt =====
-- Tests of the catalog's operations (catalog/services.py) on a small catalog.
use fox_runner_server.Prelude.{
  ℕ, String, ◌≡◌, refl, sym, ap, ◌∙◌, subst, Option, none, some, Bool, true, false, List, [], ◌∷◌,
  get_or, pos, inl, inr,
}
use fox_runner_server.Prelude.Dict.{Dict, get, put}
use fox_runner_server.Prelude.Json as Json
use fox_runner_server.Prelude.Json.{Json, object}
use fox_runner_server.Backend.Exec.{Reply, done, http}
use fox_runner_server.Backend.Users.{User}
use fox_runner_server.Catalog.Tables.{Scenario, Slot, CatalogConfig, Db, Store}
use fox_runner_server.Catalog.Access.{
  find_scenario, may_write, accessible_scenarios, get_scenario_for_user,
}
use fox_runner_server.Catalog.Config.{masked, update_catalog_config, map_values, mask_entry}
use fox_runner_server.Catalog.Edits.{insert_step, remove_step}
use fox_runner_server.Catalog.Requests.{Request, drop_scenario, new_step, drop_slot, serve_request}
use fox_runner_server.Catalog.SlotFile.{SlotsMirror, serve_request-SlotsMirror}
use fox_runner_server.Catalog.Renamed.{Unnamed, update_owned_scenario-renames}
use fox_runner_server.Catalog.Scenarios.{update_owned_scenario}
use fox_runner_server.Catalog.Guards.{serve_request-Refused}
use fox_runner_server.Catalog.Mirror.{Mirrors}
use fox_runner_server.Catalog.Consistency.{serve_request-Mirrors}
use fox_runner_server.Catalog.Visible.{accessible_scenarios-get_scenario_for_user, found}
use fox_runner_server.Catalog.EditLaws.{remove_step-insert_step}
use fox_runner_server.Catalog.ConfigLaws.{
  update_catalog_config-masked, update_catalog_config-NoMasks, masked-AreMasked, NoMasks, AreMasked,
}
use fox_runner_server.Catalog.Samples.{
  alice, bob, demo, definition, sleep_step, config, db, outside, store, mirrored_file,
}

abbrev new_sleep : Request
new_sleep = new_step "1" "demo" "steps" sleep_step (some 0)

demo_foreign : (r : Scenario) → find_scenario db.scenarios "demo" ≡ some r → may_write r bob ≡ false
unfolding may_write fox_runner_server.Catalog.Access.is_scenario_owner find_scenario
demo_foreign r e =
    subst (λ (x : Scenario). may_write x bob ≡ false)
      (ap (λ (o : Option Scenario). get_or o demo) e) refl

serve_request-Refused_example :
    (code : ℕ) × (message : String) × (serve_request outside (drop_scenario "demo") bob store
      ≡ (http code message, store))
unfolding fox_runner_server.Catalog.Guards.target
serve_request-Refused_example =
    serve_request-Refused outside (drop_scenario "demo") bob store "demo" refl demo_foreign

store-Mirrors : Mirrors store
unfolding Mirrors get fox_runner_server.Catalog.Files.scenarios_map
    fox_runner_server.Catalog.Files.order_by fox_runner_server.Catalog.Files.insert_by
    fox_runner_server.Catalog.Files.catalog_data_for_document
    fox_runner_server.Catalog.Files.put_unless_blank put
    fox_runner_server.Catalog.Files.put_unless_empty fox_runner_server.Catalog.Files.has_no_items
store-Mirrors = (mirrored_file, refl, refl, refl)

new_sleep_done : (serve_request outside new_sleep alice store).0 ≡ done tt
unfolding get Json.truth update_catalog_config fox_runner_server.Catalog.Tables.transaction
    fox_runner_server.Backend.Exec.◌>>=◌ fox_runner_server.Catalog.Scenarios.ask
    fox_runner_server.Backend.Exec.query fox_runner_server.Backend.Exec.◌>>◌
    fox_runner_server.Backend.Exec.require fox_runner_server.Catalog.Config.names_one masked
    fox_runner_server.Prelude.Dict.has fox_runner_server.Catalog.Config.merge_pushovers map_values
    fox_runner_server.Catalog.Scenarios.on_db fox_runner_server.Backend.Exec.change
    fox_runner_server.Catalog.Files.write_scenarios_file
    fox_runner_server.Catalog.Config.get_catalog_config fox_runner_server.Catalog.Config.is_filled
    fox_runner_server.Catalog.Config.mask mask_entry fox_runner_server.Catalog.Config.merge_entry
    fox_runner_server.Catalog.Config.merge_secret fox_runner_server.Catalog.Config.restore
    fox_runner_server.Catalog.Files.catalog_data_for_document
    fox_runner_server.Catalog.Files.insert_by fox_runner_server.Catalog.Files.has_no_items
    fox_runner_server.Catalog.Files.load_json_dict fox_runner_server.Catalog.Files.order_by
    fox_runner_server.Catalog.Files.put_unless_blank
    fox_runner_server.Catalog.Files.put_unless_empty fox_runner_server.Catalog.Files.reject
    fox_runner_server.Catalog.Files.scenarios_document fox_runner_server.Catalog.Files.scenarios_map
    fox_runner_server.Catalog.Files.set_scenarios_file fox_runner_server.Catalog.Tables.commit
    fox_runner_server.Catalog.Tables.references_hold
    fox_runner_server.Catalog.Tables.scenario_exists fox_runner_server.Catalog.Tables.set_config
    fox_runner_server.Catalog.Tables.set_db fox_runner_server.Prelude.Dict.pop put Json.dict_of
    Json.fields_of Json.is_text Json.put_default fox_runner_server.Store.Executed.before
    serve_request fox_runner_server.Catalog.Steps.create_step
    fox_runner_server.Catalog.Steps.editable fox_runner_server.Backend.Users.require_user_scope
    fox_runner_server.Backend.Users.resolve_user fox_runner_server.Backend.Exec.reply
    fox_runner_server.Backend.Exec.pure fox_runner_server.Catalog.Edits.ensure_step_collection
    fox_runner_server.Catalog.Edits.is_step_collection
    fox_runner_server.Catalog.Scenarios.owned_scenario get_scenario_for_user find_scenario may_write
    fox_runner_server.Catalog.Access.is_scenario_owner
    fox_runner_server.Catalog.Access.require_scenario_owner insert_step
    fox_runner_server.Catalog.Edits.step_collection_view fox_runner_server.Catalog.Edits.view
    fox_runner_server.Catalog.Edits.insert_index fox_runner_server.Catalog.Edits.insert_item
    fox_runner_server.Catalog.Edits.set_steps Json.to_list Json.of_list
    fox_runner_server.Catalog.Scenarios.save_scenario_definition
    fox_runner_server.Catalog.Scenarios.update_row fox_runner_server.Catalog.Scenarios.write_audit
    fox_runner_server.Catalog.Steps.audited fox_runner_server.Catalog.Tables.add_audit
    fox_runner_server.Catalog.Tables.atomic fox_runner_server.Catalog.Tables.roll_back
    fox_runner_server.Catalog.Tables.save_row fox_runner_server.Catalog.Tables.set_scenarios
new_sleep_done = refl

serve_request-Mirrors_example : Mirrors (serve_request outside new_sleep alice store).1
serve_request-Mirrors_example =
    serve_request-Mirrors outside new_sleep alice store store-Mirrors new_sleep_done

accessible_scenarios-get_scenario_for_user_example :
    find_scenario (accessible_scenarios alice db) "demo"
    ≡ found (get_scenario_for_user "demo" alice db)
unfolding find_scenario
accessible_scenarios-get_scenario_for_user_example =
    accessible_scenarios-get_scenario_for_user alice db "demo" (refl, tt)

abbrev two_steps : Dict Json
two_steps =
    ("steps", Json.arr (Json.cons (object sleep_step) (Json.cons (object sleep_step) Json.nil)))
    ∷ []

remove_step-insert_step_example :
    remove_step two_steps "steps" (pos 1) ≡ done (object sleep_step, definition)
unfolding get insert_step fox_runner_server.Catalog.Edits.step_collection_view
    fox_runner_server.Catalog.Edits.view fox_runner_server.Catalog.Edits.insert_index
    fox_runner_server.Catalog.Edits.set_steps Json.to_list put Json.of_list
    fox_runner_server.Catalog.Edits.insert_item
remove_step-insert_step_example =
    remove_step-insert_step definition two_steps "steps"
      (Json.arr (Json.cons (object sleep_step) Json.nil)) (some 7) sleep_step 1 refl refl

config_saved : (update_catalog_config outside (masked config) store).0 ≡ done (masked config)
unfolding get Json.truth update_catalog_config fox_runner_server.Catalog.Tables.transaction
    fox_runner_server.Backend.Exec.◌>>=◌ fox_runner_server.Catalog.Scenarios.ask
    fox_runner_server.Backend.Exec.query fox_runner_server.Backend.Exec.◌>>◌
    fox_runner_server.Backend.Exec.require fox_runner_server.Catalog.Config.names_one masked
    fox_runner_server.Prelude.Dict.has fox_runner_server.Catalog.Config.merge_pushovers map_values
    fox_runner_server.Catalog.Scenarios.on_db fox_runner_server.Backend.Exec.change
    fox_runner_server.Catalog.Files.write_scenarios_file
    fox_runner_server.Catalog.Config.get_catalog_config fox_runner_server.Catalog.Config.is_filled
    fox_runner_server.Catalog.Config.mask mask_entry fox_runner_server.Catalog.Config.merge_entry
    fox_runner_server.Catalog.Config.merge_secret fox_runner_server.Catalog.Config.restore
    fox_runner_server.Catalog.Files.catalog_data_for_document
    fox_runner_server.Catalog.Files.insert_by fox_runner_server.Catalog.Files.has_no_items
    fox_runner_server.Catalog.Files.load_json_dict fox_runner_server.Catalog.Files.order_by
    fox_runner_server.Catalog.Files.put_unless_blank
    fox_runner_server.Catalog.Files.put_unless_empty fox_runner_server.Catalog.Files.reject
    fox_runner_server.Catalog.Files.scenarios_document fox_runner_server.Catalog.Files.scenarios_map
    fox_runner_server.Catalog.Files.set_scenarios_file fox_runner_server.Catalog.Tables.commit
    fox_runner_server.Catalog.Tables.references_hold
    fox_runner_server.Catalog.Tables.scenario_exists fox_runner_server.Catalog.Tables.set_config
    fox_runner_server.Catalog.Tables.set_db fox_runner_server.Prelude.Dict.pop put Json.dict_of
    Json.fields_of Json.is_text Json.put_default fox_runner_server.Store.Executed.before
config_saved = refl

update_catalog_config-masked_example :
    (update_catalog_config outside (masked config) store).1.db.config ≡ config
unfolding get Json.truth
update_catalog_config-masked_example =
    update_catalog_config-masked outside store (masked config)
      (refl, inr (Json.text "t", refl, refl), inr (Json.text "u", refl, refl), tt) config_saved

update_catalog_config-NoMasks_example :
    NoMasks (update_catalog_config outside (masked config) store).1.db.config.pushovers
unfolding Json.is_text get
update_catalog_config-NoMasks_example =
    update_catalog_config-NoMasks outside store (masked config) (masked config) ((refl, refl), tt)
      config_saved

masked-AreMasked_example : AreMasked (map_values mask_entry config.pushovers)
masked-AreMasked_example = masked-AreMasked config.pushovers

drop_morning_done : (serve_request outside (drop_slot "morning") alice store).0 ≡ done tt
unfolding get Json.truth update_catalog_config fox_runner_server.Catalog.Tables.transaction
    fox_runner_server.Backend.Exec.◌>>=◌ fox_runner_server.Catalog.Scenarios.ask
    fox_runner_server.Backend.Exec.query fox_runner_server.Backend.Exec.◌>>◌
    fox_runner_server.Backend.Exec.require fox_runner_server.Catalog.Config.names_one masked
    fox_runner_server.Prelude.Dict.has fox_runner_server.Catalog.Config.merge_pushovers map_values
    fox_runner_server.Catalog.Scenarios.on_db fox_runner_server.Backend.Exec.change
    fox_runner_server.Catalog.Files.write_scenarios_file
    fox_runner_server.Catalog.Config.get_catalog_config fox_runner_server.Catalog.Config.is_filled
    fox_runner_server.Catalog.Config.mask mask_entry fox_runner_server.Catalog.Config.merge_entry
    fox_runner_server.Catalog.Config.merge_secret fox_runner_server.Catalog.Config.restore
    fox_runner_server.Catalog.Files.catalog_data_for_document
    fox_runner_server.Catalog.Files.insert_by fox_runner_server.Catalog.Files.has_no_items
    fox_runner_server.Catalog.Files.load_json_dict fox_runner_server.Catalog.Files.order_by
    fox_runner_server.Catalog.Files.put_unless_blank
    fox_runner_server.Catalog.Files.put_unless_empty fox_runner_server.Catalog.Files.reject
    fox_runner_server.Catalog.Files.scenarios_document fox_runner_server.Catalog.Files.scenarios_map
    fox_runner_server.Catalog.Files.set_scenarios_file fox_runner_server.Catalog.Tables.commit
    fox_runner_server.Catalog.Tables.references_hold
    fox_runner_server.Catalog.Tables.scenario_exists fox_runner_server.Catalog.Tables.set_config
    fox_runner_server.Catalog.Tables.set_db fox_runner_server.Prelude.Dict.pop put Json.dict_of
    Json.fields_of Json.is_text Json.put_default fox_runner_server.Store.Executed.before
    serve_request fox_runner_server.Catalog.Steps.create_step
    fox_runner_server.Catalog.Steps.editable fox_runner_server.Backend.Users.require_user_scope
    fox_runner_server.Backend.Users.resolve_user fox_runner_server.Backend.Exec.reply
    fox_runner_server.Backend.Exec.pure fox_runner_server.Catalog.Edits.ensure_step_collection
    fox_runner_server.Catalog.Edits.is_step_collection
    fox_runner_server.Catalog.Scenarios.owned_scenario get_scenario_for_user find_scenario may_write
    fox_runner_server.Catalog.Access.is_scenario_owner
    fox_runner_server.Catalog.Access.require_scenario_owner insert_step
    fox_runner_server.Catalog.Edits.step_collection_view fox_runner_server.Catalog.Edits.view
    fox_runner_server.Catalog.Edits.insert_index fox_runner_server.Catalog.Edits.insert_item
    fox_runner_server.Catalog.Edits.set_steps Json.to_list Json.of_list
    fox_runner_server.Catalog.Scenarios.save_scenario_definition
    fox_runner_server.Catalog.Scenarios.update_row fox_runner_server.Catalog.Scenarios.write_audit
    fox_runner_server.Catalog.Steps.audited fox_runner_server.Catalog.Tables.add_audit
    fox_runner_server.Catalog.Tables.atomic fox_runner_server.Catalog.Tables.roll_back
    fox_runner_server.Catalog.Tables.save_row fox_runner_server.Catalog.Tables.set_scenarios
    fox_runner_server.Catalog.Slots.delete_owned_slot fox_runner_server.Catalog.Slots.get_slot
    fox_runner_server.Catalog.Slots.find_slot fox_runner_server.Catalog.Slots.remove_slot
    fox_runner_server.Catalog.Files.sync_slots_file fox_runner_server.Catalog.Files.slots_document
    fox_runner_server.Catalog.Files.slot_item fox_runner_server.Catalog.Files.set_slots_file
    fox_runner_server.Catalog.Tables.set_slots
drop_morning_done = refl

serve_request-SlotsMirror_example :
    SlotsMirror (serve_request outside (drop_slot "morning") alice store).1
unfolding fox_runner_server.Catalog.SlotFile.changes_slots
serve_request-SlotsMirror_example =
    serve_request-SlotsMirror outside (drop_slot "morning") alice store refl drop_morning_done

abbrev renamed_summary : Dict Json
renamed_summary =
    ("scenario_id", Json.text "renamed")
    ∷ ("owner_user_id", Json.text "1")
    ∷ ("description", Json.text "")
    ∷ ("requires_enterprise_network", Json.bool false)
    ∷ ("before_steps", Json.num (pos 0))
    ∷ ("steps", Json.num (pos 1))
    ∷ ("on_success", Json.num (pos 0))
    ∷ ("on_failure", Json.num (pos 0))
    ∷ ("finally_steps", Json.num (pos 0))
    ∷ []

-- the scenario of the slot gets another name
renaming_done :
    (update_owned_scenario outside "demo" (some "renamed") none none none alice store).0
    ≡ done renamed_summary
unfolding get Json.truth fox_runner_server.Catalog.Tables.transaction
    fox_runner_server.Backend.Exec.◌>>=◌ fox_runner_server.Catalog.Scenarios.ask
    fox_runner_server.Backend.Exec.query fox_runner_server.Backend.Exec.◌>>◌
    fox_runner_server.Backend.Exec.require fox_runner_server.Prelude.Dict.has
    fox_runner_server.Catalog.Scenarios.on_db fox_runner_server.Backend.Exec.change
    fox_runner_server.Catalog.Files.write_scenarios_file
    fox_runner_server.Catalog.Files.catalog_data_for_document
    fox_runner_server.Catalog.Files.insert_by fox_runner_server.Catalog.Files.has_no_items
    fox_runner_server.Catalog.Files.load_json_dict fox_runner_server.Catalog.Files.order_by
    fox_runner_server.Catalog.Files.put_unless_blank
    fox_runner_server.Catalog.Files.put_unless_empty fox_runner_server.Catalog.Files.reject
    fox_runner_server.Catalog.Files.scenarios_document fox_runner_server.Catalog.Files.scenarios_map
    fox_runner_server.Catalog.Files.set_scenarios_file fox_runner_server.Catalog.Tables.commit
    fox_runner_server.Catalog.Tables.references_hold
    fox_runner_server.Catalog.Tables.scenario_exists fox_runner_server.Catalog.Tables.set_config
    fox_runner_server.Catalog.Tables.set_db put Json.dict_of Json.fields_of Json.is_text
    Json.put_default fox_runner_server.Store.Executed.before fox_runner_server.Backend.Exec.reply
    fox_runner_server.Backend.Exec.pure fox_runner_server.Catalog.Scenarios.owned_scenario
    get_scenario_for_user find_scenario may_write fox_runner_server.Catalog.Access.is_scenario_owner
    fox_runner_server.Catalog.Access.require_scenario_owner Json.to_list Json.of_list
    fox_runner_server.Catalog.Scenarios.save_scenario_definition
    fox_runner_server.Catalog.Scenarios.update_row fox_runner_server.Catalog.Scenarios.write_audit
    fox_runner_server.Catalog.Tables.add_audit fox_runner_server.Catalog.Tables.atomic
    fox_runner_server.Catalog.Tables.roll_back fox_runner_server.Catalog.Tables.save_row
    fox_runner_server.Catalog.Tables.set_scenarios fox_runner_server.Catalog.Files.sync_slots_file
    fox_runner_server.Catalog.Files.slots_document fox_runner_server.Catalog.Files.slot_item
    fox_runner_server.Catalog.Files.set_slots_file fox_runner_server.Catalog.Tables.set_slots
    fox_runner_server.Catalog.Scenarios.rename fox_runner_server.Catalog.Scenarios.renamed
    fox_runner_server.Catalog.Scenarios.rename_slots fox_runner_server.Catalog.Scenarios.new_name
    fox_runner_server.Catalog.Scenarios.change_owner
    fox_runner_server.Catalog.Scenarios.updated_definition
    fox_runner_server.Catalog.Summary.scenario_summary fox_runner_server.Catalog.Summary.either
    fox_runner_server.Catalog.Summary.children_of
    fox_runner_server.Catalog.Summary.collection_requires_network
    fox_runner_server.Catalog.Summary.definition_requires_network
    fox_runner_server.Catalog.Summary.items_size fox_runner_server.Catalog.Summary.size_of
    fox_runner_server.Catalog.Summary.sizes_of
    fox_runner_server.Catalog.Summary.scenario_summary_for_user update_owned_scenario
    fox_runner_server.Catalog.Summary.value_requires_network Json.field_of
renaming_done = refl

update_owned_scenario-renames_example :
    Unnamed "demo"
      (update_owned_scenario outside "demo" (some "renamed") none none none alice store).1
    × ((update_owned_scenario outside "demo"
          (some "renamed")
          none
          none
          none
          alice
          store).1.slots_file
        ≡ store.slots_file)
update_owned_scenario-renames_example =
    update_owned_scenario-renames outside "demo" "renamed" none none none alice store
      renamed_summary refl refl renaming_done
