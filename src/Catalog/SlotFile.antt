-- ===== src/Catalog/SlotFile.antt =====
-- The file of slots (catalog/services.py): a request that changes slots leaves it as the rows say, and
-- an update of a scenario, which may rename it, leaves it alone.
use fox_runner_server.Prelude.{String, ◌≡◌, refl, Option, none, some, Bool, true, false, arith}
use fox_runner_server.Prelude.Dict.{Dict}
use fox_runner_server.Prelude.Json.{Json, object}
use fox_runner_server.Backend.Exec.{Reply, done, http, Action, ◌>>=◌, ◌>>◌, pure, query, change}
use fox_runner_server.Backend.Laws.{
  Gives, Returned, Anything, Gives-bind, Gives-skip, Gives-seq, Gives-skip_seq, Gives-pure,
  Gives-change,
}
use fox_runner_server.Backend.Users.{User}
use fox_runner_server.Catalog.Tables.{
  Slot, Db, Store, document, transaction, set_db, commit, add_audit,
}
use fox_runner_server.Catalog.Files.{
  Outside, sync_slots_file, slots_document, set_slots_file, reject,
}
use fox_runner_server.Catalog.Scenarios.{on_db, write_audit}
use fox_runner_server.Catalog.Slots.{
  SlotPatch, create_owned_slot, update_owned_slot, delete_owned_slot,
}
use fox_runner_server.Catalog.Requests.{
  Request, new_scenario, change_scenario, copy_scenario, drop_scenario, share, unshare, new_step,
  change_step, drop_step, new_slot, change_slot, drop_slot, serve_request,
}

-- a request on slots
unfoldable pub changes_slots : Request → Bool
changes_slots (new_slot slot) = true
changes_slots (change_slot slot_id patch) = true
changes_slots (drop_slot slot_id) = true
changes_slots _ = false

-- the file of slots holds the enabled slots of the table
unfoldable pub SlotsMirror : Store → Type 0
SlotsMirror s = s.slots_file ≡ document (object (slots_document s.db))

module _ {A : Type 0} where
  committed :
      (db : Db) (r : Reply A × Store) → Returned SlotsMirror r → Returned SlotsMirror (commit db r)
  unfolding commit
  committed db (done a, s) h = ground arith
  committed db (http code message, s) h = tt

  in_transaction :
      (f : Action Store A)
      → Gives Anything f SlotsMirror
      → Gives Anything (transaction f) SlotsMirror
  unfolding transaction
  in_transaction f h = record { after = λ s p. committed s.db (f s) (h.after s p) }

module _ (c : Outside) where
  written :
      (s : Store) (o : Option String)
      → Returned SlotsMirror ((reject o >> change (set_slots_file (slots_document s.db))) s)
  unfolding reject ◌>>◌ ◌>>=◌ change set_slots_file SlotsMirror
  written s none = refl
  written s (some message) = tt

  sync_slots_file-SlotsMirror : Gives Anything (sync_slots_file c) SlotsMirror
  unfolding sync_slots_file query ◌>>=◌
  sync_slots_file-SlotsMirror = record {
    after = λ s p. written s (c.check_slots (slots_document s.db));
  }

  -- the file is written, and an entry of the audit is all that is left to do
  synced_then_audited :
      {B : Type 0}
      → (user : User) → (action target_type target_id : String) → (before after : Dict Json)
      → (b : B)
      → Gives Anything
          (sync_slots_file c
            >> (write_audit user action target_type target_id before after >> pure b))
          SlotsMirror
  unfolding write_audit on_db set_db add_audit SlotsMirror slots_document
  synced_then_audited user action target_type target_id before after b =
      Gives-seq Anything SlotsMirror SlotsMirror _ _ sync_slots_file-SlotsMirror (
        Gives-seq SlotsMirror SlotsMirror SlotsMirror _ _
          (Gives-change SlotsMirror SlotsMirror _ (λ s h. h)) (Gives-pure SlotsMirror b))

  create_owned_slot-SlotsMirror :
      (payload : Slot) (user : User) → Gives Anything (create_owned_slot c payload user) SlotsMirror
  unfolding create_owned_slot
  create_owned_slot-SlotsMirror payload user = in_transaction _ (
      Gives-skip Anything SlotsMirror _ _ (λ scenario.
        Gives-skip Anything SlotsMirror _ _ (λ r. synced_then_audited user _ _ _ _ _ _)))

  update_owned_slot-SlotsMirror :
      (slot_id : String) (payload : SlotPatch) (user : User)
      → Gives Anything (update_owned_slot c slot_id payload user) SlotsMirror
  unfolding update_owned_slot
  update_owned_slot-SlotsMirror slot_id payload user = in_transaction _ (
      Gives-skip Anything SlotsMirror _ _ (λ r. Gives-skip Anything SlotsMirror _ _ (λ scenario.
        Gives-skip Anything SlotsMirror _ _ (λ scenario_id.
          Gives-skip_seq Anything SlotsMirror _ _ (synced_then_audited user _ _ _ _ _ _)))))

  delete_owned_slot-SlotsMirror :
      (slot_id : String) (user : User)
      → Gives Anything (delete_owned_slot c slot_id user) SlotsMirror
  unfolding delete_owned_slot
  delete_owned_slot-SlotsMirror slot_id user = in_transaction _ (
      Gives-skip Anything SlotsMirror _ _ (λ r. Gives-skip Anything SlotsMirror _ _ (λ scenario.
        Gives-skip_seq Anything SlotsMirror _ _ (synced_then_audited user _ _ _ _ _ _))))

  ended_with :
      {A : Type 0}
      → (f : Action Store A) → Gives Anything f SlotsMirror
      → Gives Anything (f >>= λ a. pure tt) SlotsMirror
  ended_with f h =
      Gives-bind Anything SlotsMirror SlotsMirror f _ h (λ a. Gives-pure SlotsMirror tt)

  slot_request-SlotsMirror :
      (req : Request) (user : User)
      → changes_slots req ≡ true
      → Gives Anything (serve_request c req user) SlotsMirror
  unfolding serve_request changes_slots
  slot_request-SlotsMirror (new_slot slot) user h =
      ended_with _ (create_owned_slot-SlotsMirror slot user)
  slot_request-SlotsMirror (change_slot slot_id patch) user h =
      ended_with _ (update_owned_slot-SlotsMirror slot_id patch user)
  slot_request-SlotsMirror (drop_slot slot_id) user h =
      ended_with _ (delete_owned_slot-SlotsMirror slot_id user)
  slot_request-SlotsMirror (new_scenario i o d f) user h = cc
  slot_request-SlotsMirror (change_scenario i n o d f) user h = cc
  slot_request-SlotsMirror (copy_scenario i n) user h = cc
  slot_request-SlotsMirror (drop_scenario i) user h = cc
  slot_request-SlotsMirror (share i u) user h = cc
  slot_request-SlotsMirror (unshare i u) user h = cc
  slot_request-SlotsMirror (new_step u i k p a) user h = cc
  slot_request-SlotsMirror (change_step u i k n p) user h = cc
  slot_request-SlotsMirror (drop_step u i k n) user h = cc

  returned_mirror :
      {A : Type 0} (r : Reply A × Store) (a : A)
      → Returned SlotsMirror r
      → r.0 ≡ done a
      → SlotsMirror r.1
  returned_mirror (done b, s) a h e = h
  returned_mirror (http code message, s) a h e = cc

  -- After a request that creates, patches or deletes a slot and returns, the file of slots holds the
  -- enabled slots of the table, whatever it held before.
  pub serve_request-SlotsMirror :
      (req : Request) (user : User) (s : Store)
      → changes_slots req ≡ true
      → (serve_request c req user s).0 ≡ done tt
      → SlotsMirror (serve_request c req user s).1
  serve_request-SlotsMirror req user s h e =
      returned_mirror (serve_request c req user s) tt
        ((slot_request-SlotsMirror req user h).after s tt) e
