-- ===== src/Catalog/Guards.antt =====
-- Only the owner of a scenario and a superuser change it, its shares, its steps and its slots: a
-- property of the operations of catalog/services.py.
use fox_runner_server.Prelude.{
  String, ◌≡◌, sym, ap, subst, Option, none, some, false, get_or, arith,
}
use fox_runner_server.Backend.Exec.{Reply, done, http, Action, ◌>>=◌, ◌>>◌, and_then, pure, reply}
use fox_runner_server.Backend.Laws.{
  Refused, Refused-bind_first, Refused-query, Refused-query_seq, Refused-reply_seq,
}
use fox_runner_server.Backend.Users.{User, require_user_scope}
use fox_runner_server.Catalog.Tables.{Scenario, Slot, Db, Store, transaction, set_db, commit}
use fox_runner_server.Catalog.Files.{Outside}
use fox_runner_server.Catalog.Access.{
  find_scenario, may_write, require_scenario_owner, get_scenario_for_user,
}
use fox_runner_server.Catalog.Scenarios.{
  owned_scenario, ask, update_owned_scenario, duplicate_owned_scenario, delete_owned_scenario,
  share_owned_scenario, unshare_owned_scenario,
}
use fox_runner_server.Catalog.Steps.{editable, create_step, update_step, delete_step}
use fox_runner_server.Catalog.Edits.{ensure_step_collection}
use fox_runner_server.Catalog.Slots.{
  find_slot, get_slot, create_owned_slot, update_owned_slot, delete_owned_slot,
}
use fox_runner_server.Catalog.Requests.{
  Request, new_scenario, change_scenario, copy_scenario, drop_scenario, share, unshare, new_step,
  change_step, drop_step, new_slot, change_slot, drop_slot, serve_request,
}

-- the scenario of a slot
scenario_of_slot : Db → String → Option String
scenario_of_slot db slot_id = elim (find_slot db.slots slot_id) [
  | none ↦ none
  | some r ↦ some r.scenario_id
]

-- the scenario that a request changes or extends
unfoldable pub target : Request → Db → Option String
unfolding scenario_of_slot
target (new_scenario scenario_id owner description definition) db = none
target (change_scenario scenario_id new_id owner description definition) db = some scenario_id
target (copy_scenario scenario_id new_id) db = some scenario_id
target (drop_scenario scenario_id) db = some scenario_id
target (share scenario_id user_id) db = some scenario_id
target (unshare scenario_id user_id) db = some scenario_id
target (new_step user_id scenario_id collection step insert_at) db = some scenario_id
target (change_step user_id scenario_id collection index step) db = some scenario_id
target (drop_step user_id scenario_id collection index) db = some scenario_id
target (new_slot payload) db = some payload.scenario_id
target (change_slot slot_id payload) db = scenario_of_slot db slot_id
target (drop_slot slot_id) db = scenario_of_slot db slot_id

-- no scenario of that id that the user may write
abbrev pub IsForeign : Db → String → User → Type 0
IsForeign db scenario_id user =
    (r : Scenario) → find_scenario db.scenarios scenario_id ≡ some r → may_write r user ≡ false

get_scenario_for_user-finds :
    (scenario_id : String) (user : User) (db : Db) (r : Scenario)
    → get_scenario_for_user scenario_id user db ≡ done r
    → find_scenario db.scenarios scenario_id ≡ some r
unfolding get_scenario_for_user
get_scenario_for_user-finds scenario_id user db r h = ground arith

require_scenario_owner-refused :
    (r : Scenario) (user : User)
    → may_write r user ≡ false
    → require_scenario_owner r user ≡ http 403 "Seul le proprietaire peut modifier ce scenario."
unfolding require_scenario_owner
require_scenario_owner-refused r user h = ground arith

owned_scenario-Refused :
    (scenario_id : String)
    → (user : User) → (s : Store) → IsForeign s.db scenario_id user
    → Refused (owned_scenario scenario_id user) s
unfolding owned_scenario ask reply pure ◌>>◌ ◌>>=◌
owned_scenario-Refused scenario_id user s h =
    Refused-query (λ (t : Store). get_scenario_for_user scenario_id user t.db) _ s
      (λ r e. (
        403,
        "Seul le proprietaire peut modifier ce scenario.",
        ap (λ (a : Reply (Unit {0})). and_then a (λ _. pure r) s)
            (require_scenario_owner-refused r user
              (h r (get_scenario_for_user-finds scenario_id user s.db r e))),
      ))

module _ {A : Type 0} where
  transaction-Refused : (f : Action Store A) (s : Store) → Refused f s → Refused (transaction f) s
  unfolding transaction commit set_db
  transaction-Refused f s (code, message, e) =
      (code, message, ap (λ (r : Reply A × Store). commit s.db r) e)

slot_scenario :
    (db : Db) (slot_id scenario_id : String) (r : Slot)
    → scenario_of_slot db slot_id ≡ some scenario_id
    → get_slot slot_id db ≡ done r
    → scenario_id ≡ r.scenario_id
unfolding scenario_of_slot get_slot
slot_scenario db slot_id scenario_id r e h = ground arith

foreign :
    (db : Db) (user : User) (j i : String)
    → some j ≡ some i
    → IsForeign db i user
    → IsForeign db j user
foreign db user j i e h =
    subst (λ (x : String). IsForeign db x user) (sym (ap (λ (o : Option String). get_or o j) e)) h

module _ {A B : Type 0} where
  -- a transaction that begins with the scenario of a user who may not write it
  owned-Refused :
      (scenario_id : String)
      → (user : User) → (k : Scenario → Action Store A) → (g : A → Action Store B) → (s : Store)
      → IsForeign s.db scenario_id user
      → Refused (transaction (owned_scenario scenario_id user >>= k) >>= g) s
  owned-Refused scenario_id user k g s h =
      Refused-bind_first (transaction (owned_scenario scenario_id user >>= k)) g s (
        transaction-Refused (owned_scenario scenario_id user >>= k) s (
          Refused-bind_first (owned_scenario scenario_id user) k s
            (owned_scenario-Refused scenario_id user s h)))

  -- the same for a change of its steps
  editable-Refused :
      (user_id scenario_id collection : String)
      → (user : User) → (k : Scenario → Action Store A) → (g : A → Action Store B) → (s : Store)
      → IsForeign s.db scenario_id user
      → Refused (transaction (editable user_id scenario_id collection user >>= k) >>= g) s
  unfolding editable ask
  editable-Refused user_id scenario_id collection user k g s h =
      Refused-bind_first (transaction (editable user_id scenario_id collection user >>= k)) g s (
        transaction-Refused (editable user_id scenario_id collection user >>= k) s (
          Refused-bind_first (editable user_id scenario_id collection user) k s (
            Refused-query_seq (λ (t : Store). require_user_scope t.db.users user_id user) _ s
              (Refused-reply_seq (ensure_step_collection collection) _ s
                (owned_scenario-Refused scenario_id user s h)))))

  -- the same for a slot, whose scenario is looked up first
  slot-Refused :
      (slot_id : String)
      → (user : User) → (k : Slot → Scenario → Action Store A) → (g : A → Action Store B)
      → (s : Store) → (scenario_id : String) → scenario_of_slot s.db slot_id ≡ some scenario_id
      → IsForeign s.db scenario_id user
      → Refused
          (transaction
              (ask (get_slot slot_id) >>= λ (r : Slot). owned_scenario r.scenario_id user >>= k r)
            >>= g)
          s
  unfolding ask
  slot-Refused slot_id user k g s scenario_id e h = Refused-bind_first (transaction _) g s (
      transaction-Refused _ s (
        Refused-query (λ (t : Store). get_slot slot_id t.db) _ s
          (λ r e'. Refused-bind_first (owned_scenario r.scenario_id user) (k r) s (
            owned_scenario-Refused r.scenario_id user s (
              subst (λ (x : String). IsForeign s.db x user)
                (slot_scenario s.db slot_id scenario_id r e e') h)))))

-- A request concerns a scenario (for a slot, the scenario of the slot that is stored). If every
-- scenario of that id is one that the user may not write, the request raises and the store stays as
-- it was, whichever of the operations it is.
pub serve_request-Refused :
    (c : Outside) (req : Request) (user : User) (s : Store) (scenario_id : String)
    → target req s.db ≡ some scenario_id
    → IsForeign s.db scenario_id user
    → Refused (serve_request c req user) s
unfolding target serve_request update_owned_scenario duplicate_owned_scenario delete_owned_scenario
    share_owned_scenario unshare_owned_scenario create_step update_step delete_step
    create_owned_slot update_owned_slot delete_owned_slot
serve_request-Refused c (new_scenario scenario_id owner description definition) user s i e h = cc
serve_request-Refused c (change_scenario scenario_id new_id owner description definition) user s i e
      h =
    owned-Refused scenario_id user _ _ s (foreign s.db user scenario_id i e h)
serve_request-Refused c (copy_scenario scenario_id new_id) user s i e h =
    owned-Refused scenario_id user _ _ s (foreign s.db user scenario_id i e h)
serve_request-Refused c (drop_scenario scenario_id) user s i e h =
    owned-Refused scenario_id user _ _ s (foreign s.db user scenario_id i e h)
serve_request-Refused c (share scenario_id user_id) user s i e h =
    owned-Refused scenario_id user _ _ s (foreign s.db user scenario_id i e h)
serve_request-Refused c (unshare scenario_id user_id) user s i e h =
    owned-Refused scenario_id user _ _ s (foreign s.db user scenario_id i e h)
serve_request-Refused c (new_step user_id scenario_id collection step insert_at) user s i e h =
    editable-Refused user_id scenario_id collection user _ _ s (foreign s.db user scenario_id i e h)
serve_request-Refused c (change_step user_id scenario_id collection index step) user s i e h =
    editable-Refused user_id scenario_id collection user _ _ s (foreign s.db user scenario_id i e h)
serve_request-Refused c (drop_step user_id scenario_id collection index) user s i e h =
    editable-Refused user_id scenario_id collection user _ _ s (foreign s.db user scenario_id i e h)
serve_request-Refused c (new_slot payload) user s i e h =
    owned-Refused payload.scenario_id user _ _ s (foreign s.db user payload.scenario_id i e h)
serve_request-Refused c (change_slot slot_id payload) user s i e h =
    slot-Refused slot_id user _ _ s i e h
serve_request-Refused c (drop_slot slot_id) user s i e h = slot-Refused slot_id user _ _ s i e h
