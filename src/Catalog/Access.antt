-- ===== src/Catalog/Access.antt =====
-- Who may read and write a scenario: catalog/permissions.py, and the lookups of catalog/services.py
-- that answer for a user.
use fox_runner_server.Prelude.{
  String, Option, none, some, Bool, true, false, ◌||◌, ◌&&◌, List, map, any, find, keep, str_eq, ℕ,
  length, take, if◌then◌else◌,
}
use fox_runner_server.Backend.Exec.{Reply, done, http}
use fox_runner_server.Backend.Users.{User}
use fox_runner_server.Catalog.Tables.{Scenario, ScenarioShare, Slot, Db}
use fox_runner_server.Catalog.Files.{order_by}
use fox_runner_server.Api.Pages.{drop}

unfoldable pub is_scenario_owner : Scenario → User → Bool
is_scenario_owner scenario user = str_eq scenario.owner_id user.id

unfoldable pub may_write : Scenario → User → Bool
may_write scenario user = user.is_superuser || is_scenario_owner scenario user

unfoldable pub require_scenario_owner : Scenario → User → Reply (Unit {0})
require_scenario_owner scenario user =
    if may_write scenario user
    then done tt
    else http 403 "Seul le proprietaire peut modifier ce scenario."

-- the role and whether the user may write
unfoldable pub scenario_role : Scenario → User → String × Bool
scenario_role scenario user =
    if user.is_superuser
    then ("superuser", true)
    else if may_write scenario user
    then ("owner", true)
    else ("reader", false)

unfoldable pub find_scenario : List Scenario → String → Option Scenario
find_scenario rows scenario_id = find (λ (r : Scenario). str_eq r.scenario_id scenario_id) rows

unfoldable pub get_scenario : String → Db → Reply Scenario
get_scenario scenario_id db = elim (find_scenario db.scenarios scenario_id) [
  | none ↦ http 404 "Scenario introuvable."
  | some r ↦ done r
]

-- `ScenarioShare.objects.filter(scenario=..., user=...).exists()`
unfoldable pub is_shared : List ScenarioShare → String → User → Bool
is_shared shares scenario_id user =
    any (λ (x : ScenarioShare). str_eq x.scenario_id scenario_id && str_eq x.user_id user.id) shares

unfoldable pub get_scenario_for_user : String → User → Db → Reply Scenario
get_scenario_for_user scenario_id user db = elim (find_scenario db.scenarios scenario_id) [
  | none ↦ http 404 "Scenario introuvable."
  | some r ↦
      if may_write r user
      then done r
      else if is_shared db.shares r.scenario_id user
      then done r
      else http 404 "Scenario introuvable pour cet utilisateur."
]

-- `values_list("scenario__scenario_id", flat=True)` of the user's shares
unfoldable pub shared_ids : List ScenarioShare → User → List String
shared_ids shares user =
    map (λ (x : ScenarioShare). x.scenario_id)
      (keep (λ (x : ScenarioShare). str_eq x.user_id user.id) shares)

unfoldable pub contains : List String → String → Bool
contains ids id = any (λ (x : String). str_eq x id) ids

unfoldable pub accessible_scenarios : User → Db → List Scenario
accessible_scenarios user db =
    if user.is_superuser
    then db.scenarios
    else keep
        (λ (r : Scenario).
          is_scenario_owner r user || contains (shared_ids db.shares user) r.scenario_id)
        db.scenarios

-- `Q(scenario__owner=user)`, through the slot's scenario
unfoldable pub owns_scenario_of : Db → User → Slot → Bool
owns_scenario_of db user slot = elim (find_scenario db.scenarios slot.scenario_id) [
  | none ↦ false
  | some r ↦ is_scenario_owner r user
]

-- `qs.filter(scenario_id=scenario_id)` where the filter is given
unfoldable pub of_scenario : Option String → List Slot → List Slot
of_scenario none slots = slots
of_scenario (some scenario_id) slots = keep (λ (x : Slot). str_eq x.scenario_id scenario_id) slots

unfoldable pub accessible_slots : User → Option String → Db → List Slot
accessible_slots user scenario_id db =
    if user.is_superuser
    then of_scenario scenario_id db.slots
    else keep
        (λ (x : Slot).
          owns_scenario_of db user x || contains (shared_ids db.shares user) x.scenario_id)
        (of_scenario scenario_id db.slots)

module _ {A : Type 0} where
  -- `[offset : offset + limit]`
  unfoldable pub page_slice : ℕ → ℕ → List A → List A
  page_slice limit offset rows = take limit (drop offset rows)

unfoldable pub list_accessible_scenarios : User → ℕ → ℕ → Db → List Scenario × ℕ
list_accessible_scenarios user limit offset db =
    let base = accessible_scenarios user db in
    (page_slice limit offset (order_by (λ (r : Scenario). r.scenario_id) base), length base)

unfoldable pub list_accessible_slots : User → Option String → ℕ → ℕ → Db → List Slot × ℕ
list_accessible_slots user scenario_id limit offset db =
    let base = accessible_slots user scenario_id db in
    (page_slice limit offset (order_by (λ (x : Slot). x.slot_id) base), length base)

unfoldable pub scenario_ids_for_user : User → Db → List String
scenario_ids_for_user user db = map (λ (r : Scenario). r.scenario_id) (accessible_scenarios user db)

unfoldable pub list_scenario_shares : String → Db → List String
list_scenario_shares scenario_id db =
    order_by (λ (u : String). u)
      (map (λ (x : ScenarioShare). x.user_id)
        (keep (λ (x : ScenarioShare). str_eq x.scenario_id scenario_id) db.shares))
