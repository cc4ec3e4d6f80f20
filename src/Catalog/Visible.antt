-- ===== src/Catalog/Visible.antt =====
-- The scenarios that a user is shown are the ones that the user may open: the two places of
-- catalog/services.py that say who reads a scenario agree.
use fox_runner_server.Prelude.{
  String, ◌≡◌, refl, sym, ap, ◌∙◌, Option, none, some, Bool, true, false, ◌||◌, List, [], ◌∷◌, keep,
  eq_iff, arith, if◌then◌else◌,
}
use fox_runner_server.Backend.Exec.{Reply, done, http}
use fox_runner_server.Backend.Users.{User}
use fox_runner_server.Catalog.Tables.{Scenario, ScenarioShare, Db}
use fox_runner_server.Catalog.Access.{
  may_write, find_scenario, is_shared, shared_ids, contains, get_scenario_for_user,
  accessible_scenarios,
}

-- scenario ids are unique
abbrev pub UniqueIds : List Scenario → Type 0
UniqueIds [] = Unit
UniqueIds (r ∷ rows) = (find_scenario rows r.scenario_id ≡ none) × UniqueIds rows

-- the scenario of a reply
abbrev pub found : Reply Scenario → Option Scenario
found (done r) = some r
found (http code message) = none

filtered : (Scenario → Bool) → Option Scenario → Option Scenario
filtered test none = none
filtered test (some r) = if test r then some r else none

find_scenario-keep :
    (test : Scenario → Bool) (rows : List Scenario) (scenario_id : String)
    → UniqueIds rows
    → find_scenario (keep test rows) scenario_id ≡ filtered test (find_scenario rows scenario_id)
unfolding find_scenario filtered
find_scenario-keep test [] scenario_id u = refl
find_scenario-keep test (r ∷ rows) scenario_id u =
    ground
      (arith, find_scenario-keep test rows scenario_id u.1, u.0, eq_iff r.scenario_id scenario_id)

contains-shared_ids :
    (shares : List ScenarioShare) (user : User) (scenario_id : String)
    → contains (shared_ids shares user) scenario_id ≡ is_shared shares scenario_id user
unfolding contains shared_ids is_shared
contains-shared_ids [] user scenario_id = refl
contains-shared_ids (x ∷ shares) user scenario_id =
    ground (arith, contains-shared_ids shares user scenario_id)

may_read : Db → User → Scenario → Bool
may_read db user r = may_write r user || is_shared db.shares r.scenario_id user

get_scenario_for_user-filters :
    (scenario_id : String) (user : User) (db : Db)
    → found (get_scenario_for_user scenario_id user db)
      ≡ filtered (may_read db user) (find_scenario db.scenarios scenario_id)
unfolding get_scenario_for_user filtered may_read
get_scenario_for_user-filters scenario_id user db = ground arith

keep_same :
    (p q : Scenario → Bool) (rows : List Scenario)
    → ((r : Scenario) → p r ≡ q r)
    → keep p rows ≡ keep q rows
keep_same p q [] h = refl
keep_same p q (r ∷ rows) h = ground (arith, keep_same p q rows h, h r)

keep_all :
    (p : Scenario → Bool) (rows : List Scenario)
    → ((r : Scenario) → p r ≡ true)
    → keep p rows ≡ rows
keep_all p [] h = refl
keep_all p (r ∷ rows) h = ground (arith, keep_all p rows h, h r)

keep_either :
    (b : Bool) (p q : Scenario → Bool) (rows : List Scenario)
    → (b ≡ true → (r : Scenario) → q r ≡ true)
    → (b ≡ false → (r : Scenario) → p r ≡ q r)
    → (if b then rows else keep p rows) ≡ keep q rows
keep_either true p q rows h g = sym (keep_all q rows (h refl))
keep_either false p q rows h g = keep_same p q rows (g refl)

accessible_scenarios-keeps :
    (user : User) (db : Db) → accessible_scenarios user db ≡ keep (may_read db user) db.scenarios
unfolding accessible_scenarios may_read may_write
accessible_scenarios-keeps user db =
    keep_either user.is_superuser _ (may_read db user) db.scenarios (λ e r. ground (arith, e))
      (λ e r. ground (arith, e, contains-shared_ids db.shares user r.scenario_id))

-- If scenario ids are unique, the scenario of an id among those that a user is shown is the one that
-- the user gets by that id, and there is none exactly if the user is refused.
pub accessible_scenarios-get_scenario_for_user :
    (user : User) (db : Db) (scenario_id : String)
    → UniqueIds db.scenarios
    → find_scenario (accessible_scenarios user db) scenario_id
      ≡ found (get_scenario_for_user scenario_id user db)
accessible_scenarios-get_scenario_for_user user db scenario_id u =
    ap (λ (rows : List Scenario). find_scenario rows scenario_id)
      (accessible_scenarios-keeps user db)
    ∙ find_scenario-keep (may_read db user) db.scenarios scenario_id u
    ∙ sym (get_scenario_for_user-filters scenario_id user db)
