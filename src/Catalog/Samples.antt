-- ===== src/Catalog/Samples.antt =====
-- A small catalog for the tests: two users, one scenario with one step, one slot.
use fox_runner_server.Prelude.{pos, none, true, false, [], ◌∷◌}
use fox_runner_server.Prelude.Dict.{Dict}
use fox_runner_server.Prelude.Json as Json
use fox_runner_server.Prelude.Json.{Json, object}
use fox_runner_server.Backend.Users.{User}
use fox_runner_server.Catalog.Tables.{Scenario, Slot, CatalogConfig, Db, Store, missing, document}
use fox_runner_server.Catalog.Files.{Outside}

abbrev pub alice : User
alice = record {
  id = "1";
  email = "alice@example.com";
  is_superuser = false;
  is_active = true;
  is_verified = true;
  timezone_name = "UTC";
}

abbrev pub bob : User
bob = record {
  id = "2";
  email = "bob@example.com";
  is_superuser = false;
  is_active = true;
  is_verified = true;
  timezone_name = "UTC";
}

abbrev pub sleep_step : Dict Json
sleep_step = ("type", Json.text "sleep") ∷ []

abbrev pub definition : Dict Json
definition = ("steps", Json.arr (Json.cons (object sleep_step) Json.nil)) ∷ []

abbrev pub demo : Scenario
demo = record {
  pk = 1;
  scenario_id = "demo";
  owner_id = "1";
  description = "";
  definition = definition;
}

abbrev pub morning : Slot
morning = record {
  slot_id = "morning";
  scenario_id = "demo";
  days = 0 ∷ [];
  start = "08:00";
  end_at = "09:00";
  enabled = true;
}

abbrev pub phone : Dict Json
phone = ("token", Json.text "t") ∷ ("user_key", Json.text "u") ∷ []

abbrev pub config : CatalogConfig
config = record {
  pushovers = ("phone", phone) ∷ [];
  networks = [];
  default_pushover = "phone";
  default_network = "";
}

abbrev pub db : Db
db = record {
  users = alice ∷ bob ∷ [];
  scenarios = demo ∷ [];
  shares = [];
  slots = morning ∷ [];
  config = config;
  audit = [];
  next_pk = 2;
}

-- validators that accept everything
abbrev pub outside : Outside
outside = record {
  check_scenarios = λ d. none;
  check_slots = λ d. none;
  repr = λ j. "";
  collections = "steps" ∷ [];
}

abbrev pub mirrored_file : Dict Json
mirrored_file =
    ("schema_version", Json.num (pos 1))
    ∷ (
      "data",
      object (
          ("pushovers", object (("phone", object phone) ∷ []))
          ∷ ("default_pushover", Json.text "phone")
          ∷ []),
    )
    ∷ ("scenarios", object (("demo", object definition) ∷ []))
    ∷ []

abbrev pub store : Store
store = record { db = db; scenarios_file = document (object mirrored_file); slots_file = missing }
