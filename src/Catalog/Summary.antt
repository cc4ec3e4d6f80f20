-- ===== src/Catalog/Summary.antt =====
-- What the API shows of a scenario: `scenario_summary` of catalog/services.py, with the test whether
-- a definition needs the enterprise network.
use fox_runner_server.Prelude.{
  ℕ, String, Option, none, some, Bool, true, false, ◌||◌, List, [], ◌∷◌, ◌++◌, suc, pos, str_eq,
  if◌then◌else◌,
}
use fox_runner_server.Prelude.Dict.{Dict, get}
use fox_runner_server.Prelude.Json as Json
use fox_runner_server.Prelude.Json.{Json, Items, Fields, field_of, is_text, object, fields_of}
use fox_runner_server.Backend.Exec.{Reply, done, http}
use fox_runner_server.Backend.Users.{User}
use fox_runner_server.Catalog.Tables.{Scenario}
use fox_runner_server.Catalog.Access.{scenario_role}

abbrev not_iterable : Reply Bool
not_iterable = http 500 "TypeError: object is not iterable"

-- `any` of what a first test and the rest answer; a raise of the first ends it
unfoldable pub either : Reply Bool → Reply Bool → Reply Bool
either (done true) rest = done true
either (done false) rest = rest
either (http code message) rest = http code message

-- the kinds of step whose children are looked at; a kind that cannot be hashed raises
pub data Children : Type 0 where
  network steps branches leaf unhashable : Children

unfoldable pub children_of : Option Json → Children
children_of none = Children.leaf
children_of (some (Json.text s)) =
    if str_eq s "require_enterprise_network"
    then Children.network
    else if str_eq s "group" || str_eq s "parallel" || str_eq s "repeat"
    then Children.steps
    else if str_eq s "try"
    then Children.branches
    else Children.leaf
children_of (some Json.null) = Children.leaf
children_of (some (Json.bool b)) = Children.leaf
children_of (some (Json.num n)) = Children.leaf
children_of (some (Json.arr xs)) = Children.unhashable
children_of (some (Json.obj fs)) = Children.unhashable

unfoldable mutual
  -- `_step_requires_enterprise_network`
  pub json_step_requires_network : Json → Reply Bool
  json_step_requires_network (Json.obj fs) =
      let steps = requires_network_at fs "steps" in
      let try_steps = requires_network_at fs "try_steps" in
      let catch_steps = requires_network_at fs "catch_steps" in
      let finally_steps = requires_network_at fs "finally_steps" in
      elim (children_of (field_of fs "type")) [
        | Children.network ↦ done true
        | Children.steps ↦ steps
        | Children.branches ↦ either try_steps (either catch_steps finally_steps)
        | Children.leaf ↦ done false
        | Children.unhashable ↦ http 500 "TypeError: unhashable type"
      ]
  json_step_requires_network Json.null = done false
  json_step_requires_network (Json.bool b) = done false
  json_step_requires_network (Json.num n) = done false
  json_step_requires_network (Json.text s) = done false
  json_step_requires_network (Json.arr xs) = done false

  -- `any(... for child in step.get(key, []))`
  pub requires_network_at : Fields → String → Reply Bool
  requires_network_at Json.end key = done false
  requires_network_at (Json.field k v rest) key =
      let first = value_requires_network v in
      let others = requires_network_at rest key in if str_eq k key then first else others

  -- over the items of a list; the keys of an object and the characters of a text are no steps
  pub value_requires_network : Json → Reply Bool
  value_requires_network (Json.arr xs) = items_require_network xs
  value_requires_network (Json.obj fs) = done false
  value_requires_network (Json.text s) = done false
  value_requires_network Json.null = not_iterable
  value_requires_network (Json.bool b) = not_iterable
  value_requires_network (Json.num n) = not_iterable

  pub items_require_network : Items → Reply Bool
  items_require_network Json.nil = done false
  items_require_network (Json.cons x xs) =
      either (json_step_requires_network x) (items_require_network xs)

unfoldable pub collection_requires_network : Option Json → Reply Bool
collection_requires_network none = done false
collection_requires_network (some v) = value_requires_network v

-- `_requires_enterprise_network`; `collections` is the order in which Python goes through the set
unfoldable pub definition_requires_network : List String → Dict Json → Reply Bool
definition_requires_network [] definition = done false
definition_requires_network (collection ∷ collections) definition =
    let rest = definition_requires_network collections definition in
    either (collection_requires_network (get definition collection)) rest

unfoldable pub text_size : String → ℕ
text_size String.[] = 0
text_size (String.◌∷◌ d s) = suc (text_size s)

unfoldable pub items_size : Items → ℕ
items_size Json.nil = 0
items_size (Json.cons x xs) = suc (items_size xs)

unfoldable pub fields_size : Fields → ℕ
fields_size Json.end = 0
fields_size (Json.field k v rest) = suc (fields_size rest)

-- `len(definition.get(key, []))`
unfoldable pub size_of : Option Json → Reply ℕ
size_of none = done 0
size_of (some (Json.arr xs)) = done (items_size xs)
size_of (some (Json.obj fs)) = done (fields_size fs)
size_of (some (Json.text s)) = done (text_size s)
size_of (some Json.null) = http 500 "TypeError: object has no len()"
size_of (some (Json.bool b)) = http 500 "TypeError: object has no len()"
size_of (some (Json.num n)) = http 500 "TypeError: object has no len()"

-- the sizes of the collections, as items of the summary
unfoldable pub sizes_of : List String → Dict Json → Reply (Dict Json)
sizes_of [] definition = done []
sizes_of (key ∷ keys) definition =
    let rest = sizes_of keys definition in
    elim (size_of (get definition key)) [
      | http code message ↦ http code message
      | done n ↦ elim rest [
        | http code message ↦ http code message
        | done others ↦ done ((key, Json.num (pos n)) ∷ others)
      ]
    ]

abbrev pub collection_keys : List String
collection_keys = "before_steps" ∷ "steps" ∷ "on_success" ∷ "on_failure" ∷ "finally_steps" ∷ []

unfoldable pub scenario_summary : List String → Scenario → Reply (Dict Json)
scenario_summary collections r = elim (definition_requires_network collections r.definition) [
  | http code message ↦ http code message
  | done needs ↦ elim (sizes_of collection_keys r.definition) [
    | http code message ↦ http code message
    | done sizes ↦ done (
        ("scenario_id", Json.text r.scenario_id)
        ∷ ("owner_user_id", Json.text r.owner_id)
        ∷ ("description", Json.text r.description)
        ∷ ("requires_enterprise_network", Json.bool needs)
        ∷ sizes)
  ]
]

unfoldable pub scenario_summary_for_user : List String → Scenario → User → Reply (Dict Json)
scenario_summary_for_user collections r user = elim (scenario_summary collections r) [
  | http code message ↦ http code message
  | done summary ↦
      let (role, writable) = scenario_role r user in
      done (summary ++ ("role", Json.text role) ∷ ("writable", Json.bool writable) ∷ [])
]
