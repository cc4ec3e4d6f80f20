-- ===== src/Documents/Summaries.antt =====
-- A scenario whose definition scenarios/loader.py validates has a summary: `scenario_summary` of
-- catalog/services.py does not raise for it.
use fox_runner_server.Prelude.{
  ℕ, String, pos, ◌≡◌, refl, subst, Option, none, some, Bool, true, false, List, [], ◌∷◌, All,
  str_eq, eq_iff, arith, inl, inr, Bool-cases,
}
use fox_runner_server.Prelude.Dict.{Dict, get}
use fox_runner_server.Prelude.Json.{Json, field_of, fields_of}
use fox_runner_server.Backend.Exec.{done}
use fox_runner_server.Scenario.Effects.{return}
use fox_runner_server.Catalog.Tables.{Scenario}
use fox_runner_server.Catalog.Access.{contains}
use fox_runner_server.Catalog.Summary.{
  collection_requires_network, value_requires_network, definition_requires_network, size_of,
  sizes_of, collection_keys, scenario_summary, items_size,
}
use fox_runner_server.Documents.Checks.{demand}
use fox_runner_server.Documents.Steps.{Texts, validate_items}
use fox_runner_server.Documents.Scenarios.{
  is_list_or_absent, items_under, document_collections, lists_only, steps_checked,
  validate_scenario,
}
use fox_runner_server.Documents.Answers.{
  Passes, Answers, then-first, then-rest, either-Answers, items-Answers,
}

field_of-fields_of : (d : Dict Json) (key : String) → field_of (fields_of d) key ≡ get d key
unfolding field_of fields_of get
field_of-fields_of [] key = refl
field_of-fields_of ((k, v) ∷ d) key = ground (arith, field_of-fields_of d key)

-- a value that is absent, or a list of steps that pass
abbrev IsChecked : Texts → (f i : String) → Option Json → Type 0
IsChecked t f i o = (is_list_or_absent o ≡ true) × Passes (validate_items t f i (items_under o))

demanded : (b : Bool) (message : String) → Passes (demand b message) → b ≡ true
unfolding demand
demanded true message h = refl
demanded false message h = cc

from_checks :
    (t : Texts) (f i : String) (keys : List String) (d : Dict Json)
    → Passes (lists_only t f i keys (fields_of d))
    → Passes (steps_checked t f i keys (fields_of d))
    → All (λ (key : String). IsChecked t f i (get d key)) keys
unfolding lists_only steps_checked
from_checks t f i [] d h g = tt
from_checks t f i (key ∷ keys) d h g = (
  subst (IsChecked t f i) (field_of-fields_of d key)
      (demanded _ _ (then-first _ _ h), then-first _ _ g),
  from_checks t f i keys d (then-rest _ _ h) (then-rest _ _ g),
)

-- a property of all keys holds of one that is among them
of_one :
    (P : String → Type 0) (keys : List String) (key : String)
    → All P keys
    → contains keys key ≡ true
    → P key
unfolding contains
of_one P [] key h e = cc
of_one P (k ∷ keys) key h e = elim (Bool-cases (str_eq k key)) [
  | inl same ↦ subst P ((eq_iff k key).0 same) h.0
  | inr other ↦ of_one P keys key h.1 (ground (arith, e, other))
]

checked_answer :
    (t : Texts) (f i : String) (o : Option Json)
    → IsChecked t f i o
    → Answers (collection_requires_network o)
unfolding collection_requires_network value_requires_network is_list_or_absent items_under
checked_answer t f i none h = (false, refl)
checked_answer t f i (some (Json.arr xs)) h = items-Answers t f i xs h.1
checked_answer t f i (some Json.null) (h, g) = cc
checked_answer t f i (some (Json.bool b)) (h, g) = cc
checked_answer t f i (some (Json.num n)) (h, g) = cc
checked_answer t f i (some (Json.text s)) (h, g) = cc
checked_answer t f i (some (Json.obj fs)) (h, g) = cc

checked_size :
    (t : Texts) (f i : String) (o : Option Json)
    → IsChecked t f i o
    → (n : ℕ) × (size_of o ≡ done n)
unfolding size_of is_list_or_absent
checked_size t f i none h = (0, refl)
checked_size t f i (some (Json.arr xs)) h = (items_size xs, refl)
checked_size t f i (some Json.null) (h, g) = cc
checked_size t f i (some (Json.bool b)) (h, g) = cc
checked_size t f i (some (Json.num n)) (h, g) = cc
checked_size t f i (some (Json.text s)) (h, g) = cc
checked_size t f i (some (Json.obj fs)) (h, g) = cc

definition-Answers :
    (t : Texts) (f i : String) (order : List String) (d : Dict Json)
    → All (λ (key : String). IsChecked t f i (get d key)) document_collections
    → All (λ (key : String). contains document_collections key ≡ true) order
    → Answers (definition_requires_network order d)
unfolding definition_requires_network
definition-Answers t f i [] d h g = (false, refl)
definition-Answers t f i (key ∷ order) d h g =
    either-Answers _ _
      (checked_answer t f i (get d key)
        (of_one (λ (k : String). IsChecked t f i (get d k)) document_collections key h g.0))
      (definition-Answers t f i order d h g.1)

sizes_of-added :
    (key : String) (keys : List String) (d : Dict Json) (n : ℕ) (sizes : Dict Json)
    → size_of (get d key) ≡ done n
    → sizes_of keys d ≡ done sizes
    → sizes_of (key ∷ keys) d ≡ done ((key, Json.num (pos n)) ∷ sizes)
unfolding sizes_of
sizes_of-added key keys d n sizes e e' = rw (e, e', sizes_of) refl

scenario_summary-done :
    (order : List String) (r : Scenario) (needs : Bool) (sizes : Dict Json)
    → definition_requires_network order r.definition ≡ done needs
    → sizes_of collection_keys r.definition ≡ done sizes
    → scenario_summary order r
      ≡ done (
          ("scenario_id", Json.text r.scenario_id)
          ∷ ("owner_user_id", Json.text r.owner_id)
          ∷ ("description", Json.text r.description)
          ∷ ("requires_enterprise_network", Json.bool needs)
          ∷ sizes)
unfolding scenario_summary
scenario_summary-done order r needs sizes e e' = rw (e, e', scenario_summary) refl

sizes-answer :
    (t : Texts) (f i : String) (keys : List String) (d : Dict Json)
    → All (λ (key : String). IsChecked t f i (get d key)) keys
    → (sizes : Dict Json) × (sizes_of keys d ≡ done sizes)
unfolding sizes_of
sizes-answer t f i [] d h = ([], refl)
sizes-answer t f i (key ∷ keys) d h =
    let (n, e) = checked_size t f i (get d key) h.0 in
    let (sizes, e') = sizes-answer t f i keys d h.1 in
    ((key, Json.num (pos n)) ∷ sizes, sizes_of-added key keys d n sizes e e')

-- If the definition passes the loader's checks, and Python goes through the set of the document_collections in
-- any order, then the summary of the scenario is answered.
pub scenario_summary-returns :
    (t : Texts) (filename : String) (order : List String) (r : Scenario)
    → All (λ (key : String). contains document_collections key ≡ true) order
    → validate_scenario t filename r.scenario_id (fields_of r.definition) ≡ return tt
    → (summary : Dict Json) × (scenario_summary order r ≡ done summary)
unfolding validate_scenario
scenario_summary-returns t filename order r g h =
    let checked =
      from_checks t filename r.scenario_id document_collections r.definition
        (then-first _ _ (then-rest _ _ h)) (then-rest _ _ (then-rest _ _ h)) in
    let (needs, e) = definition-Answers t filename r.scenario_id order r.definition checked g in
    let (sizes, e') = sizes-answer t filename r.scenario_id collection_keys r.definition checked in
    (
      ("scenario_id", Json.text r.scenario_id)
          ∷ ("owner_user_id", Json.text r.owner_id)
          ∷ ("description", Json.text r.description)
          ∷ ("requires_enterprise_network", Json.bool needs)
          ∷ sizes,
      scenario_summary-done order r needs sizes e e',
    )
