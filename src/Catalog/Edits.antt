-- ===== src/Catalog/Edits.antt =====
-- The step collections of a definition, of catalog/services.py: how an insertion, a replacement and
-- a deletion change a definition.
use fox_runner_server.Prelude.{
  ℕ, String, Option, none, some, Bool, ◌||◌, List, [], ◌∷◌, zero, suc, ℤ, pos, negsuc, min, length,
  str_eq, if◌then◌else◌,
}
use fox_runner_server.Prelude.Dict.{Dict, get, put}
use fox_runner_server.Prelude.Json.{Json, of_list, to_list, is_object, object}
use fox_runner_server.Backend.Exec.{Reply, done, http}

module _ {A : Type 0} where
  -- `xs.insert(i, x)`
  unfoldable pub insert_item : ℕ → A → List A → List A
  insert_item zero x xs = x ∷ xs
  insert_item (suc i) x [] = x ∷ []
  insert_item (suc i) x (y ∷ ys) = y ∷ insert_item i x ys

  -- `xs[i] = x`
  unfoldable pub replace_item : ℕ → A → List A → List A
  replace_item i x [] = []
  replace_item zero x (y ∷ ys) = x ∷ ys
  replace_item (suc i) x (y ∷ ys) = y ∷ replace_item i x ys

  -- `del xs[i]`
  unfoldable pub delete_item : ℕ → List A → List A
  delete_item i [] = []
  delete_item zero (y ∷ ys) = ys
  delete_item (suc i) (y ∷ ys) = y ∷ delete_item i ys

  unfoldable pub item_at : ℕ → List A → Option A
  item_at i [] = none
  item_at zero (y ∷ ys) = some y
  item_at (suc i) (y ∷ ys) = item_at i ys

unfoldable pub is_step_collection : String → Bool
is_step_collection name =
    str_eq name "before_steps"
    || str_eq name "steps"
    || str_eq name "on_success"
    || str_eq name "on_failure"
    || str_eq name "finally_steps"

unfoldable pub ensure_step_collection : String → Reply (Unit {0})
ensure_step_collection name =
    if is_step_collection name then done tt else http 404 "Collection d'etapes introuvable."

abbrev pub bad_collection : Reply (List Json)
bad_collection = http 500 "Collection invalide"

unfoldable pub view : Option Json → Reply (List Json)
view none = done []
view (some (Json.arr xs)) = done (to_list xs)
view (some (Json.obj fs)) = bad_collection
view (some (Json.text s)) = bad_collection
view (some Json.null) = bad_collection
view (some (Json.bool b)) = bad_collection
view (some (Json.num n)) = bad_collection

unfoldable pub step_collection_view : Dict Json → String → Reply (List Json)
step_collection_view definition collection = view (get definition collection)

unfoldable pub set_steps : Dict Json → String → List Json → Dict Json
set_steps definition collection steps = put definition collection (Json.arr (of_list steps))

unfoldable pub step_at : List Json → ℤ → Reply Json
step_at steps (negsuc n) = http 404 "Etape introuvable."
step_at steps (pos i) = elim (item_at i steps) [
  | none ↦ http 404 "Etape introuvable."
  | some step ↦ if is_object step then done step else http 500 "Etape invalide."
]

-- `len(steps) if insert_at is None else min(insert_at, len(steps))`
unfoldable pub insert_index : Option ℕ → List Json → ℕ
insert_index none steps = length steps
insert_index (some i) steps = min i (length steps)

-- the index, and the definition with the step inserted
unfoldable pub insert_step : Dict Json → String → Option ℕ → Dict Json → Reply (ℕ × Dict Json)
insert_step definition collection insert_at step =
    elim (step_collection_view definition collection) [
      | http code message ↦ http code message
      | done steps ↦
          let i = insert_index insert_at steps in
          done (i, set_steps definition collection (insert_item i (object step) steps))
    ]

-- where `steps[index]` stands
unfoldable pub position : ℤ → ℕ
position (pos i) = i
position (negsuc n) = 0

-- the step that was there, and the definition with the new one in its place
unfoldable pub replace_step : Dict Json → String → ℤ → Dict Json → Reply (Json × Dict Json)
replace_step definition collection index step = elim (step_collection_view definition collection) [
  | http code message ↦ http code message
  | done steps ↦ elim (step_at steps index) [
    | http code message ↦ http code message
    | done before ↦ done (
      before,
      set_steps definition collection (replace_item (position index) (object step) steps),
    )
  ]
]

-- the step that was there, and the definition without it
unfoldable pub remove_step : Dict Json → String → ℤ → Reply (Json × Dict Json)
remove_step definition collection index = elim (step_collection_view definition collection) [
  | http code message ↦ http code message
  | done steps ↦ elim (step_at steps index) [
    | http code message ↦ http code message
    | done deleted ↦
        done (deleted, set_steps definition collection (delete_item (position index) steps))
  ]
]
