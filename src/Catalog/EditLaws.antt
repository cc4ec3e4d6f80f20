-- ===== src/Catalog/EditLaws.antt =====
-- The step collections of catalog/services.py: an inserted step stands at the index that is answered,
-- and deleting it there gives the definition back.
use fox_runner_server.Prelude.{
  ℕ, String, inl, inr, ◌≡◌, refl, sym, ap, ◌∙◌, subst, Option, none, some, Bool, List, [], ◌∷◌,
  zero, suc, pos, length, ◌≤◌, arith, eq_refl, if◌then◌else◌,
}
use fox_runner_server.Prelude.Dict.{Dict, get, put, get-put}
use fox_runner_server.Prelude.Json as Json
use fox_runner_server.Prelude.Json.{
  Json, Items, of_list, to_list, to_list-of_list, object, is_object,
}
use fox_runner_server.Backend.Exec.{Reply, done, http, Reply-cases}
use fox_runner_server.Catalog.Edits.{
  insert_item, delete_item, item_at, view, step_collection_view, set_steps, step_at, insert_index,
  insert_step, position, remove_step,
}

module _ {A : Type 0} where
  item_at-insert_item :
      (i : ℕ) (x : A) (xs : List A) → i ≤ length xs → item_at i (insert_item i x xs) ≡ some x
  unfolding item_at insert_item
  item_at-insert_item zero x xs h = refl
  item_at-insert_item (suc i) x [] h = absurd (omega arith)
  item_at-insert_item (suc i) x (y ∷ ys) h = item_at-insert_item i x ys (omega arith)

  delete_item-insert_item :
      (i : ℕ) (x : A) (xs : List A) → i ≤ length xs → delete_item i (insert_item i x xs) ≡ xs
  unfolding delete_item insert_item
  delete_item-insert_item zero x xs h = refl
  delete_item-insert_item (suc i) x [] h = absurd (omega arith)
  delete_item-insert_item (suc i) x (y ∷ ys) h =
      ap (λ (zs : List A). y ∷ zs) (delete_item-insert_item i x ys (omega arith))

of_list-to_list : (xs : Items) → of_list (to_list xs) ≡ xs
unfolding of_list to_list
of_list-to_list Json.nil = refl
of_list-to_list (Json.cons x xs) = ap (λ (ys : Items). Json.cons x ys) (of_list-to_list xs)

pub put-put : (d : Dict Json) (k : String) (v w : Json) → put (put d k v) k w ≡ put d k w
unfolding put
put-put [] k v w = ground (arith, eq_refl k)
put-put ((j, u) ∷ d) k v w = ground (arith, put-put d k v w)

pub put-get : (d : Dict Json) (k : String) (v : Json) → get d k ≡ some v → put d k v ≡ d
unfolding put get
put-get [] k v h = cc
put-get ((j, u) ∷ d) k v h = ground (arith, put-get d k v)

insert_index-bounded :
    (insert_at : Option ℕ) (steps : List Json) → insert_index insert_at steps ≤ length steps
unfolding insert_index
insert_index-bounded none steps = omega arith
insert_index-bounded (some i) steps = omega arith

-- what the collection holds after it is set
step_collection_view-set_steps :
    (d : Dict Json) (collection : String) (steps : List Json)
    → step_collection_view (set_steps d collection steps) collection ≡ done steps
unfolding step_collection_view set_steps view
step_collection_view-set_steps d collection steps =
    ap view (get-put d collection collection (Json.arr (of_list steps)))
    ∙ ap (λ (b : Bool). view (if b then some (Json.arr (of_list steps)) else get d collection))
        (eq_refl collection)
    ∙ ap done (to_list-of_list steps)

steps_or : List Json → Reply (List Json) → List Json
steps_or default (done xs) = xs
steps_or default (http code message) = default

view-sets :
    (d : Dict Json) (collection : String) (v : Json) (steps : List Json)
    → get d collection ≡ some v
    → view (some v) ≡ done steps
    → set_steps d collection steps ≡ d
unfolding set_steps view to_list steps_or
view-sets d collection (Json.arr xs) steps e h = put-get d collection (Json.arr (of_list steps)) (
    e
    ∙ ap (λ (ys : Items). some (Json.arr ys)) (sym (of_list-to_list xs))
    ∙ ap (λ (ys : List Json). some (Json.arr (of_list ys))) (ap (steps_or []) h))
view-sets d collection Json.null steps e h = cc
view-sets d collection (Json.bool b) steps e h = cc
view-sets d collection (Json.num n) steps e h = cc
view-sets d collection (Json.text t) steps e h = cc
view-sets d collection (Json.obj fs) steps e h = cc

set_steps-set_steps :
    (d : Dict Json) (collection : String) (xs ys : List Json)
    → set_steps (set_steps d collection xs) collection ys ≡ set_steps d collection ys
unfolding set_steps
set_steps-set_steps d collection xs ys = put-put d collection _ _

-- the removal of the step that was inserted among `steps`
remove_inserted :
    (d : Dict Json) (collection : String) (steps : List Json) (step : Dict Json) (i : ℕ)
    → i ≤ length steps
    → remove_step (set_steps d collection (insert_item i (object step) steps)) collection (pos i)
      ≡ done (object step, set_steps d collection steps)
unfolding remove_step step_at position is_object Json.fields_of set_steps
remove_inserted d collection steps step i h =
    rw
      (
        step_collection_view-set_steps d collection (insert_item i (object step) steps),
        item_at-insert_item i (object step) steps h,
        delete_item-insert_item i (object step) steps h,
        set_steps-set_steps d collection (insert_item i (object step) steps) steps,
        remove_step,
        step_at,
      )
      refl

-- what an insertion that returned has done
inserted :
    (d d' : Dict Json)
    → (collection : String) → (insert_at : Option ℕ) → (step : Dict Json) → (i : ℕ)
    → insert_step d collection insert_at step ≡ done (i, d')
    → (steps : List Json) × (step_collection_view d collection ≡ done steps)
      × (insert_index insert_at steps ≡ i)
      × (set_steps d collection (insert_item i (object step) steps) ≡ d')
unfolding insert_step
inserted d d' collection insert_at step i h =
    elim (Reply-cases (step_collection_view d collection)) [
      | inl (steps, e) ↦ (steps, e, ground (arith, e, h), ground (arith, e, h))
      | inr (code, message, e) ↦ absurd (ground (arith, e, h))
    ]

-- If the definition has the collection and an insertion returned an index and a definition, the
-- deletion at that index from that definition gives the step and the definition from before.
pub remove_step-insert_step :
    (d d' : Dict Json)
    → (collection : String) → (v : Json) → (insert_at : Option ℕ) → (step : Dict Json) → (i : ℕ)
    → get d collection ≡ some v
    → insert_step d collection insert_at step ≡ done (i, d')
    → remove_step d' collection (pos i) ≡ done (object step, d)
unfolding step_collection_view
remove_step-insert_step d d' collection v insert_at step i e h =
    let (steps, viewed, index, same) = inserted d d' collection insert_at step i h in
    subst (λ (x : Dict Json). remove_step x collection (pos i) ≡ done (object step, d)) same
      (remove_inserted d collection steps step i
          (subst (λ (n : ℕ). n ≤ length steps) index (insert_index-bounded insert_at steps))
        ∙ ap (λ (x : Dict Json). done (object step, x))
            (view-sets d collection v steps e (ap view (sym e) ∙ viewed)))
