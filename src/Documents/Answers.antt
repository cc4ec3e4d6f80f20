-- ===== src/Documents/Answers.antt =====
-- A step that scenarios/loader.py validates has an answer to whether it needs the enterprise network
-- (`_step_requires_enterprise_network` of catalog/services.py): the question does not raise.
use fox_runner_server.Prelude.{
  String, ◌≡◌, refl, sym, subst, Option, none, some, Bool, true, false, [], ◌∷◌, str_eq, arith,
  if◌then◌else◌,
}
use fox_runner_server.Prelude.Json as Json
use fox_runner_server.Prelude.Json.{Json, Items, Fields, field_of}
use fox_runner_server.Backend.Exec.{Reply, done, http}
use fox_runner_server.Scenario.Effects.{Result, return, raise}
use fox_runner_server.Documents.Checks.{◌then◌, require_keys}
use fox_runner_server.Documents.Steps.{
  Texts, checked_type, is_sequence, validate_body, validate_step_document, validate_children,
  validate_list, validate_items, step_context,
}
use fox_runner_server.Catalog.Summary.{
  either, Children, children_of, json_step_requires_network, requires_network_at,
  value_requires_network, items_require_network,
}

abbrev pub Passes : Result (Unit {0}) → Type 0
Passes r = r ≡ return tt

abbrev pub Answers : Reply Bool → Type 0
Answers r = (b : Bool) × (r ≡ done b)

pub then-first : (a b : Result (Unit {0})) → Passes (a then b) → Passes a
unfolding ◌then◌
then-first (return u) b h = refl
then-first (raise message) b h = cc

pub then-rest : (a b : Result (Unit {0})) → Passes (a then b) → Passes b
unfolding ◌then◌
then-rest (return u) b h = h
then-rest (raise message) b h = cc

pub either-Answers : (a b : Reply Bool) → Answers a → Answers b → Answers (either a b)
unfolding either
either-Answers (done true) b h g = (true, refl)
either-Answers (done false) b h g = g
either-Answers (http code message) b h g = cc

-- what a step that passes says of its lists of steps
body_lists :
    (t : Texts) (f i : String) (fs : Fields) (s try_s catch_s finally_s : Result (Unit {0}))
    (kind : String)
    → Passes (validate_body t f i fs s try_s catch_s finally_s (return kind))
    → (is_sequence kind ≡ true → Passes s)
      × (str_eq kind "try" ≡ true → Passes try_s × Passes catch_s × Passes finally_s)
unfolding validate_body
body_lists t f i fs s try_s catch_s finally_s kind h = (
  λ e. then-rest _ s (
      subst
        (λ (b : Bool). Passes (
          if b then require_keys fs ("steps" ∷ []) (step_context t f i kind) then s else return tt))
        e (then-first _ _ h)),
  λ e.
      let tried =
        subst
          (λ (b : Bool). Passes (
            if b
            then require_keys fs ("try_steps" ∷ []) (step_context t f i kind)
            then try_s
            then catch_s
            then finally_s
            else return tt))
          e (then-first _ _ (then-rest _ _ (then-rest _ _ h))) in
      (
        then-first try_s _ (then-rest _ _ tried),
        then-first catch_s _ (then-rest _ _ (then-rest _ _ tried)),
        then-rest _ finally_s (then-rest _ _ (then-rest _ _ tried)),
      ),
)

checked_type-text :
    (t : Texts) (f : String) (o : Option Json) (kind : String)
    → checked_type t f o ≡ return kind
    → o ≡ some (Json.text kind)
unfolding checked_type
checked_type-text t f none kind h = cc
checked_type-text t f (some (Json.text s)) kind h = ground (arith, h)
checked_type-text t f (some Json.null) kind h = cc
checked_type-text t f (some (Json.bool b)) kind h = cc
checked_type-text t f (some (Json.num n)) kind h = cc
checked_type-text t f (some (Json.arr xs)) kind h = cc
checked_type-text t f (some (Json.obj fs)) kind h = cc

children_of-hashable :
    (kind : String) → children_of (some (Json.text kind)) ≡ Children.unhashable → ⊥
unfolding children_of
children_of-hashable kind h = ground (arith, h)

children_of-steps :
    (kind : String) → children_of (some (Json.text kind)) ≡ Children.steps → is_sequence kind ≡ true
unfolding children_of is_sequence
children_of-steps kind h = ground (arith, h)

children_of-branches :
    (kind : String)
    → children_of (some (Json.text kind)) ≡ Children.branches
    → str_eq kind "try" ≡ true
unfolding children_of
children_of-branches kind h = ground (arith, h)

-- the answer for a kind of step, from the answers for its lists
chosen : Children → (steps try_s catch_s finally_s : Reply Bool) → Reply Bool
chosen c steps try_s catch_s finally_s = elim c [
  | Children.network ↦ done true
  | Children.steps ↦ steps
  | Children.branches ↦ either try_s (either catch_s finally_s)
  | Children.leaf ↦ done false
  | Children.unhashable ↦ http 500 "TypeError: unhashable type"
]

chosen-Answers :
    (c : Children) (steps try_s catch_s finally_s : Reply Bool)
    → (c ≡ Children.unhashable → ⊥)
    → (c ≡ Children.steps → Answers steps)
    → (c ≡ Children.branches → Answers try_s × Answers catch_s × Answers finally_s)
    → Answers (chosen c steps try_s catch_s finally_s)
unfolding chosen
chosen-Answers Children.network s tr ca fi u h g = (true, refl)
chosen-Answers Children.steps s tr ca fi u h g = h refl
chosen-Answers Children.branches s tr ca fi u h g =
    let (x, y, z) = g refl in either-Answers tr _ x (either-Answers ca fi y z)
chosen-Answers Children.leaf s tr ca fi u h g = (false, refl)
chosen-Answers Children.unhashable s tr ca fi u h g = absurd (u refl)

raised_body :
    (t : Texts) (f i : String) (fs : Fields) (s tr ca fi : Result (Unit {0})) (message : String)
    → Passes (validate_body t f i fs s tr ca fi (raise message))
    → ⊥
unfolding validate_body
raised_body t f i fs s tr ca fi message h = cc

-- one of two lists, as the key is the one or not
picked :
    (b : Bool) (x y : Result (Unit {0})) (p q : Reply Bool)
    → (Passes x → Answers p)
    → (Passes y → Answers q)
    → Passes (if b then x else y)
    → Answers (if b then p else q)
picked true x y p q h g k = h k
picked false x y p q h g k = g k

-- a step whose checks passed, from the answers for its lists
from_lists :
    (t : Texts)
    → (f i : String) → (fs : Fields) → (s tr ca fi : Result (Unit {0})) → (a b c d : Reply Bool)
    → (r : Result String) → checked_type t f (field_of fs "type") ≡ r
    → Passes (validate_body t f i fs s tr ca fi r)
    → (Passes s → Answers a)
    → (Passes tr → Answers b)
    → (Passes ca → Answers c)
    → (Passes fi → Answers d)
    → Answers (chosen (children_of (field_of fs "type")) a b c d)
from_lists t f i fs s tr ca fi a b c d (raise message) e h hs ht hc hf =
    absurd (raised_body t f i fs s tr ca fi message h)
from_lists t f i fs s tr ca fi a b c d (return kind) e h hs ht hc hf =
    let lists = body_lists t f i fs s tr ca fi kind h in
    subst (λ (o : Option Json). Answers (chosen (children_of o) a b c d))
      (sym (checked_type-text t f (field_of fs "type") kind e))
      (chosen-Answers (children_of (some (Json.text kind))) a b c d (children_of-hashable kind)
        (λ y. hs (lists.0 (children_of-steps kind y)))
        (λ y. let (p, q, r) = lists.1 (children_of-branches kind y) in (ht p, hc q, hf r)))

mutual
  unfolding validate_step_document json_step_requires_network chosen

  step-Answers :
      (t : Texts) (f i : String) (j : Json)
      → Passes (validate_step_document t f i j)
      → Answers (json_step_requires_network j)
  step-Answers t f i (Json.obj fs) h =
      from_lists t f i fs _ _ _ _ _ _ _ _ (checked_type t f (field_of fs "type")) refl
        (then-rest _ _ h) (children-Answers t f i fs "steps" _)
        (children-Answers t f i fs "try_steps" _) (children-Answers t f i fs "catch_steps" _)
        (children-Answers t f i fs "finally_steps" _)
  step-Answers t f i Json.null h = (false, refl)
  step-Answers t f i (Json.bool b) h = (false, refl)
  step-Answers t f i (Json.num n) h = (false, refl)
  step-Answers t f i (Json.text s) h = (false, refl)
  step-Answers t f i (Json.arr xs) h = (false, refl)

  children-Answers :
      (t : Texts) (f i : String) (fs : Fields) (key label : String)
      → Passes (validate_children t f i fs key label)
      → Answers (requires_network_at fs key)
  children-Answers t f i Json.end key label h = (false, refl)
  children-Answers t f i (Json.field k v rest) key label h =
      picked (str_eq k key) _ _ _ _ (list-Answers t f i label v)
        (children-Answers t f i rest key label) h

  list-Answers :
      (t : Texts) (f i label : String) (v : Json)
      → Passes (validate_list t f i label v)
      → Answers (value_requires_network v)
  list-Answers t f i label (Json.arr xs) h = items-Answers t f i xs h
  list-Answers t f i label Json.null h = cc
  list-Answers t f i label (Json.bool b) h = cc
  list-Answers t f i label (Json.num n) h = cc
  list-Answers t f i label (Json.text s) h = cc
  list-Answers t f i label (Json.obj fs) h = cc

  pub items-Answers :
      (t : Texts) (f i : String) (xs : Items)
      → Passes (validate_items t f i xs)
      → Answers (items_require_network xs)
  items-Answers t f i Json.nil h = (false, refl)
  items-Answers t f i (Json.cons x xs) h =
      either-Answers _ _ (step-Answers t f i x (then-first _ _ h))
        (items-Answers t f i xs (then-rest _ _ h))
