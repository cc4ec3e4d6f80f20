-- ===== src/Documents/Defaults.antt =====
-- The default keys of a loaded `data` block name a pushover and a network: `load_scenario_data` of
-- scenarios/loader.py.
use fox_runner_server.Prelude.{
  String, ◌≡◌, refl, ap, subst, Option, none, some, Bool, true, false, [], ◌∷◌, eq_refl, arith,
  if◌then◌else◌,
}
use fox_runner_server.Prelude.Dict.{Dict, get, has}
use fox_runner_server.Prelude.Json.{Json, Fields}
use fox_runner_server.Scenario.Effects.{Result, return, raise}
use fox_runner_server.Documents.Data.{
  ◌>>=◌, first_key, resolve_default_key, load_scenario_data, ScenarioData,
}

value_or : {A : Type 0} → A → Result A → A
value_or default (return a) = a
value_or default (raise message) = default

returned_key : (k key : Option String) → return k ≡ return key → k ≡ key
unfolding value_or
returned_key k key h = ap (value_or k) h

module _ {V : Type 0} where
  -- the key, if there is one, is a key of the dict
  abbrev pub IsNamed : Option String → Dict V → Type 0
  IsNamed none values = Unit
  IsNamed (some key) values = has values key ≡ true

  first_key-IsNamed : (values : Dict V) → IsNamed (first_key values) values
  unfolding first_key has get
  first_key-IsNamed [] = tt
  first_key-IsNamed ((key, v) ∷ values) = ground (arith, eq_refl key)

  default_or_first :
      (b : Bool) (values : Dict V) (key : Option String)
      → has values "default" ≡ b
      → (if b then return (some "default") else return (first_key values)) ≡ return key
      → IsNamed key values
  default_or_first true values key e h =
      subst (λ (k : Option String). IsNamed k values) (returned_key (some "default") key h) e
  default_or_first false values key e h =
      subst (λ (k : Option String). IsNamed k values) (returned_key (first_key values) key h)
        (first_key-IsNamed values)

  key_tested :
      (b : Bool) (values : Dict V) (k message : String) (key : Option String)
      → has values k ≡ b
      → (if b then return (some k) else raise message) ≡ return key
      → IsNamed key values
  key_tested true values k message key e h =
      subst (λ (x : Option String). IsNamed x values) (returned_key (some k) key h) e
  key_tested false values k message key e h = cc

  resolve_default_key-IsNamed :
      (o : Option Json) (values : Dict V) (field_name filename : String) (key : Option String)
      → resolve_default_key o values field_name filename ≡ return key
      → IsNamed key values
  unfolding resolve_default_key
  resolve_default_key-IsNamed none values n f key h = default_or_first _ values key refl h
  resolve_default_key-IsNamed (some Json.null) values n f key h =
      default_or_first _ values key refl h
  resolve_default_key-IsNamed (some (Json.text k)) values n f key h =
      key_tested _ values k _ key refl h
  resolve_default_key-IsNamed (some (Json.bool b)) values n f key h = cc
  resolve_default_key-IsNamed (some (Json.num m)) values n f key h = cc
  resolve_default_key-IsNamed (some (Json.arr xs)) values n f key h = cc
  resolve_default_key-IsNamed (some (Json.obj fs)) values n f key h = cc

module _ {A B : Type 0} where
  bound :
      (r : Result A) (k : A → Result B) (b : B)
      → (r >>= k) ≡ return b
      → (a : A) × (r ≡ return a) × (k a ≡ return b)
  unfolding ◌>>=◌
  bound (return a) k b h = (a, refl, h)
  bound (raise message) k b h = cc

module _ {F : Type 0} where
  returned_data : (x d : ScenarioData F) → return x ≡ return d → x ≡ d
  unfolding value_or
  returned_data x d h = ap (value_or x) h

  -- If the `data` block loads, its default pushover, if it has one, is a key of its pushovers, and its
  -- default network of its networks.
  pub load_scenario_data-IsNamed :
      (float_of : Json → Result F) (raw : Fields) (filename : String) (d : ScenarioData F)
      → load_scenario_data float_of raw filename ≡ return d
      → IsNamed d.default_pushover_key d.pushovers × IsNamed d.default_network_key d.networks
  unfolding load_scenario_data
  load_scenario_data-IsNamed float_of raw filename d h =
      let (pushovers, a, h1) = bound _ _ d h in
      let (networks, b, h2) = bound _ _ d h1 in
      let (pushover, c, h3) = bound _ _ d h2 in
      let (network, e, h4) = bound _ _ d h3 in
      let same = returned_data _ d h4 in
      subst
        (λ (x : ScenarioData F).
          IsNamed x.default_pushover_key x.pushovers × IsNamed x.default_network_key x.networks)
        same
        (
          resolve_default_key-IsNamed _ pushovers _ _ pushover c,
          resolve_default_key-IsNamed _ networks _ _ network e,
        )
