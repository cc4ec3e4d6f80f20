-- ===== src/Documents/Data.antt =====
-- The `data` block of the document of scenarios, and the slots: `load_scenario_data` and
-- `build_slots_from_items` of scenarios/loader.py.
use fox_runner_server.Prelude.{
  String, ℤ, pos, Option, none, some, Bool, false, ◌&&◌, List, [], ◌∷◌, if◌then◌else◌,
}
use fox_runner_server.Prelude.Dict.{Dict, has}
use fox_runner_server.Prelude.Json as Json
use fox_runner_server.Prelude.Json.{Json, Items, Fields, field_of, truth, to_list}
use fox_runner_server.Scenario.Effects.{Result, return, raise}
use fox_runner_server.Documents.Checks.{say, require_keys}
use fox_runner_server.Documents.Scenarios.{object_fields}

module _ {A B : Type 0} where
  infixr 6 ◌>>=◌
  unfoldable pub ◌>>=◌ : Result A → (A → Result B) → Result B
  return a >>= k = k a
  raise message >>= k = raise message

module _ {B : Type 0} where
  infixr 6 ◌>>◌
  unfoldable pub ◌>>◌ : Result (Unit {0}) → Result B → Result B
  f >> k = f >>= λ (u : Unit {0}). k

pub record PushoverConfig (F : Type 0) : Type 0 where
  pub token : Json
  pub user_key : Json
  pub sound : Json
  pub timeout_seconds : F

pub record NetworkConfig (F : Type 0) : Type 0 where
  pub office_ipv4_networks : List String
  pub office_gateway_networks : List String
  pub office_dns_suffixes : List String
  pub vpn_interface_keywords : List String
  pub vpn_process_names : List String
  pub internal_test_hosts : List String
  pub internal_test_ports : List ℤ
  pub tcp_timeout_seconds : F
  pub home_like_networks : List String
  pub allow_private_non_home_heuristic_for_vpn : Bool

pub record ScenarioData (F : Type 0) : Type 0 where
  pub pushovers : Dict (PushoverConfig F)
  pub networks : Dict (NetworkConfig F)
  pub default_pushover_key : Option String
  pub default_network_key : Option String

unfoldable pub is_filled_field : Option Json → Bool
is_filled_field none = false
is_filled_field (some v) = truth v

unfoldable pub or_value : Option Json → Json → Json
or_value none v = v
or_value (some w) v = w

-- the value under a key that is there
unfoldable pub value_at : Fields → String → Json
value_at fs key = or_value (field_of fs key) Json.null

-- `_ensure_str_list`
unfoldable pub strings_of : String → Items → Result (List String)
strings_of message Json.nil = return []
strings_of message (Json.cons (Json.text s) xs) = do rest ← strings_of message xs; return (s ∷ rest)
strings_of message (Json.cons _ xs) = raise message

unfoldable pub ensure_str_list : Json → (filename name : String) → Result (List String)
ensure_str_list (Json.arr xs) filename name =
    strings_of (say (filename ∷ ": '" ∷ name ∷ "' doit etre une liste de chaines." ∷ [])) xs
ensure_str_list _ filename name =
    raise (say (filename ∷ ": '" ∷ name ∷ "' doit etre une liste de chaines." ∷ []))

-- `_ensure_int_list`; a bool is an int
unfoldable pub ints_of : String → Items → Result (List ℤ)
ints_of message Json.nil = return []
ints_of message (Json.cons (Json.num n) xs) = do rest ← ints_of message xs; return (n ∷ rest)
ints_of message (Json.cons (Json.bool b) xs) = do
  rest ← ints_of message xs
  return ((if b then pos 1 else pos 0) ∷ rest)
ints_of message (Json.cons _ xs) = raise message

unfoldable pub ensure_int_list : Json → (filename name : String) → Result (List ℤ)
ensure_int_list (Json.arr xs) filename name =
    ints_of (say (filename ∷ ": '" ∷ name ∷ "' doit etre une liste d'entiers." ∷ [])) xs
ensure_int_list _ filename name =
    raise (say (filename ∷ ": '" ∷ name ∷ "' doit etre une liste d'entiers." ∷ []))

abbrev pub network_keys : List String
network_keys =
    "office_ipv4_networks" ∷ "office_gateway_networks" ∷ "office_dns_suffixes"
    ∷ "vpn_interface_keywords" ∷ "vpn_process_names" ∷ "internal_test_hosts" ∷ "internal_test_ports"
    ∷ "tcp_timeout_seconds" ∷ "home_like_networks" ∷ "allow_private_non_home_heuristic_for_vpn" ∷ []

module _ {V : Type 0} where
  -- `next(iter(values))`
  unfoldable pub first_key : Dict V → Option String
  first_key [] = none
  first_key ((key, v) ∷ values) = some key

  -- `_resolve_default_key`
  unfoldable pub resolve_default_key :
      Option Json → Dict V → (field_name filename : String) → Result (Option String)
  resolve_default_key none values field_name filename =
      if has values "default" then return (some "default") else return (first_key values)
  resolve_default_key (some Json.null) values field_name filename =
      if has values "default" then return (some "default") else return (first_key values)
  resolve_default_key (some (Json.text key)) values field_name filename =
      if has values key
      then return (some key)
      else raise (
          say (
            filename ∷ ": 'data." ∷ field_name ∷ "' ne contient pas la cle par defaut '" ∷ key
            ∷ "'." ∷ []))
  resolve_default_key (some _) values field_name filename =
      raise (say (filename ∷ ": 'data." ∷ field_name ∷ "' par defaut doit etre une chaine." ∷ []))

-- `float` of a value, which may raise; `F` stands for Python's floats
module _ {F : Type 0} (float_of : Json → Result F) where
  unfoldable pub load_pushover : (filename key : String) → Json → Result (PushoverConfig F)
  load_pushover filename key (Json.obj fs) =
      if is_filled_field (field_of fs "token") && is_filled_field (field_of fs "user_key")
      then (do
        timeout ← float_of (or_value (field_of fs "timeout_seconds") (Json.num (pos 20)))
        return record {
          token = value_at fs "token";
          user_key = value_at fs "user_key";
          sound = or_value (field_of fs "sound") (Json.text "vibrate");
          timeout_seconds = timeout;
        })
      else raise (
          say
            (filename ∷ ": 'data.pushovers." ∷ key ∷ "' doit contenir 'token' et 'user_key'." ∷ []))
  load_pushover filename key _ =
      raise (say (filename ∷ ": 'data.pushovers." ∷ key ∷ "' doit etre un objet." ∷ []))

  unfoldable pub load_pushovers : (filename : String) → Fields → Result (Dict (PushoverConfig F))
  load_pushovers filename Json.end = return []
  load_pushovers filename (Json.field key v fs) = do
    first ← load_pushover filename key v
    rest ← load_pushovers filename fs
    return ((key, first) ∷ rest)

  -- `_load_pushover_map`
  unfoldable pub load_pushover_map : Fields → (filename : String) → Result (Dict (PushoverConfig F))
  load_pushover_map raw filename =
      elim (object_fields (some (or_value (field_of raw "pushovers") (Json.obj Json.end)))) [
        | none ↦ raise (say (filename ∷ ": 'data.pushovers' doit etre un objet." ∷ []))
        | some fs ↦ load_pushovers filename fs
      ]

  unfoldable pub load_network : (filename key : String) → Json → Result (NetworkConfig F)
  load_network filename key (Json.obj fs) = do
    let name = λ (field : String). say ("data.networks." ∷ key ∷ "." ∷ field ∷ [])
    require_keys fs network_keys (say (filename ∷ " data.networks." ∷ key ∷ []))
    ipv4 ←
        ensure_str_list (value_at fs "office_ipv4_networks") filename (name "office_ipv4_networks")
    gateways ←
        ensure_str_list (value_at fs "office_gateway_networks") filename
          (name "office_gateway_networks")
    suffixes ←
        ensure_str_list (value_at fs "office_dns_suffixes") filename (name "office_dns_suffixes")
    keywords ←
        ensure_str_list (value_at fs "vpn_interface_keywords") filename
          (name "vpn_interface_keywords")
    processes ←
        ensure_str_list (value_at fs "vpn_process_names") filename (name "vpn_process_names")
    hosts ←
        ensure_str_list (value_at fs "internal_test_hosts") filename (name "internal_test_hosts")
    ports ←
        ensure_int_list (value_at fs "internal_test_ports") filename (name "internal_test_ports")
    timeout ← float_of (value_at fs "tcp_timeout_seconds")
    home ← ensure_str_list (value_at fs "home_like_networks") filename (name "home_like_networks")
    return record {
      office_ipv4_networks = ipv4;
      office_gateway_networks = gateways;
      office_dns_suffixes = suffixes;
      vpn_interface_keywords = keywords;
      vpn_process_names = processes;
      internal_test_hosts = hosts;
      internal_test_ports = ports;
      tcp_timeout_seconds = timeout;
      home_like_networks = home;
      allow_private_non_home_heuristic_for_vpn =
          truth (value_at fs "allow_private_non_home_heuristic_for_vpn");
    }
  load_network filename key _ =
      raise (say (filename ∷ ": 'data.networks." ∷ key ∷ "' doit etre un objet." ∷ []))

  unfoldable pub load_networks : (filename : String) → Fields → Result (Dict (NetworkConfig F))
  load_networks filename Json.end = return []
  load_networks filename (Json.field key v fs) = do
    first ← load_network filename key v
    rest ← load_networks filename fs
    return ((key, first) ∷ rest)

  -- `_load_network_map`
  unfoldable pub load_network_map : Fields → (filename : String) → Result (Dict (NetworkConfig F))
  load_network_map raw filename =
      elim (object_fields (some (or_value (field_of raw "networks") (Json.obj Json.end)))) [
        | none ↦ raise (say (filename ∷ ": 'data.networks' doit etre un objet." ∷ []))
        | some fs ↦ load_networks filename fs
      ]

  -- `load_scenario_data`, after the document's validation
  unfoldable pub load_scenario_data : Fields → (filename : String) → Result (ScenarioData F)
  load_scenario_data raw filename = do
    pushovers ← load_pushover_map raw filename
    networks ← load_network_map raw filename
    pushover ← resolve_default_key (field_of raw "default_pushover") pushovers "pushovers" filename
    network ← resolve_default_key (field_of raw "default_network") networks "networks" filename
    return record {
      pushovers = pushovers;
      networks = networks;
      default_pushover_key = pushover;
      default_network_key = network;
    }
