-- ===== src/Api/Idempotency.antt =====
-- foxrunner/idempotency.py: the responses kept under the `Idempotency-Key` of a request. The table
-- has one row for a user and a key, by its constraint.
use fox_runner_server.Prelude.{
  String, Option, none, some, ◌&&◌, List, [], ◌∷◌, ◌++◌, get_or, str_eq, is_truthy, if◌then◌else◌,
}
use fox_runner_server.Scenario.Effects.{Result, return, raise}

-- `IdempotencyKey`; a response of `null` is none
pub record StoredResponse (V : Type 0) : Type 0 where
  pub user_id : String
  pub key : String
  pub request_fingerprint : String
  pub response : Option V

module _ {V : Type 0} where
  -- `filter(user_id=..., key=...).first()`
  unfoldable pub lookup :
      List (StoredResponse V) → (user_id key : String) → Option (StoredResponse V)
  lookup [] user_id key = none
  lookup (r ∷ rs) user_id key =
      let rest = lookup rs user_id key in
      if str_eq r.user_id user_id && str_eq r.key key then some r else rest

-- `if not key`
unfoldable pub header_key : Option String → Option String
header_key none = none
header_key (some key) = if is_truthy key then some key else none

abbrev pub conflict : String
conflict = "409 Idempotency-Key reutilisee avec un payload different."

-- `fingerprint` is the digest of a payload's JSON text, `empty` the response `{}`.
module _ {P V : Type 0} (fingerprint : P → String) (empty : V) where
  unfoldable pub replay : P → Option (StoredResponse V) → Result (Option V)
  replay payload none = return none
  replay payload (some r) =
      if str_eq r.request_fingerprint (fingerprint payload)
      then return (some (get_or r.response empty))
      else raise conflict

  -- `get_idempotent_response`
  unfoldable pub get_idempotent_response :
      Option String → String → P → List (StoredResponse V) → Result (Option V)
  get_idempotent_response header user_id payload table = elim (header_key header) [
    | none ↦ return none
    | some key ↦ replay payload (lookup table user_id key)
  ]

  -- the insertion, or the `IntegrityError` of a row that is there, also of a concurrent request
  unfoldable pub insert :
      String
      → String
      → P
      → V
      → List (StoredResponse V)
      → Option (StoredResponse V)
      → Result (Unit {0}) × List (StoredResponse V)
  insert user_id key payload response table none = (
    return tt,
    table
        ++ record {
          user_id = user_id;
          key = key;
          request_fingerprint = fingerprint payload;
          response = some response;
        }
          ∷ [],
  )
  insert user_id key payload response table (some existing) =
      if str_eq existing.request_fingerprint (fingerprint payload)
      then (return tt, table)
      else (raise conflict, table)

  -- `store_idempotent_response`
  unfoldable pub store_idempotent_response :
      Option String
      → String
      → P
      → V
      → List (StoredResponse V)
      → Result (Unit {0}) × List (StoredResponse V)
  store_idempotent_response header user_id payload response table = elim (header_key header) [
    | none ↦ (return tt, table)
    | some key ↦ insert user_id key payload response table (lookup table user_id key)
  ]
