-- ===== src/Api/Replay.antt =====
-- What a request is given that repeats an `Idempotency-Key` (foxrunner/idempotency.py).
use fox_runner_server.Prelude.{
  ◌≡◌, refl, sym, ap, ◌∙◌, String, Option, none, some, Bool, true, false, ◌&&◌, List, [], ◌∷◌, ◌++◌,
  get_or, str_eq, is_truthy, eq_refl, eq_iff, if◌then◌else◌, Bool-cases, inl, inr,
}
use fox_runner_server.Scenario.Effects.{Result, return, raise}
use fox_runner_server.Api.Idempotency.{
  StoredResponse, lookup, header_key, conflict, replay, get_idempotent_response, insert,
  store_idempotent_response,
}

raised : Path (Result (Unit {0})) (raise conflict) (return tt) → ⊥
raised e = cc

header_key-given : (key : String) → is_truthy key ≡ true → header_key (some key) ≡ some key
unfolding header_key
header_key-given key named = rw named refl

module _ {V : Type 0} where
  some_not_none : {r : StoredResponse V} → some r ≡ none → ⊥
  some_not_none e = cc

  found :
      (s : StoredResponse V) (table : List (StoredResponse V)) (r : StoredResponse V)
      → (str_eq s.user_id r.user_id && str_eq s.key r.key) ≡ true
      → lookup (s ∷ table) r.user_id r.key ≡ some s
  unfolding lookup
  found s table r there = rw (there, lookup) refl

  passed :
      (s : StoredResponse V) (table : List (StoredResponse V)) (r : StoredResponse V)
      → (str_eq s.user_id r.user_id && str_eq s.key r.key) ≡ false
      → lookup (s ∷ table) r.user_id r.key ≡ lookup table r.user_id r.key
  unfolding lookup
  passed s table r other = rw (other, lookup) refl

  lookup-append :
      (table : List (StoredResponse V)) (r : StoredResponse V)
      → lookup table r.user_id r.key ≡ none
      → lookup (table ++ r ∷ []) r.user_id r.key ≡ some r
  unfolding lookup
  lookup-append [] r absent = rw (eq_refl r.user_id, eq_refl r.key) refl
  lookup-append (s ∷ table) r absent =
      elim (Bool-cases (str_eq s.user_id r.user_id && str_eq s.key r.key)) [
        | inl there ↦ elim (some_not_none (sym (found s table r there) ∙ absent)) [ ]
        | inr other ↦
            rw (other, lookup) (lookup-append table r (sym (passed s table r other) ∙ absent))
      ]

module _ {P V : Type 0} (fingerprint : P → String) (empty : V) where
  -- the response under a key after a first or a repeated storing
  unfoldable pub kept_response : V → Option (StoredResponse V) → V
  kept_response response none = response
  kept_response response (some r) = get_or r.response empty

  kept_row :
      (key user_id : String) (payload : P) (response : V) (table table' : List (StoredResponse V))
      (r : StoredResponse V)
      → insert fingerprint empty user_id key payload response table (some r) ≡ (return tt, table')
      → (str_eq r.request_fingerprint (fingerprint payload) ≡ true) × (table' ≡ table)
  unfolding insert
  kept_row key user_id payload response table table' r stored =
      go (str_eq r.request_fingerprint (fingerprint payload)) stored
    where
      go :
          (same : Bool)
          → Path
              (Result (Unit {0}) × List (StoredResponse V))
              (if same then (return tt, table) else (raise conflict, table))
              (return tt, table')
          → Path Bool same true × Path (List (StoredResponse V)) table' table
      go true e = (refl, sym (ap (λ (t : Result (Unit {0}) × List (StoredResponse V)). t.1) e))
      go false e =
          elim (raised (ap (λ (t : Result (Unit {0}) × List (StoredResponse V)). t.0) e)) [ ]

  replay-insert :
      (key user_id : String) (payload payload' : P) (response : V)
      (table table' : List (StoredResponse V)) (o : Option (StoredResponse V))
      → lookup table user_id key ≡ o
      → insert fingerprint empty user_id key payload response table o ≡ (return tt, table')
      → replay fingerprint empty payload' (lookup table' user_id key) ≡ (
          if str_eq (fingerprint payload) (fingerprint payload')
          then return (some (kept_response response o))
          else raise conflict)
  unfolding insert replay kept_response
  replay-insert key user_id payload payload' response table table' none absent stored =
      let row : StoredResponse V = record {
        user_id = user_id;
        key = key;
        request_fingerprint = fingerprint payload;
        response = some response;
      } in
      let kept : lookup table' user_id key ≡ some row =
        ap (λ (t : Result (Unit {0}) × List (StoredResponse V)). lookup t.1 user_id key)
          (sym stored)
        ∙ lookup-append table row absent in
      rw (kept, replay) refl
  replay-insert key user_id payload payload' response table table' (some r) there stored =
      let (same, unchanged) = kept_row key user_id payload response table table' r stored in
      let kept : lookup table' user_id key ≡ some r =
        ap (λ (t : List (StoredResponse V)). lookup t user_id key) unchanged ∙ there in
      rw (kept, replay)
        (ap
          (λ (f : String).
            if str_eq f (fingerprint payload')
            then return (some (get_or r.response empty))
            else raise conflict)
          ((eq_iff r.request_fingerprint (fingerprint payload)).0 same))

  -- After a response has been stored under a key that is not empty, a request of the same user under
  -- this key is given the first response that was stored there if its payload has the fingerprint of
  -- that of the storing, and a conflict otherwise.
  pub get_idempotent_response-store_idempotent_response :
      (key user_id : String) (payload payload' : P) (response : V)
      (table table' : List (StoredResponse V))
      → is_truthy key ≡ true
      → store_idempotent_response fingerprint empty (some key) user_id payload response table
        ≡ (return tt, table')
      → get_idempotent_response fingerprint empty (some key) user_id payload' table' ≡ (
          if str_eq (fingerprint payload) (fingerprint payload')
          then return (some (kept_response response (lookup table user_id key)))
          else raise conflict)
  unfolding get_idempotent_response store_idempotent_response
  get_idempotent_response-store_idempotent_response key user_id payload payload' response table
        table' named stored =
      rw (header_key-given key named, get_idempotent_response)
        (replay-insert key user_id payload payload' response table table' (lookup table user_id key)
          refl (rw (header_key-given key named, store_idempotent_response) at stored))
