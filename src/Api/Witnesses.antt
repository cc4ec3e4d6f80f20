-- ===== src/Api/Witnesses.antt =====
-- The theorems about foxrunner/ at small inputs.
use fox_runner_server.Prelude.{
  ℕ, List, suc, length, map, take, pos, ◌+◌, ◌++◌, refl, String, some, str_eq, if◌then◌else◌, ◌≤◌,
  ◌≡◌, [], ◌∷◌, arith,
}
use fox_runner_server.Scenario.Effects.{return, raise}
use fox_runner_server.Api.Idempotency.{
  StoredResponse, lookup, header_key, conflict, get_idempotent_response, insert,
  store_idempotent_response,
}
use fox_runner_server.Api.Replay.{kept_response, get_idempotent_response-store_idempotent_response}
use fox_runner_server.Api.Pages.{drop, paginate, paginate-continues}
use fox_runner_server.Api.Quota.{
  recent, serve_local, serve_local-bounded, serve_burst, serve_burst-unbounded,
}

serve_local-bounded_example :
    recent 60 100 (serve_local 60 2 [] [] (10 ∷ 50 ∷ 70 ∷ 80 ∷ 100 ∷ [])).1 ≤ 2
serve_local-bounded_example =
    serve_local-bounded 60 2 100 (10 ∷ 50 ∷ 70 ∷ 80 ∷ 100 ∷ [])
      (omega arith, (omega arith, (omega arith, (omega arith, (omega arith, tt)))))

serve_burst-unbounded_example : serve_burst 60000 60 1000 500 [] ≡ 500
serve_burst-unbounded_example = serve_burst-unbounded 60000 60 1000 500 (omega arith) (omega arith)

abbrev first_row : StoredResponse String
first_row = record {
  user_id = "u";
  key = "k";
  request_fingerprint = "payload";
  response = some "created";
}

first_storing :
    store_idempotent_response (λ (p : String). p) "{}" (some "k") "u" "payload" "created" []
    ≡ (return tt, first_row ∷ [])
unfolding store_idempotent_response header_key lookup insert
first_storing = refl

get_idempotent_response-store_idempotent_response_example :
    get_idempotent_response (λ (p : String). p) "{}" (some "k") "u" "other" (first_row ∷ []) ≡ (
      if str_eq "payload" "other"
      then return (some (kept_response (λ (p : String). p) "{}" "created" (lookup [] "u" "k")))
      else raise conflict)
get_idempotent_response-store_idempotent_response_example =
    get_idempotent_response-store_idempotent_response (λ (p : String). p) "{}" "k" "u" "payload"
      "other" "created" [] (first_row ∷ []) refl first_storing

abbrev ten : List ℕ
ten = 1 ∷ 2 ∷ 3 ∷ 4 ∷ 5 ∷ 6 ∷ 7 ∷ 8 ∷ 9 ∷ 10 ∷ []

paginate-continues_example :
    (length (paginate suc ten (record { limit = pos 3; offset = pos 2 })).items ≤ 3)
    × ((paginate suc ten (record { limit = pos 3; offset = pos 2 })).items
          ++ (paginate suc ten (record { limit = pos 3; offset = pos (2 + 3) })).items
        ≡ map suc (take (3 + 3) (drop 2 ten)))
paginate-continues_example = paginate-continues suc ten 3 2 (omega arith) (omega arith)
