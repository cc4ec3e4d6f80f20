-- ===== src/Api/RateLimit.antt =====
-- foxrunner/rate_limit.py: the sliding window in front of the API. Times are in milliseconds; the
-- quota and the window are those of the environment, and not negative.
use fox_runner_server.Prelude.{
  ℕ, ◌+◌, ◌*◌, String, Bool, true, false, not, ◌&&◌, ◌||◌, List, [], ◌∷◌, ◌++◌, length, keep, any,
  ltb, leb, ◌==◌, get_or, str_eq, append_str, starts_with, if◌then◌else◌,
}
use fox_runner_server.Prelude.Dict.{Dict, get, put}

pub data Answer : Type 0 where
  served too_many : Answer

-- How Redis behaves for one request: no connection, a call that raises, or an answer.
pub data Redis : Type 0 where
  unreachable failing answering : Redis

-- `_WINDOWS`, `_REDIS_DISABLED_UNTIL`, and the sorted sets that Redis keeps: a member is the text of
-- its score, so a set is the list of its scores.
pub record Limiter : Type 0 where
  pub windows : Dict (List ℕ)
  pub disabled_until : ℕ
  pub sets : Dict (List ℕ)

-- `while bucket and bucket[0] <= now - window: bucket.popleft()`
unfoldable pub drop_expired : ℕ → ℕ → List ℕ → List ℕ
drop_expired window now [] = []
drop_expired window now (t ∷ bucket) =
    let rest = drop_expired window now bucket in if leb (t + window) now then rest else t ∷ bucket

-- the fallback inside the process: whether the request is served, and the bucket afterwards
unfoldable pub allow_local : (window max_requests now : ℕ) → List ℕ → Bool × List ℕ
allow_local window max_requests now bucket =
    let kept = drop_expired window now bucket in
    if leb max_requests (length kept) then (false, kept) else (true, kept ++ now ∷ [])

-- `zadd` of a member that is its score
unfoldable pub zadd : ℕ → List ℕ → List ℕ
zadd score set = if any (λ (s : ℕ). s == score) set then set else score ∷ set

-- `_allow_redis`: the request is counted, whether it is served or not
unfoldable pub allow_redis : (window max_requests now : ℕ) → List ℕ → Bool × List ℕ
allow_redis window max_requests now set =
    let set' = zadd now (keep (λ (s : ℕ). not (leb (s + window) now)) set) in
    (leb (length set') max_requests, set')

unfoldable pub answer : Bool → Answer
answer true = served
answer false = too_many

-- `_is_limited_path`, after `removeprefix("/api/v1")`
unfoldable pub is_limited_path : String → Bool
is_limited_path path =
    starts_with "/api/v1/auth/" path
    || str_eq path "/api/v1/graph/webhook"
    || str_eq path "/api/v1/graph/lifecycle"
    || starts_with "/auth/" path
    || str_eq path "/graph/webhook"
    || str_eq path "/graph/lifecycle"

-- `_trip_redis_breaker`: thirty seconds without Redis
unfoldable pub trip_redis_breaker : ℕ → Limiter → Limiter
trip_redis_breaker now l = record l { disabled_until = now + 30000 }

unfoldable pub bucket_of : Dict (List ℕ) → String → List ℕ
bucket_of d key = get_or (get d key) []

-- the in-process fallback
unfoldable pub fall_back : (window max_requests now : ℕ) → String → Limiter → Answer × Limiter
fall_back window max_requests now key l =
    let (ok, bucket) = allow_local window max_requests now (bucket_of l.windows key) in
    (answer ok, record l { windows = put l.windows key bucket })

unfoldable pub through_redis : (window max_requests now : ℕ) → String → Limiter → Answer × Limiter
through_redis window max_requests now key l =
    let (ok, set) = allow_redis window max_requests now (bucket_of l.sets key) in
    (answer ok, record l { sets = put l.sets key set })

-- `_get_redis_client`: the breaker is open while its time has not come
unfoldable pub breaker_open : ℕ → Limiter → Bool
breaker_open now l = not (l.disabled_until == 0) && ltb now l.disabled_until

-- the choice of the backend for one request, and its answer
unfoldable pub limited : (window max_requests now : ℕ) → Redis → String → Limiter → Answer × Limiter
limited window max_requests now redis key l = elim (breaker_open now l) [
  | true ↦ fall_back window max_requests now key l
  | false ↦ elim redis [
    | answering ↦ through_redis window max_requests now key l
    | failing ↦ fall_back window max_requests now key (trip_redis_breaker now l)
    | unreachable ↦ fall_back window max_requests now key (trip_redis_breaker now l)
  ]
]

-- `RateLimitMiddleware.__call__`
unfoldable pub handle_request :
    (enabled : Bool) (window_seconds max_requests now : ℕ)
    → Redis
    → (client_ip path : String) → Limiter
    → Answer × Limiter
handle_request enabled window_seconds max_requests now redis client_ip path l =
    if enabled && is_limited_path path
    then limited (window_seconds * 1000) max_requests now redis
        (append_str "ratelimit:" (append_str client_ip (append_str ":" path))) l
    else (served, l)
