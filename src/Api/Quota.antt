-- ===== src/Api/Quota.antt =====
-- What the windows of foxrunner/rate_limit.py bound, and what they do not.
use fox_runner_server.Prelude.{
  ℕ, zero, suc, ◌+◌, ◌≤◌, ◌≡◌, refl, ap, true, List, [], ◌∷◌, ◌++◌, length, leb, leb_false→lt,
  if◌then◌else◌, All, Bool-cases, inl, inr, arith, length-append,
}
use fox_runner_server.Api.RateLimit.{drop_expired, allow_local, zadd, allow_redis}

-- how many of the times lie less than a window before `now`
unfoldable pub recent : ℕ → ℕ → List ℕ → ℕ
recent window now [] = 0
recent window now (t ∷ ts) =
    let rest = recent window now ts in if leb (t + window) now then rest else suc rest

-- The requests of one client to one path, at the given times, through the fallback: the bucket, and
-- the times of the requests that are served.
unfoldable pub serve_local : (window max_requests : ℕ) → List ℕ → List ℕ → List ℕ → List ℕ × List ℕ
serve_local window max_requests bucket log [] = (bucket, log)
serve_local window max_requests bucket log (t ∷ ts) =
    let (ok, bucket') = allow_local window max_requests t bucket in
    serve_local window max_requests bucket' (if ok then t ∷ log else log) ts

recent-le : (window now : ℕ) (ts : List ℕ) → recent window now ts ≤ length ts
unfolding recent
recent-le window now [] = omega arith
recent-le window now (t ∷ ts) = ground (arith, recent-le window now ts)

recent-append :
    (window now : ℕ) (ts : List ℕ) (t : ℕ)
    → recent window now (ts ++ t ∷ []) ≡ recent window now (t ∷ ts)
unfolding recent
recent-append window now [] t = refl
recent-append window now (s ∷ ts) t = ground (arith, recent-append window now ts t)

-- What has left the window at one time has left it later.
recent-drop_expired :
    (window t now : ℕ) (bucket : List ℕ)
    → t ≤ now
    → recent window now (drop_expired window t bucket) ≡ recent window now bucket
unfolding recent drop_expired
recent-drop_expired window t now [] le = refl
recent-drop_expired window t now (s ∷ bucket) le =
    ground (arith, recent-drop_expired window t now bucket le)

length-drop_expired-le :
    (window t : ℕ) (bucket : List ℕ) → length (drop_expired window t bucket) ≤ length bucket
unfolding drop_expired
length-drop_expired-le window t [] = omega arith
length-drop_expired-le window t (s ∷ bucket) =
    ground (arith, length-drop_expired-le window t bucket)

recent-cons_mono :
    (window now t : ℕ) (a b : List ℕ)
    → recent window now a ≤ recent window now b
    → recent window now (t ∷ a) ≤ recent window now (t ∷ b)
unfolding recent
recent-cons_mono window now t a b le = ground arith

-- Before and after a request: the bucket is within the quota and counts every request served.
record IsCounted (window max_requests now : ℕ) (bucket log : List ℕ) : Type 0 where
  within : length bucket ≤ max_requests
  counts : recent window now log ≤ recent window now bucket

serve_local-IsCounted :
    (window max_requests now : ℕ) (ts bucket log : List ℕ)
    → All (λ (t : ℕ). t ≤ now) ts
    → IsCounted window max_requests now bucket log
    → recent window now (serve_local window max_requests bucket log ts).1 ≤ max_requests
unfolding serve_local allow_local
serve_local-IsCounted window quota now [] bucket log before k =
    omega (arith, k.within, k.counts, recent-le window now bucket)
serve_local-IsCounted window quota now (t ∷ ts) bucket log before k =
    let kept = drop_expired window t bucket in
    elim (Bool-cases (leb quota (length kept))) [
      | inl full ↦
          rw (full, serve_local)
            (serve_local-IsCounted window quota now ts kept log before.1 (record {
              within = omega (arith, k.within, length-drop_expired-le window t bucket);
              counts = omega (arith, k.counts, recent-drop_expired window t now bucket before.0);
            }))
      | inr free ↦
          rw (free, serve_local)
            (serve_local-IsCounted window quota now ts (kept ++ t ∷ []) (t ∷ log) before.1 (record {
              within =
                  omega (arith, leb_false→lt quota (length kept) free, length-append kept (t ∷ []));
              counts = omega (
                arith,
                recent-append window now kept t,
                recent-cons_mono window now t log kept
                    (omega (arith, k.counts, recent-drop_expired window t now bucket before.0)),
              );
            }))
    ]

-- Through the fallback, of all the requests that one client makes to one path up to a time `now`, no
-- more than `max_requests` are served less than one window before `now`.
pub serve_local-bounded :
    (window max_requests now : ℕ) (ts : List ℕ)
    → All (λ (t : ℕ). t ≤ now) ts
    → recent window now (serve_local window max_requests [] [] ts).1 ≤ max_requests
unfolding recent
serve_local-bounded window quota now ts before =
    serve_local-IsCounted window quota now ts [] [] before
      (record { within = omega arith; counts = omega arith })

-- `count` requests at the same millisecond through Redis, and how many of them are served
unfoldable pub serve_burst : (window max_requests now : ℕ) → ℕ → List ℕ → ℕ
serve_burst window max_requests now zero set = 0
serve_burst window max_requests now (suc count) set =
    let (ok, set') = allow_redis window max_requests now set in
    let rest = serve_burst window max_requests now count set' in if ok then suc rest else rest

allow_redis-again :
    (window quota now : ℕ)
    → 1 ≤ window
    → 1 ≤ quota
    → allow_redis window quota now (now ∷ []) ≡ (true, now ∷ [])
unfolding allow_redis zadd
allow_redis-again window quota now w q = ground arith

allow_redis-first :
    (window quota now : ℕ) → 1 ≤ quota → allow_redis window quota now [] ≡ (true, now ∷ [])
unfolding allow_redis zadd
allow_redis-first window quota now q = ground arith

serve_burst-again :
    (window quota now count : ℕ)
    → 1 ≤ window
    → 1 ≤ quota
    → serve_burst window quota now count (now ∷ []) ≡ count
unfolding serve_burst
serve_burst-again window quota now zero w q = refl
serve_burst-again window quota now (suc count) w q =
    rw (allow_redis-again window quota now w q)
      (ap suc (serve_burst-again window quota now count w q))

-- Through Redis any number of requests that one client makes to one path within one millisecond, the
-- first ones in their window, are all served, whatever the quota: they are the same member of the
-- sorted set and count as one. This supposes a window and a quota of at least one.
pub serve_burst-unbounded :
    (window max_requests now count : ℕ)
    → 1 ≤ window
    → 1 ≤ max_requests
    → serve_burst window max_requests now count [] ≡ count
unfolding serve_burst
serve_burst-unbounded window quota now zero w q = refl
serve_burst-unbounded window quota now (suc count) w q =
    rw (allow_redis-first window quota now q)
      (ap suc (serve_burst-again window quota now count w q))
