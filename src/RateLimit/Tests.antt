-- ===== src/RateLimit/Tests.antt =====
-- Runs of the rate limiter: two tokens of burst, one token per second.
use scoreplay_media_api.Prelude.{◌≡◌, ◌≤◌, ◌+◌, ◌*◌, ◌-◌, refl, [], ◌∷◌, codes, arith}
use scoreplay_media_api.RateLimit.{Limits, TokenBucket, Buckets, get_bucket, allow, cleanup}
use scoreplay_media_api.RateLimit.Burst.{admitted, admitted_bound}
use scoreplay_media_api.RateLimit.Idle.{cleanup_invisible}

abbrev limits : Limits
limits = record { one = 1_000_000_000; rps = 1; burst = 2 }

abbrev used : TokenBucket
used = record { tokens = 0; max_tokens = 2_000_000_000; refill_rate = 1; last_refill = 1_000 }

abbrev store : Buckets
store = (codes "a", used) ∷ []

admitted_bound_example :
    admitted 1_000_000_000 (2_000 ∷ 3_000 ∷ 4_000 ∷ []) used * 1_000_000_000
    ≤ 2_000_000_000 + (4_000 - 2_000) * 1
admitted_bound_example =
    admitted_bound 1_000_000_000 2_000 (3_000 ∷ 4_000 ∷ []) used (omega arith)
      (omega arith, (omega arith, tt))

cleanup_invisible_example :
    allow 1_000_000_000 900_000_000_000
      (get_bucket limits (codes "a") 900_000_000_000 (cleanup 800_000_000_000 store))
    ≡ allow 1_000_000_000 900_000_000_000 (get_bucket limits (codes "a") 900_000_000_000 store)
cleanup_invisible_example =
    cleanup_invisible limits 800_000_000_000 900_000_000_000 (codes "a") store (omega arith)
      (omega arith) (λ m. m, tt) (record { max_tokens = refl; refill_rate = refl }, tt)
