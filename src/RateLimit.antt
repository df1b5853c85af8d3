-- ===== src/RateLimit.antt =====
-- internal/adapter/http/middleware/ratelimit.go: the token buckets, their store and its clean-up. Tokens
-- are counted in units, `one` of which make a token, and the rate is the units that a nanosecond
-- adds, so that every rational rate has a scale; the rounding of Go's float64 is left out. Times are
-- those of the monotonic clock.
pub mod Burst
pub mod Idle
mod Tests
use scoreplay_media_api.Prelude.{
  ℕ, ◌+◌, ◌-◌, ◌*◌, Bool, true, false, not, ◌&&◌, List, [], ◌∷◌, map, Option, none, some, Text,
  text_eq, filter, ltb, leb, if◌then◌else◌,
}
use scoreplay_media_api.Domain.{Time, second}

pub record TokenBucket : Type 0 where
  pub tokens : ℕ
  pub max_tokens : ℕ
  pub refill_rate : ℕ
  pub last_refill : Time

-- The parameters of the middleware: the units in a token, the rate, and the burst.
pub record Limits : Type 0 where
  pub one : ℕ
  pub rps : ℕ
  pub burst : ℕ

unfoldable pub new_token_bucket : Limits → Time → TokenBucket
new_token_bucket l now = record {
  tokens = l.burst * l.one;
  max_tokens = l.burst * l.one;
  refill_rate = l.rps;
  last_refill = now;
}

abbrev pub capped : ℕ → ℕ → ℕ
capped most n = if ltb most n then most else n

unfoldable pub refill : Time → TokenBucket → TokenBucket
refill now b = record b {
  tokens = capped b.max_tokens (b.tokens + (now - b.last_refill) * b.refill_rate);
  last_refill = now;
}

abbrev pub spend : ℕ → TokenBucket → Bool × TokenBucket
spend one b = if ltb b.tokens one then (false, b) else (true, record b { tokens = b.tokens - one })

unfoldable pub allow : ℕ → Time → TokenBucket → Bool × TokenBucket
unfolding refill
allow one now b = spend one (refill now b)

-- The map from addresses to buckets.
abbrev pub Buckets : Type 0
Buckets = List (Text × TokenBucket)

unfoldable pub bucket_at : Text → Buckets → Option TokenBucket
bucket_at ip [] = none
bucket_at ip ((k, b) ∷ rest) = if text_eq k ip then some b else bucket_at ip rest

unfoldable pub put_bucket : Text → TokenBucket → Buckets → Buckets
put_bucket ip b [] = (ip, b) ∷ []
put_bucket ip b ((k, c) ∷ rest) =
    let later = put_bucket ip b rest in if text_eq k ip then (k, b) ∷ rest else (k, c) ∷ later

abbrev pub or_new : Limits → Time → Option TokenBucket → TokenBucket
or_new l now none = new_token_bucket l now
or_new l now (some b) = b

-- The bucket of an address, or a full one.
unfoldable pub get_bucket : Limits → Text → Time → Buckets → TokenBucket
get_bucket l ip now s = or_new l now (bucket_at ip s)

-- What the middleware decides on a request from an address, and the store after it.
unfoldable pub admit : Limits → Text → Time → Buckets → Bool × Buckets
admit l ip now s = let (ok, b) = allow l.one now (get_bucket l ip now s) in (ok, put_bucket ip b s)

abbrev pub idle_limit : ℕ
idle_limit = 10 * 60 * second

unfoldable pub is_idle : Time → TokenBucket → Bool
is_idle now b = ltb idle_limit (now - b.last_refill)

-- One round of the clean-up loop.
unfoldable pub cleanup : Time → Buckets → Buckets
cleanup now [] = []
cleanup now ((k, b) ∷ rest) =
    let kept = cleanup now rest in if is_idle now b then kept else (k, b) ∷ kept
