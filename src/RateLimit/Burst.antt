-- ===== src/RateLimit/Burst.antt =====
-- internal/adapter/http/middleware/ratelimit.go: how many requests a bucket lets through.
use scoreplay_media_api.Prelude.{
  ℕ, ◌+◌, ◌-◌, ◌*◌, ◌≤◌, ◌≡◌, refl, inl, inr, Bool, true, false, List, [], ◌∷◌, ltb, arith,
  Bool-cases, if◌then◌else◌,
}
use mathlib.Core.Path.{subst, sym}
use scoreplay_media_api.Domain.{Time}
use scoreplay_media_api.RateLimit.{TokenBucket, capped, refill, spend, allow}

abbrev pub Ascending : Time → List Time → Type 0
Ascending from [] = Unit
Ascending from (t ∷ ts) = (from ≤ t) × Ascending t ts

abbrev pub last_time : Time → List Time → Time
last_time from [] = from
last_time from (t ∷ ts) = last_time t ts

-- The requests that a bucket lets through at the given times.
unfoldable pub admitted : ℕ → List Time → TokenBucket → ℕ
admitted one [] b = 0
admitted one (t ∷ ts) b =
    let (ok, c) = allow one t b in let n = admitted one ts c in if ok then n + 1 else n

last_time_later : (from : Time) (ts : List Time) → Ascending from ts → from ≤ last_time from ts
last_time_later from [] h = omega arith
last_time_later from (t ∷ ts) h = omega (arith, h.0, last_time_later t ts h.1)

split_gain : (a b c r : ℕ) → a ≤ b → b ≤ c → (b - a) * r + (c - b) * r ≡ (c - a) * r
split_gain a b c r h k = let e : c - a ≡ (b - a) + (c - b) = omega arith in rw e (omega arith)

-- The units that a decision takes.
abbrev pub cost : ℕ → Bool → ℕ
cost one true = one
cost one false = 0

-- A decision, and the bucket after it: what the bucket pays, and what it keeps.
record Paid (one : ℕ) (b : TokenBucket) (r : Bool × TokenBucket) : Type 0 where
  paid : cost one r.0 + r.1.tokens ≡ b.tokens
  last_refill : r.1.last_refill ≡ b.last_refill
  refill_rate : r.1.refill_rate ≡ b.refill_rate

spend-Paid : (one : ℕ) (b : TokenBucket) → Paid one b (spend one b)
spend-Paid one b = elim (Bool-cases (ltb b.tokens one)) [
  | inl e ↦ rw e (record { paid = omega arith; last_refill = refl; refill_rate = refl })
  | inr e ↦ rw e (record { paid = ground arith; last_refill = refl; refill_rate = refl })
]

capped_most : (most n : ℕ) → capped most n ≤ most
capped_most most n = ground arith

capped_less : (most n : ℕ) → capped most n ≤ n
capped_less most n = ground arith

module _ (one : ℕ) where
  admitted_step :
      (t : Time) (ts : List Time) (r : Bool × TokenBucket)
      → (if r.0 then admitted one ts r.1 + 1 else admitted one ts r.1) * one
        ≡ cost one r.0 + admitted one ts r.1 * one
  admitted_step t ts (true, c) = omega arith
  admitted_step t ts (false, c) = omega arith

  -- What is let through is paid for by what the bucket holds and gains.
  admitted_paid :
      (ts : List Time) (b : TokenBucket)
      → Ascending b.last_refill ts
      → admitted one ts b * one
        ≤ b.tokens + (last_time b.last_refill ts - b.last_refill) * b.refill_rate
  unfolding admitted allow refill
  admitted_paid [] b h = omega arith
  admitted_paid (t ∷ ts) b h =
      let p = spend-Paid one (refill t b) in
      let c : TokenBucket = (spend one (refill t b)).1 in
      let after : Ascending c.last_refill ts =
        subst (λ u. Ascending u ts) (sym p.last_refill) h.1 in
      let ih : admitted one ts c * one ≤ c.tokens + (last_time t ts - t) * b.refill_rate =
        rw (p.last_refill, p.refill_rate) at (admitted_paid ts c after) in
      let counts = admitted_step t ts (spend one (refill t b)) in
      let gain =
        split_gain b.last_refill t (last_time t ts) b.refill_rate h.0 (last_time_later t ts h.1) in
      let less = capped_less b.max_tokens (b.tokens + (t - b.last_refill) * b.refill_rate) in
      omega (arith, ih, counts, gain, less, p.paid)

-- Of the requests that find a bucket at ascending times, the first at `t`, which is not before the
-- bucket's last refill, at most as many are let through as the maximum of the bucket and what it gains
-- from `t` to the last one pay for.
pub admitted_bound :
    (one : ℕ) (t : Time) (ts : List Time) (b : TokenBucket)
    → b.last_refill ≤ t
    → Ascending t ts
    → admitted one (t ∷ ts) b * one ≤ b.max_tokens + (last_time t ts - t) * b.refill_rate
unfolding admitted allow refill
admitted_bound one t ts b h a =
    let full : TokenBucket = refill t b in
    let p = spend-Paid one full in
    let c : TokenBucket = (spend one full).1 in
    let after : Ascending c.last_refill ts = subst (λ u. Ascending u ts) (sym p.last_refill) a in
    let ih : admitted one ts c * one ≤ c.tokens + (last_time t ts - t) * b.refill_rate =
      rw (p.last_refill, p.refill_rate) at (admitted_paid one ts c after) in
    let counts = admitted_step one t ts (spend one full) in
    let most = capped_most b.max_tokens (b.tokens + (t - b.last_refill) * b.refill_rate) in
    omega (arith, ih, counts, most, p.paid)
