-- ===== src/RateLimit/Idle.antt =====
-- internal/adapter/http/middleware/ratelimit.go: what the clean-up loop removes, and what a client gets.
use scoreplay_media_api.Prelude.{
  ℕ, ◌+◌, ◌-◌, ◌*◌, ◌≤◌, ◌<◌, ◌≡◌, ◌≢◌, refl, sym, ap, ◌∙◌, inl, inr, true, false, [], ◌∷◌, map,
  All, In, Distinct, Option, none, some, Text, text_eq, text_eq→eq, text_eq_refl, arith, Bool-cases,
  if◌then◌else◌,
}
use mathlib.Core.Path.{subst}
use scoreplay_media_api.Domain.{Time}
use scoreplay_media_api.RateLimit.{
  TokenBucket, Limits, Buckets, new_token_bucket, or_new, capped, refill, spend, allow, bucket_at,
  put_bucket, get_bucket, admit, idle_limit, is_idle, cleanup,
}

-- A bucket of the middleware's limits.
pub record IsBucket (l : Limits) (b : TokenBucket) : Type 0 where
  pub max_tokens : b.max_tokens ≡ l.burst * l.one
  pub refill_rate : b.refill_rate ≡ l.rps

-- After more than ten idle minutes a bucket is full again, if the burst refills within them.
idle_full :
    (l : Limits) (now : Time) (tokens last : ℕ)
    → l.burst * l.one ≤ idle_limit * l.rps
    → idle_limit < now - last
    → capped (l.burst * l.one) (tokens + (now - last) * l.rps) ≡ l.burst * l.one
idle_full l now tokens last h k =
    let d = now - last - idle_limit in
    let e : now - last ≡ idle_limit + d = omega arith in
    let g : (idle_limit + d) * l.rps ≡ idle_limit * l.rps + d * l.rps = omega arith in
    let enough : l.burst * l.one ≤ tokens + (now - last) * l.rps = rw e (omega (arith, g)) in
    ground (arith, enough)

refill_idle :
    (l : Limits) (now t : Time) (b : TokenBucket)
    → IsBucket l b
    → l.burst * l.one ≤ idle_limit * l.rps
    → is_idle now b ≡ true
    → now ≤ t
    → refill t b ≡ refill t (new_token_bucket l t)
unfolding refill is_idle new_token_bucket
refill_idle l now t b h full idle later =
    let more : idle_limit < t - b.last_refill = ground arith in
    rw (h.max_tokens, h.refill_rate, idle_full l t b.tokens b.last_refill full more, fresh) refl
  where
    fresh : capped (l.burst * l.one) (l.burst * l.one + (t - t) * l.rps) ≡ l.burst * l.one
    fresh = let z : t - t ≡ 0 = omega arith in rw z (ground arith)

text_ne : (s t : Text) → s ≢ t → text_eq s t ≡ false
text_ne s t ne = elim (Bool-cases (text_eq s t)) [
  | inl e ↦ absurd (ne (text_eq→eq s t e))
  | inr e ↦ e
]

abbrev pub address : Text × TokenBucket → Text
address (k, b) = k

abbrev pub unless_idle : Time → Option TokenBucket → Option TokenBucket
unless_idle now none = none
unless_idle now (some b) = if is_idle now b then none else some b

bucket_at-none : (ip : Text) (s : Buckets) → ¬ In ip (map address s) → bucket_at ip s ≡ none
unfolding bucket_at
bucket_at-none ip [] h = refl
bucket_at-none ip ((k, b) ∷ s) h = elim (Bool-cases (text_eq k ip)) [
  | inl e ↦ absurd (h (inl (sym (text_eq→eq k ip e))))
  | inr e ↦ rw e (bucket_at-none ip s (λ m. h (inr m)))
]

-- The clean-up removes the idle buckets and no other.
bucket_at-cleanup :
    (now : Time) (ip : Text) (s : Buckets)
    → Distinct (map address s)
    → bucket_at ip (cleanup now s) ≡ unless_idle now (bucket_at ip s)
unfolding bucket_at cleanup
bucket_at-cleanup now ip [] d = refl
bucket_at-cleanup now ip ((k, b) ∷ s) d = elim (Bool-cases (text_eq k ip)) [
  | inl e ↦ elim (Bool-cases (is_idle now b)) [
    | inl f ↦ rw (e, f) (bucket_at-cleanup now ip s d.1 ∙ rw (bucket_at-none ip s (gone e)) refl)
    | inr f ↦ rw (e, f, bucket_at) (rw e refl)
  ]
  | inr e ↦ elim (Bool-cases (is_idle now b)) [
    | inl f ↦ rw (e, f) (bucket_at-cleanup now ip s d.1)
    | inr f ↦ rw (e, f, bucket_at) (rw e (bucket_at-cleanup now ip s d.1))
  ]
]
  where
    gone : text_eq k ip ≡ true → ¬ In ip (map address s)
    gone e m = d.0 (subst (λ x. In x (map address s)) (sym (text_eq→eq k ip e)) m)

abbrev IsLimited : Limits → Option TokenBucket → Type 0
IsLimited l none = Unit
IsLimited l (some b) = IsBucket l b

bucket_at-IsLimited :
    (l : Limits) (ip : Text) (s : Buckets)
    → All (λ p. IsBucket l p.1) s
    → IsLimited l (bucket_at ip s)
unfolding bucket_at
bucket_at-IsLimited l ip [] h = tt
bucket_at-IsLimited l ip ((k, b) ∷ s) h = elim (Bool-cases (text_eq k ip)) [
  | inl e ↦ rw e h.0
  | inr e ↦ rw e (bucket_at-IsLimited l ip s h.1)
]

unless_idle-allow :
    (l : Limits) (now t : Time) (o : Option TokenBucket)
    → l.burst * l.one ≤ idle_limit * l.rps
    → now ≤ t
    → IsLimited l o
    → allow l.one t (or_new l t (unless_idle now o)) ≡ allow l.one t (or_new l t o)
unfolding allow
unless_idle-allow l now t none full later h = refl
unless_idle-allow l now t (some b) full later h = elim (Bool-cases (is_idle now b)) [
  | inl f ↦ rw f (ap (spend l.one) (sym (refill_idle l now t b h full f later)))
  | inr f ↦ rw f refl
]

-- The clean-up changes no decision: a request after it, from any address, meets the same answer and
-- leaves the same bucket as it would without it. The burst is refilled within the ten minutes after
-- which a bucket is removed, every bucket has the limits of the middleware, and no address stands twice.
pub cleanup_invisible :
    (l : Limits) (now t : Time) (ip : Text) (s : Buckets)
    → l.burst * l.one ≤ idle_limit * l.rps
    → now ≤ t
    → Distinct (map address s)
    → All (λ p. IsBucket l p.1) s
    → allow l.one t (get_bucket l ip t (cleanup now s)) ≡ allow l.one t (get_bucket l ip t s)
unfolding get_bucket
cleanup_invisible l now t ip s full later d h =
    ap (λ o. allow l.one t (or_new l t o)) (bucket_at-cleanup now ip s d)
    ∙ unless_idle-allow l now t (bucket_at ip s) full later (bucket_at-IsLimited l ip s h)

put_bucket_other :
    (ip other : Text) (b : TokenBucket) (s : Buckets)
    → ip ≢ other
    → bucket_at ip (put_bucket other b s) ≡ bucket_at ip s
unfolding bucket_at put_bucket
put_bucket_other ip other b [] ne = rw (text_ne other ip (λ e. ne (sym e))) refl
put_bucket_other ip other b ((k, c) ∷ s) ne = elim (Bool-cases (text_eq k other)) [
  | inl e ↦ rw (e, bucket_at, text_ne k ip (λ q. ne (sym q ∙ text_eq→eq k other e))) refl
  | inr e ↦ elim (Bool-cases (text_eq k ip)) [
    | inl f ↦ rw (e, bucket_at, f) refl
    | inr f ↦ rw (e, bucket_at, f) (put_bucket_other ip other b s ne)
  ]
]

put_bucket_self :
    (ip : Text) (b : TokenBucket) (s : Buckets) → bucket_at ip (put_bucket ip b s) ≡ some b
unfolding bucket_at put_bucket
put_bucket_self ip b [] = rw (text_eq_refl ip) refl
put_bucket_self ip b ((k, c) ∷ s) = elim (Bool-cases (text_eq k ip)) [
  | inl e ↦ rw (e, bucket_at, e) refl
  | inr e ↦ rw (e, bucket_at, e) (put_bucket_self ip b s)
]

-- A request is charged to the bucket of its own address, which is put back after the decision, and
-- every other address keeps its bucket.
pub admit_charges :
    (l : Limits) (ip other : Text) (now : Time) (s : Buckets)
    → ip ≢ other
    → (bucket_at ip (admit l other now s).1 ≡ bucket_at ip s)
      × (bucket_at other (admit l other now s).1
          ≡ some (allow l.one now (get_bucket l other now s)).1)
unfolding admit
admit_charges l ip other now s ne = (put_bucket_other ip other _ s ne, put_bucket_self other _ s)
