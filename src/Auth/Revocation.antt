-- ===== src/Auth/Revocation.antt =====
-- internal/adapter/postgres/auth_verifier.go: how long the cache can outlive a key.
use scoreplay_media_api.Prelude.{
  ℕ, zero, suc, ◌+◌, ◌≤◌, ◌≡◌, ◌≢◌, refl, sym, ◌∙◌, inl, inr, true, false, not, List, [], ◌∷◌,
  Option, none, some, Text, text_eq, text_eq→eq, eq→text_eq, is_empty, filter, All, ltb, arith,
  Bool-cases, Option-cases,
}
use mathlib.Core.Path.{subst}
use scoreplay_media_api.Result.{Result, ok, err, is_ok}
use scoreplay_media_api.Domain.{Time, Identity}
use scoreplay_media_api.Database.{Db, Env}
use scoreplay_media_api.Auth.{
  CachedIdentity, KeyCache, item, unexpired, cache_get, cache_put, select_key, granted, remembered,
  verify,
}

pub record Attempt : Type 0 where
  pub env : Env
  pub now : Time
  pub db : Db
  pub raw : Text

-- The key is unknown, its tenant is suspended, or it expired, whenever it is looked up.
abbrev pub IsDenied : Text → Db → Type 0
IsDenied hash db = (env : Env) (now : Time) → is_ok (granted now (select_key hash env db)) ≡ false

-- No cached identity of the key lives longer.
pub record IsBounded (limit : Time) (hash : Text) (items : KeyCache) : Type 0 where
  pub at : (c : CachedIdentity) → item hash items ≡ some c → c.expires ≤ limit

no_item : (c : CachedIdentity) → ◌≡◌ {A = Option CachedIdentity} none (some c) → ⊥
no_item c h = cc

item_other :
    (hash other : Text) (items : KeyCache)
    → hash ≢ other
    → item hash (filter (λ (p : Text × CachedIdentity). not (text_eq p.0 other)) items)
      ≡ item hash items
unfolding item filter
item_other hash other [] ne = refl
item_other hash other ((h, c) ∷ items) ne = elim (Bool-cases (text_eq h other)) [
  | inl e ↦ elim (Bool-cases (text_eq h hash)) [
    | inl f ↦ absurd (ne (sym (text_eq→eq h hash f) ∙ text_eq→eq h other e))
    | inr f ↦ rw (e, f) (item_other hash other items ne)
  ]
  | inr e ↦ elim (Bool-cases (text_eq h hash)) [
    | inl f ↦ rw (e, item, f) refl
    | inr f ↦ rw (e, item, f) (item_other hash other items ne)
  ]
]

head_expires :
    (limit : Time) (c d : CachedIdentity)
    → ◌≡◌ {A = Option CachedIdentity} (some d) (some c)
    → d.expires ≤ limit
    → c.expires ≤ limit
head_expires limit c d e h = let same : d ≡ c = cc in subst (λ x. x.expires ≤ limit) same h

module _ (now limit : Time) (i : Identity) (items : KeyCache) where
  -- A put of this key within the limit, or of another key.
  cache_put-IsBounded :
      (ttl : ℕ) (hash other : Text)
      → (hash ≡ other → now + ttl ≤ limit)
      → IsBounded limit hash items
      → IsBounded limit hash (cache_put ttl now other i items)
  unfolding cache_put item
  cache_put-IsBounded zero hash other early b = b
  cache_put-IsBounded (suc ttl) hash other early b = elim (Bool-cases (text_eq other hash)) [
    | inl e ↦ record {
      at = λ c h. head_expires limit c _ (rw e at h) (early (sym (text_eq→eq other hash e)));
    }
    | inr e ↦ record {
      at = λ c h. b.at c (sym (item_other hash other items (λ q. differ q e)) ∙ (rw e at h));
    }
  ]
    where
      differ : hash ≡ other → text_eq other hash ≡ false → ⊥
      differ q e = ground (arith, eq→text_eq other hash (sym q))

module _ (hash_key : Text → Text) (ttl : ℕ) (a : Attempt) (limit : Time) (hash : Text)
    (items : KeyCache) where
  remembered-IsBounded :
      (r : Result Identity)
      → (hash ≡ hash_key a.raw → is_ok r ≡ true → a.now + ttl ≤ limit)
      → IsBounded limit hash items
      → IsBounded limit hash (remembered ttl a.now (hash_key a.raw) items r).1
  remembered-IsBounded (err e) k b = b
  remembered-IsBounded (ok i) k b =
      cache_put-IsBounded a.now limit i items ttl hash (hash_key a.raw) (λ q. k q refl) b

  verify-IsBounded :
      (hash ≡ hash_key a.raw
        → is_ok (granted a.now (select_key (hash_key a.raw) a.env a.db)) ≡ true
        → a.now + ttl ≤ limit)
      → IsBounded limit hash items
      → IsBounded limit hash (verify hash_key ttl a.env a.now a.db a.raw items).1
  unfolding verify
  verify-IsBounded k b = elim (Bool-cases (is_empty a.raw)) [
    | inl e ↦ rw e b
    | inr e ↦ elim (Option-cases (cache_get ttl a.now (hash_key a.raw) items)) [
      | inl f ↦ rw (e, f) (remembered-IsBounded _ k b)
      | inr (i, f) ↦ rw (e, f) b
    ]
  ]

module _ (hash_key : Text → Text) (ttl : ℕ) where
  -- The cache after a sequence of requests.
  unfoldable pub after : List Attempt → KeyCache → KeyCache
  after [] items = items
  after (a ∷ rest) items = after rest (verify hash_key ttl a.env a.now a.db a.raw items).1

  after_early :
      (t : Time) (hash : Text) (rest : List Attempt) (items : KeyCache)
      → All (λ a. a.now ≤ t) rest
      → IsBounded (t + ttl) hash items
      → IsBounded (t + ttl) hash (after rest items)
  unfolding after
  after_early t hash [] items h b = b
  after_early t hash (a ∷ rest) items h b =
      after_early t hash rest _ h.1
        (verify-IsBounded hash_key ttl a (t + ttl) hash items (λ q k. omega (arith, h.0)) b)

  after_denied :
      (limit : Time) (hash : Text) (rest : List Attempt) (items : KeyCache)
      → All (λ a. IsDenied hash a.db) rest
      → IsBounded limit hash items
      → IsBounded limit hash (after rest items)
  unfolding after
  after_denied limit hash [] items h b = b
  after_denied limit hash (a ∷ rest) items h b =
      after_denied limit hash rest _ h.1
        (verify-IsBounded hash_key ttl a limit hash items (λ q k. absurd (denied q k)) b)
    where
      denied :
          hash ≡ hash_key a.raw
          → is_ok (granted a.now (select_key (hash_key a.raw) a.env a.db)) ≡ true
          → ⊥
      denied q k = let n = rw q at (h.0 a.env a.now) in ground (arith, n, k)

cache_get_old :
    (ttl : ℕ) (limit now : Time) (hash : Text) (items : KeyCache)
    → IsBounded limit hash items
    → limit ≤ now
    → cache_get ttl now hash items ≡ none
unfolding cache_get
cache_get_old zero limit now hash items b h = refl
cache_get_old (suc ttl) limit now hash items b h = old (item hash items) refl
  where
    old : (o : Option CachedIdentity) → item hash items ≡ o → unexpired now o ≡ none
    old none e = refl
    old (some c) e =
        let k = b.at c e in let past : ltb now c.expires ≡ false = ground arith in rw past refl

remembered-is_ok :
    (ttl : ℕ) (now : Time) (hash : Text) (items : KeyCache) (r : Result Identity)
    → is_ok (remembered ttl now hash items r).0 ≡ is_ok r
remembered-is_ok ttl now hash items (ok i) = refl
remembered-is_ok ttl now hash items (err e) = refl

-- From an empty cache: whatever is verified up to a time `t`, and whatever is verified later against
-- tables that deny a key, the key is refused from `t` and the cache's time to live on, whoever uses it.
pub revocation_bound :
    (hash_key : Text → Text) (ttl : ℕ) (t : Time) (raw : Text) (before later : List Attempt)
    (env : Env) (now : Time) (db : Db)
    → All (λ a. a.now ≤ t) before
    → All (λ a. IsDenied (hash_key raw) a.db) later
    → IsDenied (hash_key raw) db
    → t + ttl ≤ now
    → is_ok
        (verify hash_key ttl env now db raw
          (after hash_key ttl later (after hash_key ttl before []))).0
      ≡ false
unfolding verify item
revocation_bound hash_key ttl t raw before later env now db early denied denied_now h =
    let hash = hash_key raw in
    let start : IsBounded (t + ttl) hash [] = record { at = λ c e. absurd (no_item c e) } in
    let items = after hash_key ttl later (after hash_key ttl before []) in
    let bound =
      after_denied hash_key ttl (t + ttl) hash later _ denied
        (after_early hash_key ttl t hash before [] early start) in
    elim (Bool-cases (is_empty raw)) [
      | inl e ↦ rw e refl
      | inr e ↦
          rw (e, cache_get_old ttl (t + ttl) now hash items bound h)
            (remembered-is_ok ttl now hash items (granted now (select_key hash env db))
              ∙ denied_now env now)
    ]
