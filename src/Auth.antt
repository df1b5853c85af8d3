-- ===== src/Auth.antt =====
-- internal/adapter/postgres/auth_verifier.go: API keys, their hashes and the cache; and
-- internal/adapter/http/middleware/auth.go. SHA-256 in hexadecimal is a parameter, and the JSON of the
-- scopes is the list of texts that it writes. The column last_used_at, which nothing reads, is left out.
pub mod Revocation
pub mod Access
pub mod Refusal
pub mod Keys
mod Tests
use scoreplay_media_api.Prelude.{
  ℕ, zero, suc, ◌+◌, Bool, true, false, not, ◌&&◌, List, [], ◌∷◌, ◌++◌, Option, none, some, Text,
  codes, text_eq, has_prefix, is_empty, any, find, filter, ltb, leb, ◌==◌, if◌then◌else◌,
}
use scoreplay_media_api.Result.{
  Error, Result, ok, err, err_key_missing, err_key_invalid, err_key_expired, err_key_revoked,
  internal,
}
use scoreplay_media_api.Domain.{
  Uuid, Time, TenantStatus, active, suspended, Identity, admin_scope, legacy_tenant_id, Context,
  with_identity,
}
use scoreplay_media_api.Database.{TenantRow, KeyRow, Db, Env}
use scoreplay_media_api.Http.{HttpRequest, Response, header, Headers, Handler, write_auth_error}

pub record CachedIdentity : Type 0 where
  pub identity : Identity
  pub expires : Time

abbrev pub KeyCache : Type 0
KeyCache = List (Text × CachedIdentity)

unfoldable pub item : Text → KeyCache → Option CachedIdentity
item hash [] = none
item hash ((h, c) ∷ items) = if text_eq h hash then some c else item hash items

abbrev pub unexpired : Time → Option CachedIdentity → Option Identity
unexpired now none = none
unexpired now (some c) = if ltb now c.expires then some c.identity else none

-- A cache without a time to live is never read or written.
unfoldable pub cache_get : ℕ → Time → Text → KeyCache → Option Identity
cache_get zero now hash items = none
cache_get (suc ttl) now hash items = unexpired now (item hash items)

unfoldable pub cache_put : ℕ → Time → Text → Identity → KeyCache → KeyCache
cache_put zero now hash identity items = items
cache_put (suc ttl) now hash identity items =
    (hash, record { identity = identity; expires = now + suc ttl })
    ∷ filter (λ (p : Text × CachedIdentity). not (text_eq p.0 hash)) items

unfoldable pub cache_clear : KeyCache → KeyCache
cache_clear items = []

-- JOIN tenants t ON t.id = k.tenant_id WHERE k.key_hash = $1
unfoldable pub join_tenant : List TenantRow → KeyRow → Option (KeyRow × TenantStatus)
join_tenant tenants k = elim (find (λ (t : TenantRow). t.id == k.tenant_id) tenants) [
  | none ↦ none
  | some t ↦ some (k, t.status)
]

unfoldable pub select_key : Text → Env → Db → Result (Option (KeyRow × TenantStatus))
select_key hash env db =
    if env.fails 0
    then err internal
    else elim (find (λ (k : KeyRow). text_eq k.key_hash hash) db.api_keys) [
      | none ↦ ok none
      | some k ↦ ok (join_tenant db.tenants k)
    ]

abbrev pub is_over : Time → Option Time → Bool
is_over now none = false
is_over now (some t) = leb t now

abbrev pub identity_of : KeyRow → Identity
identity_of k = record {
  tenant_id = k.tenant_id;
  key_id = k.id;
  scopes = k.scopes;
  expires_at = k.expires_at;
}

-- What Verify makes of the row, in the order of its tests.
abbrev pub granted : Time → Result (Option (KeyRow × TenantStatus)) → Result Identity
granted now (err e) = err e
granted now (ok none) = err err_key_invalid
granted now (ok (some (k, suspended))) = err err_key_revoked
granted now (ok (some (k, active))) =
    if is_over now k.expires_at then err err_key_expired else ok (identity_of k)

abbrev pub remembered : ℕ → Time → Text → KeyCache → Result Identity → Result Identity × KeyCache
remembered ttl now hash items (err e) = (err e, items)
remembered ttl now hash items (ok i) = (ok i, cache_put ttl now hash i items)

module _ (hash_key : Text → Text) (ttl : ℕ) where
  -- The outcome, and the cache after it.
  unfoldable pub verify : Env → Time → Db → Text → KeyCache → Result Identity × KeyCache
  verify env now db raw items =
      if is_empty raw
      then (err err_key_missing, items)
      else elim (cache_get ttl now (hash_key raw) items) [
        | some i ↦ (ok i, items)
        | none ↦
            remembered ttl now (hash_key raw) items (granted now (select_key (hash_key raw) env db))
      ]

-- INSERT INTO tenants … ON CONFLICT (id) DO NOTHING
unfoldable pub ensure_tenant : Db → Db
ensure_tenant db =
    let row : TenantRow = record {
      id = legacy_tenant_id;
      name = codes "legacy";
      status = active;
    } in
    if any (λ (t : TenantRow). t.id == legacy_tenant_id) db.tenants
    then db
    else record db { tenants = row ∷ db.tenants }

-- INSERT INTO api_keys … ON CONFLICT (key_hash) DO NOTHING
unfoldable pub ensure_key : Uuid → Text → Db → Db
ensure_key id hash db =
    let row : KeyRow = record {
      id = id;
      tenant_id = legacy_tenant_id;
      key_hash = hash;
      name = codes "API_KEY env (legacy)";
      scopes = admin_scope ∷ [];
      expires_at = none;
    } in
    if any (λ (k : KeyRow). text_eq k.key_hash hash) db.api_keys
    then db
    else record db { api_keys = row ∷ db.api_keys }

-- Each statement is its own transaction.
unfoldable pub ensure_legacy_tenant : (Text → Text) → Env → Text → Db → Result (Unit {0}) × Db
ensure_legacy_tenant hash_key env raw db =
    if env.fails 0
    then (err internal, db)
    else if is_empty raw
    then (ok tt, ensure_tenant db)
    else if env.fails 1
    then (err internal, ensure_tenant db)
    else (ok tt, ensure_key (env.draw 1) (hash_key raw) (ensure_tenant db))

abbrev pub bearer : Text
bearer = codes "Bearer "

abbrev pub trim_prefix : Text → Text → Text
trim_prefix [] s = s
trim_prefix (p ∷ ps) [] = []
trim_prefix (p ∷ ps) (c ∷ s) = trim_prefix ps s

-- The header X-API-Key, and otherwise what follows "Bearer " in the header Authorization.
unfoldable pub extract_api_key : HttpRequest → Text
extract_api_key r =
    let key = header (codes "X-Api-Key") r.headers in
    let auth = header (codes "Authorization") r.headers in
    if not (is_empty key)
    then key
    else if has_prefix auth bearer
    then trim_prefix bearer auth
    else []

-- The reason label and the message.
unfoldable pub classify_auth_error : Error → Text × Text
classify_auth_error err_key_missing = (codes "missing", codes "missing API key")
classify_auth_error err_key_expired = (codes "expired", codes "credential expired")
classify_auth_error err_key_revoked = (codes "revoked", codes "credential revoked")
classify_auth_error _ = (codes "invalid", codes "invalid API key")

abbrev pub unauthorized : Text → Response
unauthorized message = write_auth_error 401 (codes "UNAUTHORIZED") message

abbrev pub as_identity : HttpRequest → Identity → HttpRequest
as_identity r i = record r { ctx = with_identity r.ctx i }

abbrev pub dev_identity : Uuid → Identity
dev_identity tenant = record {
  tenant_id = tenant;
  key_id = 0;
  scopes = admin_scope ∷ [];
  expires_at = none;
}

-- The verifier keeps a state of its own, here the handler's.
module _ {S : Type 0} (verifier : Text → S → Result Identity × S) (dev_tenant_id : Option Uuid)
    (next : Handler S) where
  abbrev pub without_key : HttpRequest → S → Option Uuid → Response × S
  without_key r s none = (unauthorized (codes "missing API key"), s)
  without_key r s (some tenant) = next (as_identity r (dev_identity tenant)) s

  abbrev pub verified : HttpRequest → Result Identity × S → Response × S
  verified r (err e, s) = (unauthorized (classify_auth_error e).1, s)
  verified r (ok i, s) = next (as_identity r i) s

  unfoldable pub api_key_auth : HttpRequest → S → Response × S
  api_key_auth r s =
      let provided = extract_api_key r in
      if is_empty provided then without_key r s dev_tenant_id else verified r (verifier provided s)
