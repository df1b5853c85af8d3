-- ===== src/Auth/Keys.antt =====
-- internal/adapter/postgres/auth_verifier.go: CreateTenant and CreateAPIKey, and that a key that was made is
-- verified. The constraints of the two tables are those of migration 005.
use scoreplay_media_api.Prelude.{
  ◌≡◌, refl, ap, inl, inr, Bool, false, not, ◌||◌, List, [], ◌∷◌, ◌++◌, none, some, Text, codes,
  text_eq, text_eq_refl, is_empty, any, find, Bool-cases, ◌==◌, if◌then◌else◌, ℕ, zero, suc,
}
use scoreplay_media_api.Result.{Result, ok, err, internal}
use scoreplay_media_api.Domain.{Uuid, Time, active}
use scoreplay_media_api.Database.{TenantRow, KeyRow, Db, Env}
use scoreplay_media_api.Database.Steady.{steady}
use scoreplay_media_api.Auth.{
  join_tenant, select_key, granted, identity_of, remembered, cache_get, item, verify,
}

abbrev pub is_tenant : Uuid → TenantRow → Bool
is_tenant id t = t.id == id

-- INSERT INTO tenants (name) VALUES ($1) RETURNING id
unfoldable pub create_tenant : Env → Text → Db → Result Uuid × Db
create_tenant env name db =
    let row : TenantRow = record { id = env.draw 0; name = name; status = active } in
    if env.fails 0 || any (is_tenant (env.draw 0)) db.tenants
    then (err internal, db)
    else (ok (env.draw 0), record db { tenants = row ∷ db.tenants })

abbrev pub has_hash : Text → KeyRow → Bool
has_hash hash k = text_eq k.key_hash hash

-- The constraints that a new row has to meet: the tenant is there, and the id and the hash are new.
abbrev pub is_refused : Uuid → Text → Uuid → Db → Bool
is_refused tenant hash id db =
    not (any (is_tenant tenant) db.tenants)
    || any (λ (k : KeyRow). k.id == id) db.api_keys
    || any (has_hash hash) db.api_keys

-- Two UUIDs with a dash between them.
unfoldable pub raw_key : Text → Text → Text
raw_key a b = a ++ codes "-" ++ b

abbrev pub key_row : Uuid → Uuid → Text → Text → List Text → KeyRow
key_row id tenant hash name scopes = record {
  id = id;
  tenant_id = tenant;
  key_hash = hash;
  name = name;
  scopes = scopes;
  expires_at = none;
}

module _ (hash_key : Text → Text) where
  -- INSERT INTO api_keys … RETURNING id; the key itself is returned once, and only its hash stored.
  unfoldable pub create_api_key :
      Env → Text → Text → Uuid → Text → List Text → Db → Result (Uuid × Text × Text) × Db
  create_api_key env a b tenant name scopes db =
      let raw = raw_key a b in
      let hash = hash_key raw in
      let id = env.draw 0 in
      if env.fails 0 || is_refused tenant hash id db then (err internal, db) else (
        ok (id, raw, hash),
        record db { api_keys = key_row id tenant hash name scopes ∷ db.api_keys },
      )

  abbrev pub issued : Env → Uuid → Text → Text → List Text → Db → Db
  issued env tenant raw name scopes db = record db {
    api_keys = key_row (env.draw 0) tenant (hash_key raw) name scopes ∷ db.api_keys;
  }

  module _ (env : Env) (a b : Text) (tenant : Uuid) (name : Text) (scopes : List Text)
      (db : Db) where
    created_row :
        (raw hash : Text) (id : Uuid) (db' : Db)
        → create_api_key env a b tenant name scopes db ≡ (ok (id, raw, hash), db')
        → (raw ≡ raw_key a b)
          × (id ≡ env.draw 0)
          × (db' ≡ issued env tenant (raw_key a b) name scopes db)
    unfolding create_api_key
    created_row raw hash id db' e =
        elim (Bool-cases
          (env.fails 0 || is_refused tenant (hash_key (raw_key a b)) (env.draw 0) db)) [
            | inl f ↦ absurd (
                refused (
                  ap (λ (r : Result (Uuid × Text × Text) × Db). r.0) (rw (f, create_api_key) at e)))
            | inr f ↦ parts (rw (f, create_api_key) at e)
          ]
      where
        refused : ◌≡◌ {A = Result (Uuid × Text × Text)} (err internal) (ok (id, raw, hash)) → ⊥
        refused q = cc

        parts :
            ◌≡◌ {A = Result (Uuid × Text × Text) × Db}
              (
                ok (env.draw 0, raw_key a b, hash_key (raw_key a b)),
                issued env tenant (raw_key a b) name scopes db,
              )
              (ok (id, raw, hash), db')
            → (raw ≡ raw_key a b)
              × (id ≡ env.draw 0)
              × (db' ≡ issued env tenant (raw_key a b) name scopes db)
        parts q = (cc, cc, cc)

  raw_key-visible : (a b : Text) → is_empty (raw_key a b) ≡ false
  unfolding raw_key
  raw_key-visible [] b = refl
  raw_key-visible (c ∷ a) b = refl

  module _ (env : Env) (tenant : Uuid) (raw name : Text) (scopes : List Text) (db : Db)
      (t : TenantRow) (there : find (is_tenant tenant) db.tenants ≡ some t)
      (alive : t.status ≡ active) where
    issued_granted :
        (env' : Env) (now : Time)
        → granted now
            (select_key (hash_key raw) (steady env') (issued env tenant raw name scopes db))
          ≡ ok (identity_of (key_row (env.draw 0) tenant (hash_key raw) name scopes))
    unfolding select_key join_tenant find
    issued_granted env' now =
        rw (text_eq_refl (hash_key raw)) (rw (there, join_tenant) (rw alive refl))

  fresh_miss : (ttl : ℕ) (now : Time) (hash : Text) → cache_get ttl now hash [] ≡ none
  unfolding cache_get item
  fresh_miss zero now hash = refl
  fresh_miss (suc ttl) now hash = refl

  issued_verified :
      (env env' : Env) (tenant : Uuid) (raw name : Text) (scopes : List Text) (db : Db)
      (t : TenantRow) (ttl : ℕ) (now : Time)
      → find (is_tenant tenant) db.tenants ≡ some t
      → t.status ≡ active
      → is_empty raw ≡ false
      → (verify hash_key ttl (steady env') now (issued env tenant raw name scopes db) raw []).0
        ≡ ok (identity_of (key_row (env.draw 0) tenant (hash_key raw) name scopes))
  unfolding verify
  issued_verified env env' tenant raw name scopes db t ttl now there alive visible =
      rw (visible, fresh_miss ttl now (hash_key raw))
        (ap (λ g. (remembered ttl now (hash_key raw) [] g).0)
          (issued_granted env tenant raw name scopes db t there alive env' now))

  -- The key that CreateAPIKey returns for an active tenant verifies, with an empty cache and if the
  -- look-up does not fail, as the identity of that tenant with the scopes that were asked for, at any
  -- time.
  pub verify-create_api_key :
      (env env' : Env) (a b : Text) (tenant : Uuid) (name : Text) (scopes : List Text) (db db' : Db)
      (id : Uuid) (raw hash : Text) (t : TenantRow) (ttl : ℕ) (now : Time)
      → find (is_tenant tenant) db.tenants ≡ some t
      → t.status ≡ active
      → create_api_key env a b tenant name scopes db ≡ (ok (id, raw, hash), db')
      → (verify hash_key ttl (steady env') now db' raw []).0
        ≡ ok (record { tenant_id = tenant; key_id = id; scopes = scopes; expires_at = none })
  verify-create_api_key env env' a b tenant name scopes db db' id raw hash t ttl now there alive e =
      let (r, i, d) = created_row env a b tenant name scopes db raw hash id db' e in
      rw (r, i, d)
        (issued_verified env env' tenant (raw_key a b) name scopes db t ttl now there alive
          (raw_key-visible a b))
