-- ===== src/Idempotency.antt =====
-- internal/adapter/postgres/idempotency_store.go: the statements and methods of the store; and
-- internal/adapter/http/middleware/idempotency.go: the middleware, over handlers that keep the tables.
pub mod Effects
pub mod Replay
mod Tests
use scoreplay_media_api.Prelude.{
  ℕ, ◌+◌, ◌*◌, Bool, true, false, not, ◌&&◌, List, [], ◌∷◌, ◌++◌, Option, none, some, Text, codes,
  text_eq, is_empty, any, find, filter, ltb, leb, ◌==◌, if◌then◌else◌,
}
use scoreplay_media_api.Result.{Error, Result, ok, err}
use scoreplay_media_api.Domain.{Uuid, Time, second, Context}
use scoreplay_media_api.Database.{
  IdempotencyRow, Db, Env, Tx, pure, statement, ◌>>=◌, with_tenant_tx, with_system_tx,
}
use scoreplay_media_api.Http.{HttpRequest, Response, header, Handler, content_type}

abbrev pub keyed : Uuid → Text → IdempotencyRow → Bool
keyed tenant key r = r.tenant_id == tenant && text_eq r.key key

-- WHERE tenant_id = $1 AND key = $2 AND expires_at > now()
abbrev pub is_live : Uuid → Text → Time → IdempotencyRow → Bool
is_live tenant key now r = keyed tenant key r && ltb now r.expires_at

abbrev pub cached : Option IdempotencyRow → Option (ℕ × Text)
cached none = none
cached (some r) = some (r.status_code, r.response)

unfoldable pub select_key : Uuid → Text → Env → Uuid → Db → Result (Option (ℕ × Text)) × Db
select_key tenant key env id db =
    (ok (cached (find (is_live tenant key env.now) db.idempotency_keys)), db)

-- The stored status and body, if the key is found.
unfoldable pub get : Env → Context → Text → Db → Result (Option (ℕ × Text)) × Db
get env ctx key db = with_tenant_tx (λ tenant. statement (select_key tenant key)) env ctx db

-- The TTL of migration 002.
abbrev pub key_ttl : ℕ
key_ttl = 24 * 3_600 * second

-- INSERT … ON CONFLICT (tenant_id, key) DO NOTHING
unfoldable pub insert_key : Uuid → Text → ℕ → Text → Env → Uuid → Db → Result (Unit {0}) × Db
insert_key tenant key status body env id db =
    let row : IdempotencyRow = record {
      tenant_id = tenant;
      key = key;
      status_code = status;
      response = body;
      created_at = env.now;
      expires_at = env.now + key_ttl;
    } in
    if any (keyed tenant key) db.idempotency_keys
    then (ok tt, db)
    else (ok tt, record db { idempotency_keys = row ∷ db.idempotency_keys })

unfoldable pub set : Env → Context → Text → ℕ → Text → Db → Result (Unit {0}) × Db
set env ctx key status body db =
    with_tenant_tx (λ tenant. statement (insert_key tenant key status body)) env ctx db

unfoldable pub delete_expired : Env → Uuid → Db → Result (Unit {0}) × Db
delete_expired env id db = (
  ok tt,
  record db { idempotency_keys = filter (λ r. not (leb r.expires_at env.now)) db.idempotency_keys },
)

unfoldable pub cleanup : Env → Db → Result (Unit {0}) × Db
cleanup env db = with_system_tx (statement delete_expired) env db

abbrev pub idempotency_key_header : Text
idempotency_key_header = codes "Idempotency-Key"

abbrev pub replay : ℕ × Text → Response
replay (status, body) = record {
  status = status;
  headers = content_type ∷ (codes "Idempotency-Replayed", codes "true") ∷ [];
  body = body;
}

abbrev pub is_success : ℕ → Bool
is_success status = leb 200 status && ltb status 300

-- internal/port/repository.go: IdempotencyStore, over any state.
pub record IdempotencyStore (S : Type 0) : Type 0 where
  pub look_up : Context → Text → S → Result (Option (ℕ × Text)) × S
  pub insert : Context → Text → ℕ → Text → S → Result (Unit {0}) × S

-- The store over the tables; the environments are those of the look-up and of the insertion.
abbrev pub pg_store : Env → Env → IdempotencyStore Db
pg_store env env' = record {
  look_up = λ ctx key db. get env ctx key db;
  insert = λ ctx key status body db. set env' ctx key status body db;
}

module _ {S : Type 0} (store : IdempotencyStore S) where
  -- What is captured of a success is stored; an error of the store is dropped.
  unfoldable pub remember : Context → Text → Response × S → Response × S
  remember ctx key (w, s) =
      if is_success w.status then (w, (store.insert ctx key w.status w.body s).1) else (w, s)

  module _ (next : Handler S) (r : HttpRequest) (key : Text) where
    abbrev pub answer : Result (Option (ℕ × Text)) × S → Response × S
    answer (err e, s) = next r s
    answer (ok (some found), s) = (replay found, s)
    answer (ok none, s) = remember r.ctx key (next r s)

  unfoldable pub idempotency : Handler S → Handler S
  idempotency next r s =
      let key = header idempotency_key_header r.headers in
      if is_empty key then next r s else answer next r key (store.look_up r.ctx key s)
