-- ===== src/Idempotency/Replay.antt =====
-- internal/adapter/http/middleware/idempotency.go: what a repeated request meets.
use scoreplay_media_api.Prelude.{
  ◌+◌, ◌<◌, ◌≡◌, refl, ◌∙◌, inl, inr, true, false, ◌&&◌, List, [], ◌∷◌, none, some, Text, text_eq,
  text_eq_refl, is_empty, any, find, ltb, arith, Bool-cases, ◌==◌,
}
use scoreplay_media_api.Result.{ok}
use scoreplay_media_api.Domain.{Uuid, Time, Context, tenant_id_from_context}
use scoreplay_media_api.Database.{IdempotencyRow, Db, Env, statement}
use scoreplay_media_api.Database.Steady.{steady, with_tenant_tx-steady}
use scoreplay_media_api.Http.{HttpRequest, Response, header, Handler}
use scoreplay_media_api.Idempotency.{
  keyed, is_live, cached, select_key, get, key_ttl, insert_key, set, idempotency_key_header, replay,
  is_success, pg_store, remember, idempotency,
}

get-steady :
    (env : Env) (ctx : Context) (tenant : Uuid) (key : Text) (db : Db)
    → tenant_id_from_context ctx ≡ ok tenant
    → get (steady env) ctx key db
      ≡ (ok (cached (find (is_live tenant key env.now) db.idempotency_keys)), db)
unfolding get select_key statement
get-steady env ctx tenant key db h =
    with_tenant_tx-steady (λ t. statement (select_key t key)) env ctx db tenant h

abbrev pub stored_row : Env → Uuid → Text → Response → IdempotencyRow
stored_row env tenant key w = record {
  tenant_id = tenant;
  key = key;
  status_code = w.status;
  response = w.body;
  created_at = env.now;
  expires_at = env.now + key_ttl;
}

-- The tables with a response added.
abbrev pub stored : Env → Uuid → Text → Response → Db → Db
stored env tenant key w db = record db {
  idempotency_keys = stored_row env tenant key w ∷ db.idempotency_keys;
}

module _ (env : Env) (ctx : Context) (tenant : Uuid) (key : Text) (w : Response) (db : Db)
    (h : tenant_id_from_context ctx ≡ ok tenant) where
  set_new :
      any (keyed tenant key) db.idempotency_keys ≡ false
      → set (steady env) ctx key w.status w.body db ≡ (ok tt, stored env tenant key w db)
  unfolding set insert_key statement
  set_new e =
      with_tenant_tx-steady (λ t. statement (insert_key t key w.status w.body)) env ctx db tenant h
      ∙ rw e refl

  set_taken :
      any (keyed tenant key) db.idempotency_keys ≡ true
      → set (steady env) ctx key w.status w.body db ≡ (ok tt, db)
  unfolding set insert_key statement
  set_taken e =
      with_tenant_tx-steady (λ t. statement (insert_key t key w.status w.body)) env ctx db tenant h
      ∙ rw e refl

none_live :
    (tenant : Uuid) (key : Text) (now : Time) (rows : List IdempotencyRow)
    → any (keyed tenant key) rows ≡ false
    → find (is_live tenant key now) rows ≡ none
unfolding any find
none_live tenant key now [] h = refl
none_live tenant key now (r ∷ rows) h =
    let one : is_live tenant key now r ≡ false = ground arith in
    rw one (none_live tenant key now rows (ground arith))

abbrev pub request_key : HttpRequest → Text
request_key r = header idempotency_key_header r.headers

module _ (next : Handler Db) (env env' : Env) (r : HttpRequest) (tenant : Uuid) (db : Db)
    (named : is_empty (request_key r) ≡ false) (h : tenant_id_from_context r.ctx ≡ ok tenant) where
  -- The key is not found: the handler runs.
  missed :
      find (is_live tenant (request_key r) env.now) db.idempotency_keys ≡ none
      → idempotency (pg_store (steady env) env') next r db
        ≡ remember (pg_store (steady env) env') r.ctx (request_key r) (next r db)
  unfolding idempotency
  missed e = rw (named, get-steady env r.ctx tenant (request_key r) db h, e) refl

  hit :
      (row : IdempotencyRow)
      → find (is_live tenant (request_key r) env.now) db.idempotency_keys ≡ some row
      → idempotency (pg_store (steady env) env') next r db
        ≡ (replay (row.status_code, row.response), db)
  unfolding idempotency
  hit row e = rw (named, get-steady env r.ctx tenant (request_key r) db h, e) refl

-- The request runs a handler with a result and tables, and the handler leaves the stored keys alone.
pub record Runs (next : Handler Db) (r : HttpRequest) (db : Db) (w : Response) (db' : Db)
    : Type 0 where
  pub result : next r db ≡ (w, db')
  pub keys : db'.idempotency_keys ≡ db.idempotency_keys

module _ (next : Handler Db) (env env' : Env) (r : HttpRequest) (tenant : Uuid) (db db' : Db)
    (w : Response) (named : is_empty (request_key r) ≡ false)
    (h : tenant_id_from_context r.ctx ≡ ok tenant) (run : Runs next r db w db') where
  -- A first success is stored.
  first_stored :
      any (keyed tenant (request_key r)) db.idempotency_keys ≡ false
      → is_success w.status ≡ true
      → idempotency (pg_store (steady env) (steady env')) next r db
        ≡ (w, stored env' tenant (request_key r) w db')
  unfolding remember
  first_stored fresh good =
      missed next env (steady env') r tenant db named h
        (none_live tenant (request_key r) env.now db.idempotency_keys fresh)
      ∙ rw (run.result, good, set_new env' r.ctx tenant (request_key r) w db' h (rw run.keys fresh))
          refl

  -- A key that expired and was not cleaned up is neither replayed nor replaced: the handler runs,
  -- and its response is not stored. The handler leaves the stored keys alone, and no statement of the
  -- store fails.
  pub expired_key_blocks :
      find (is_live tenant (request_key r) env.now) db.idempotency_keys ≡ none
      → any (keyed tenant (request_key r)) db.idempotency_keys ≡ true
      → idempotency (pg_store (steady env) (steady env')) next r db ≡ (w, db')
  unfolding remember
  expired_key_blocks dead there =
      missed next env (steady env') r tenant db named h dead ∙ rw run.result settled
    where
      settled :
          remember (pg_store (steady env) (steady env')) r.ctx (request_key r) (w, db') ≡ (w, db')
      settled = elim (Bool-cases (is_success w.status)) [
        | inl e ↦
            rw (e, set_taken env' r.ctx tenant (request_key r) w db' h (rw run.keys there)) refl
        | inr e ↦ rw e refl
      ]

  -- Of a request whose key is not found, a response that is no success is passed on and never stored.
  -- The look-up does not fail.
  pub error_not_stored :
      find (is_live tenant (request_key r) env.now) db.idempotency_keys ≡ none
      → is_success w.status ≡ false
      → idempotency (pg_store (steady env) env') next r db ≡ (w, db')
  unfolding remember
  error_not_stored dead bad =
      missed next env env' r tenant db named h dead ∙ rw (run.result, bad) refl

stored_live :
    (env : Env) (now : Time) (tenant : Uuid) (key : Text) (w : Response) (db : Db)
    → now < env.now + key_ttl
    → (row : IdempotencyRow) × (find
          (is_live tenant key now)
          (stored env tenant key w db).idempotency_keys
        ≡ some row)
      × (row.status_code ≡ w.status)
      × (row.response ≡ w.body)
unfolding find
stored_live env now tenant key w db h =
    let live : ((tenant == tenant) && text_eq key key && ltb now (env.now + key_ttl)) ≡ true =
      ground (arith, text_eq_refl key) in
    (stored_row env tenant key w, rw live refl, refl, refl)

-- A request with an idempotency key that is not stored runs its handler; if the response is a success
-- and the handler leaves the stored keys alone, then a second request of the tenant with that key,
-- less than 24 hours after the response was stored, gets the same status and body, is marked as
-- replayed, and changes no table: its handler is not run. No statement of the store fails.
pub idempotency_replays :
    (next next' : Handler Db) (env env' env_2 env_2' : Env) (r r_2 : HttpRequest) (tenant : Uuid)
    (db db' : Db) (w : Response)
    → is_empty (request_key r) ≡ false
    → request_key r_2 ≡ request_key r
    → tenant_id_from_context r.ctx ≡ ok tenant
    → tenant_id_from_context r_2.ctx ≡ ok tenant
    → Runs next r db w db'
    → any (keyed tenant (request_key r)) db.idempotency_keys ≡ false
    → is_success w.status ≡ true
    → env_2.now < env'.now + key_ttl
    → let (w', stored_db) = idempotency (pg_store (steady env) (steady env')) next r db in
      (w' ≡ w)
      × (idempotency (pg_store (steady env_2) env_2') next' r_2 stored_db
          ≡ (replay (w.status, w.body), stored_db))
idempotency_replays next next' env env' env_2 env_2' r r_2 tenant db db' w named same h h_2 run
      fresh good early =
    let first = first_stored next env env' r tenant db db' w named h run fresh good in
    let (row, found, status, body) =
      stored_live env' env_2.now tenant (request_key r) w db' early in
    rw first (
      refl,
      hit next' env_2 env_2' r_2 tenant (stored env' tenant (request_key r) w db') (rw same named)
            h_2 row (rw same found)
          ∙ rw (status, body) refl,
    )
