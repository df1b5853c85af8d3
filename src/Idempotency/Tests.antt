-- ===== src/Idempotency/Tests.antt =====
-- Runs of the idempotency middleware.
use scoreplay_media_api.Prelude.{
  ◌≡◌, refl, [], ◌∷◌, true, false, none, codes, text_eq, is_empty, any, find, arith,
}
use scoreplay_media_api.Database.{Db, empty_db}
use scoreplay_media_api.Database.Steady.{steady}
use scoreplay_media_api.Http.{HttpRequest, Response, Handler, header}
use scoreplay_media_api.Idempotency.{
  idempotency_key_header, pg_store, idempotency, replay, keyed, is_live,
}
use scoreplay_media_api.Idempotency.Replay.{
  request_key, Runs, idempotency_replays, expired_key_blocks,
}
use scoreplay_media_api.Fixtures.{env_at, tenant_ctx, tenant_ctx_id}

abbrev upload : HttpRequest
upload = record {
  method = codes "POST";
  path = codes "/media";
  remote_addr = codes "10.0.0.1";
  headers = (idempotency_key_header, codes "k1") ∷ [];
  query = [];
  params = [];
  body = [];
  ctx = tenant_ctx 2;
}

abbrev created : Response
created = record { status = 201; headers = []; body = codes "{}" }

abbrev rejected : Response
rejected = record { status = 400; headers = []; body = codes "{}" }

abbrev create_handler : Handler Db
create_handler r db = (created, db)

abbrev reject_handler : Handler Db
reject_handler r db = (rejected, db)

has_key : is_empty (request_key upload) ≡ false
unfolding header text_eq
has_key = refl

same_key : request_key upload ≡ request_key upload
same_key = refl

creates : (db : Db) → Runs create_handler upload db created db
creates db = record { result = refl; keys = refl }

no_key_yet : any (keyed 2 (request_key upload)) empty_db.idempotency_keys ≡ false
unfolding any
no_key_yet = refl

idempotency_replays_example :
    let (w, db) =
      idempotency
        (pg_store (steady (env_at 5)) (steady (env_at 6)))
        create_handler
        upload
        empty_db in
    (w ≡ created)
    × (idempotency (pg_store (steady (env_at 90)) (env_at 91)) reject_handler upload db
        ≡ (replay (201, codes "{}"), db))
idempotency_replays_example =
    idempotency_replays create_handler reject_handler (env_at 5) (env_at 6) (env_at 90) (env_at 91)
      upload upload 2 empty_db empty_db created has_key same_key (tenant_ctx_id 2) (tenant_ctx_id 2)
      (creates empty_db) no_key_yet refl (omega arith)

-- The key was stored long ago and has expired.
abbrev stale_db : Db
stale_db = record empty_db {
  idempotency_keys =
      record {
        tenant_id = 2;
        key = codes "k1";
        status_code = 201;
        response = codes "{}";
        created_at = 1;
        expires_at = 4;
      }
      ∷ [];
}

stale_dead : find (is_live 2 (request_key upload) 5) stale_db.idempotency_keys ≡ none
unfolding find header text_eq
stale_dead = refl

stale_there : any (keyed 2 (request_key upload)) stale_db.idempotency_keys ≡ true
unfolding any header text_eq
stale_there = refl

expired_key_blocks_example :
    idempotency (pg_store (steady (env_at 5)) (steady (env_at 6))) create_handler upload stale_db
    ≡ (created, stale_db)
expired_key_blocks_example =
    expired_key_blocks create_handler (env_at 5) (env_at 6) upload 2 stale_db stale_db created
      has_key (tenant_ctx_id 2) (creates stale_db) stale_dead stale_there
