-- ===== src/Database/Tests.antt =====
-- A transaction that fails after it has written.
use scoreplay_media_api.Prelude.{◌≡◌, refl}
use scoreplay_media_api.Result.{Result, ok, err, err_not_found}
use scoreplay_media_api.Domain.{Uuid, tenant_id_from_context, identity_from_context}
use scoreplay_media_api.Database.{
  Db, Tx, empty_db, Env, pure, raise, statement, no_op, ◌>>=◌, ◌>>◌, with_tenant_tx,
}
use scoreplay_media_api.Fixtures.{env_at, tenant_ctx, shared_db}

-- Empties the tables, and then fails.
abbrev wipe : Env → Uuid → Db → Result (Unit {0}) × Db
wipe env id db = (ok tt, empty_db)

wipe_and_fail : Uuid → Tx (Unit {0})
wipe_and_fail tenant = do statement wipe; raise err_not_found

wiped :
    with_tenant_tx wipe_and_fail (env_at 5) (tenant_ctx 2) shared_db
    ≡ (err err_not_found, shared_db)
unfolding wipe_and_fail with_tenant_tx ◌>>=◌ statement no_op pure raise tenant_id_from_context
    identity_from_context
wiped = refl
