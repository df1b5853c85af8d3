-- ===== src/Auth/Tests.antt =====
-- Runs of the verifier and of the middleware.
use scoreplay_media_api.Prelude.{◌≡◌, [], ◌∷◌, false, none, codes, Text, arith, find}
use scoreplay_media_api.Result.{Result, err, is_ok, err_key_invalid}
use scoreplay_media_api.Domain.{Identity, active}
use scoreplay_media_api.Database.{Db, empty_db}
use scoreplay_media_api.Http.{HttpRequest, Handler}
use scoreplay_media_api.Auth.{verify, api_key_auth, select_key}
use scoreplay_media_api.Auth.Revocation.{Attempt, IsDenied, after, revocation_bound}
use scoreplay_media_api.Auth.Access.{Answers, api_key_auth-Answers}
use scoreplay_media_api.Prelude.{refl, some, any, text_eq}
use scoreplay_media_api.Result.{ok}
use scoreplay_media_api.Database.Steady.{steady}
use scoreplay_media_api.Auth.Keys.{
  is_tenant, raw_key, create_api_key, issued, verify-create_api_key,
}
use scoreplay_media_api.Fixtures.{env_at, no_ctx}

-- A hash for the runs.
abbrev same_hash : Text → Text
same_hash s = s

abbrev keyed_db : Db
keyed_db = record empty_db {
  tenants = record { id = 2; name = codes "t"; status = active } ∷ [];
  api_keys =
      record {
        id = 41;
        tenant_id = 2;
        key_hash = codes "secret";
        name = codes "k";
        scopes = [];
        expires_at = none;
      }
      ∷ [];
}

-- Tables without keys deny every key.
empty-IsDenied : IsDenied (codes "secret") empty_db
unfolding select_key find
empty-IsDenied env now = ground arith

abbrev good : Attempt
good = record { env = env_at 3; now = 3; db = keyed_db; raw = codes "secret" }

abbrev late : Attempt
late = record { env = env_at 6; now = 6; db = empty_db; raw = codes "secret" }

revocation_bound_example :
    is_ok
      (verify same_hash 5
        (env_at 10)
        10
        empty_db
        (codes "secret")
        (after same_hash 5 (late ∷ []) (after same_hash 5 (good ∷ []) []))).0
    ≡ false
revocation_bound_example =
    revocation_bound same_hash 5 4 (codes "secret") (good ∷ []) (late ∷ []) (env_at 10) 10 empty_db
      (omega arith, tt) (empty-IsDenied, tt) empty-IsDenied (omega arith)

abbrev request : HttpRequest
request = record {
  method = codes "GET";
  path = codes "/tags";
  remote_addr = codes "10.0.0.1";
  headers = (codes "X-Api-Key", codes "secret") ∷ [];
  query = [];
  params = [];
  body = [];
  ctx = no_ctx;
}

abbrev refuse_all : Text → Db → Result Identity × Db
refuse_all raw db = (err err_key_invalid, db)

abbrev fine : Handler Db
fine r db = (record { status = 200; headers = []; body = [] }, db)

api_key_auth-Answers_example :
    Answers refuse_all none fine request empty_db
      (api_key_auth refuse_all none fine request empty_db)
api_key_auth-Answers_example = api_key_auth-Answers refuse_all none fine request empty_db

abbrev new_key_db : Db
new_key_db = issued same_hash (env_at 9) 2 (codes "u-v") (codes "k2") [] keyed_db

made :
    create_api_key same_hash (env_at 9) (codes "u") (codes "v") 2 (codes "k2") [] keyed_db
    ≡ (ok (900, codes "u-v", codes "u-v"), new_key_db)
unfolding create_api_key any text_eq raw_key
made = refl

tenant_there :
    find (is_tenant 2) keyed_db.tenants
    ≡ some (record { id = 2; name = codes "t"; status = active })
unfolding find
tenant_there = refl

verify-create_api_key_example :
    (verify same_hash 5 (steady (env_at 12)) 12 new_key_db (codes "u-v") []).0
    ≡ ok (record { tenant_id = 2; key_id = 900; scopes = []; expires_at = none })
verify-create_api_key_example =
    verify-create_api_key same_hash (env_at 9) (env_at 12) (codes "u") (codes "v") 2 (codes "k2") []
      keyed_db new_key_db 900 (codes "u-v") (codes "u-v")
      (record { id = 2; name = codes "t"; status = active }) 5 12 tenant_there refl made
