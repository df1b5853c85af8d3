-- ===== src/Router/Tests.antt =====
-- Requests through the router.
use scoreplay_media_api.Prelude.{
  ◌≡◌, ◌≢◌, refl, ap, true, [], ◌∷◌, Option, none, some, codes, text_eq, any, find, filter,
  has_prefix, arith, ℕ,
}
use scoreplay_media_api.Result.{Result, ok, err}
use scoreplay_media_api.Domain.{
  Uuid, Identity, Context, has_scope, category_of, index_byte, granted_by, identity_from_context,
}
use scoreplay_media_api.Database.Valid.{SameRows}
use scoreplay_media_api.Http.{HttpRequest, header}
use scoreplay_media_api.Auth.{extract_api_key, verify, cache_get, select_key, join_tenant, item}
use scoreplay_media_api.Router.{tags_delete, media_delete, verifier, endpoint, server}
use scoreplay_media_api.Router.Denied.{IsDenied, no_scope, Refuses, endpoint-Refuses}
use scoreplay_media_api.Router.Atomic.{is_error, endpoint_error_atomic}
use scoreplay_media_api.Router.Isolated.{Effect, server-Effect, server-SameRows}
use scoreplay_media_api.Handler.{
  serve, require_scope, require_json, decode_body, path_id, write_error, write_json,
}
use scoreplay_media_api.Handler.Tags
use scoreplay_media_api.Http.{values}
use scoreplay_media_api.TagRepo
use scoreplay_media_api.Service
use scoreplay_media_api.Service.{query, create_tag, delete_tag}
use scoreplay_media_api.Name.{
  sanitize_name, check_name, normalize_space, trim_right, trim_left, collapse_from, is_regexp_space,
  plain_break, plain_space, is_unicode_whitespace, is_space, is_unsafe_rune, byte_len,
}
use scoreplay_media_api.Prelude.{all}
use scoreplay_media_api.Database.{with_tenant_tx, pure, raise, no_op, statement, ◌>>=◌}
use scoreplay_media_api.Auth.{api_key_auth}
use scoreplay_media_api.RateLimit.{admit, allow, refill, get_bucket, bucket_at, new_token_bucket}
use scoreplay_media_api.Router.{dispatch, routes, api_handler}
use scoreplay_media_api.Middleware.{
  request_id, request_id_of, set_header, with_headers, recovery, recovered, cors, cors_headers_for,
  is_allowed_origin, rate_limit, security_headers,
}
use scoreplay_media_api.Domain.{with_identity, tenant_id_from_context}
use scoreplay_media_api.Fixtures.{tenant_ctx}
use scoreplay_media_api.HostFixtures.{
  plain_deps, moment_at, keyed_app, keyed_db, keyed_db-IsValid, signed_out, post_tag,
}

server-Effect_example :
    Effect
      (plain_deps none)
      (moment_at 9)
      (extract_api_key post_tag)
      signed_out
      (server (plain_deps none) (moment_at 9) post_tag ([], signed_out)).1.1.1.db
server-Effect_example = server-Effect (plain_deps none) (moment_at 9) post_tag [] signed_out

abbrev tenant_or : ℕ → Result Identity → ℕ
tenant_or n (err e) = n
tenant_or n (ok i) = i.tenant_id

verified_as :
    tenant_or 0 (verifier (plain_deps none) (moment_at 9) (extract_api_key post_tag) signed_out).0
    ≡ 3
unfolding verify cache_get select_key join_tenant item find text_eq extract_api_key header
verified_as = refl

other_identity :
    (i : Identity)
    → (verifier (plain_deps none) (moment_at 9) (extract_api_key post_tag) signed_out).0 ≡ ok i
    → i.tenant_id ≢ 2
other_identity i q e = let p = ap (tenant_or 0) q in omega (arith, verified_as, p, e)

no_dev : ◌≢◌ {A = Option Uuid} none (some 2)
no_dev e = cc

server-SameRows_example :
    SameRows 2 keyed_db (server (plain_deps none) (moment_at 9) post_tag ([], signed_out)).1.1.1.db
server-SameRows_example =
    server-SameRows (plain_deps none) (moment_at 9) 2 post_tag [] signed_out keyed_db-IsValid
      other_identity no_dev

abbrev from_tenant : HttpRequest
from_tenant = record post_tag { ctx = tenant_ctx 2 }

no_scopes : IsDenied media_delete (tenant_ctx 2) 403
unfolding identity_from_context has_scope category_of any index_byte text_eq
no_scopes = no_scope _ refl refl

endpoint-Refuses_example :
    Refuses
      (endpoint (plain_deps none) (moment_at 9) media_delete from_tenant keyed_app)
      403
      keyed_app
endpoint-Refuses_example =
    endpoint-Refuses (plain_deps none) (moment_at 9) media_delete from_tenant keyed_app 403
      no_scopes

abbrev as_admin : Context
as_admin = record {
  identity =
      some (record { tenant_id = 2; key_id = 0; scopes = codes "admin:*" ∷ []; expires_at = none });
}

-- The deletion of a tag that is not there.
abbrev delete_nothing : HttpRequest
delete_nothing = record from_tenant { params = (codes "id", codes "x") ∷ []; ctx = as_admin }

answers_404 :
    is_error (endpoint (plain_deps none) (moment_at 9) tags_delete delete_nothing keyed_app).0
    ≡ true
unfolding endpoint Tags.delete Tags.parse_delete Tags.handle_error serve require_scope path_id
    write_error identity_from_context has_scope text_eq any granted_by values delete_tag query
    TagRepo.delete TagRepo.delete_tag TagRepo.delete_tx with_tenant_tx tenant_id_from_context filter
    pure raise no_op statement ◌>>=◌
answers_404 = refl

endpoint_error_atomic_example :
    (endpoint (plain_deps none) (moment_at 9) tags_delete delete_nothing keyed_app).1.db ≡ keyed_db
endpoint_error_atomic_example =
    endpoint_error_atomic (plain_deps none) (moment_at 9) tags_delete delete_nothing keyed_app refl
      answers_404

-- A request with the key of tenant 3 creates a tag.
created_201 : (server (plain_deps none) (moment_at 9) post_tag ([], signed_out)).0.status ≡ 201
unfolding server request_id request_id_of set_header with_headers recovery recovered cors
    cors_headers_for is_allowed_origin rate_limit admit allow refill get_bucket bucket_at
    new_token_bucket security_headers dispatch routes find text_eq has_prefix api_key_auth
    api_handler endpoint extract_api_key header filter verify cache_get item select_key join_tenant
    with_identity Tags.create Tags.parse_create Tags.created_tag serve require_scope require_json
    decode_body write_json identity_from_context has_scope any granted_by category_of index_byte
    create_tag sanitize_name query TagRepo.create_or_get TagRepo.create_or_get_tx TagRepo.insert_tag
    TagRepo.select_tag with_tenant_tx tenant_id_from_context pure raise no_op statement ◌>>=◌
    Service.pure Service.raise Service.◌>>=◌ all check_name normalize_space trim_right trim_left
    collapse_from is_regexp_space plain_break plain_space is_unicode_whitespace is_space
    is_unsafe_rune byte_len
created_201 = refl
