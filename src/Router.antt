-- ===== src/Router.antt =====
-- internal/adapter/server/router.go: the endpoints, the routes, the middlewares in their order, and the
-- static files. What chi does (matching a path, the answer to an unknown one, the address behind a
-- proxy, compression), the file server and the page of metrics are parameters. The middlewares Timeout,
-- Logger and Metrics change no response and are left out here.
pub mod Denied
pub mod Atomic
pub mod Effects
pub mod Isolated
mod Tests
use scoreplay_media_api.Prelude.{
  ℕ, Bool, List, [], ◌∷◌, ◌++◌, Option, none, some, Text, codes, has_prefix, if◌then◌else◌,
}
use scoreplay_media_api.Result.{Result}
use scoreplay_media_api.Domain.{Time, Uuid, Identity}
use scoreplay_media_api.Database.{Env}
use scoreplay_media_api.Cursor.{Codec}
use scoreplay_media_api.TagRepo.{TagCursor}
use scoreplay_media_api.MediaRepo.Listing.{MediaCursor}
use scoreplay_media_api.LocalStorage.{Files}
use scoreplay_media_api.Http.{HttpRequest, Response, Handler}
use scoreplay_media_api.Service.{FileStorage, App, query}
use scoreplay_media_api.Idempotency
use scoreplay_media_api.Idempotency.{IdempotencyStore, idempotency}
use scoreplay_media_api.Auth.{KeyCache, verify, trim_prefix, api_key_auth}
use scoreplay_media_api.RateLimit.{Limits, Buckets}
use scoreplay_media_api.Middleware.{
  with_headers, answered, request_id, security_headers, cors, rate_limit, returned, RawHandler,
  recovery,
}
use scoreplay_media_api.Handler.{Host}
use scoreplay_media_api.Handler.Tags
use scoreplay_media_api.Handler.Media
use scoreplay_media_api.Handler.Health.{liveness, readiness}

pub data Endpoint : Type 0 where
  tags_create tags_list tags_update tags_delete : Endpoint
  media_create media_list media_get media_delete media_attach media_detach : Endpoint

pub data Target : Type 0 where
  healthz readyz metrics uploads : Target
  api : Endpoint → Target

-- A route; one without a method takes every method.
pub record Route : Type 0 where
  pub method : Text
  pub pattern : Text
  pub target : Target

abbrev route : Text → Text → Target → Route
route method pattern target = record { method = method; pattern = pattern; target = target }

unfoldable pub routes : List Route
routes =
    route (codes "GET") (codes "/healthz") healthz
    ∷ route (codes "GET") (codes "/readyz") readyz
    ∷ route [] (codes "/metrics") metrics
    ∷ route (codes "POST") (codes "/api/v1/tags/") (api tags_create)
    ∷ route (codes "GET") (codes "/api/v1/tags/") (api tags_list)
    ∷ route (codes "PATCH") (codes "/api/v1/tags/{id}") (api tags_update)
    ∷ route (codes "DELETE") (codes "/api/v1/tags/{id}") (api tags_delete)
    ∷ route (codes "POST") (codes "/api/v1/media/") (api media_create)
    ∷ route (codes "GET") (codes "/api/v1/media/") (api media_list)
    ∷ route (codes "GET") (codes "/api/v1/media/{id}") (api media_get)
    ∷ route (codes "DELETE") (codes "/api/v1/media/{id}") (api media_delete)
    ∷ route (codes "POST") (codes "/api/v1/media/{id}/tags") (api media_attach)
    ∷ route (codes "DELETE") (codes "/api/v1/media/{id}/tags/{tag_id}") (api media_detach)
    ∷ route [] (codes "/uploads/*") uploads
    ∷ []

-- What chi makes of a path: a route and the parameters of its pattern, or its answer to an unknown
-- path, below /api/v1 or elsewhere.
pub data Match : Type 0 where
  found : Target → List (Text × Text) → Match
  unknown_api unknown : Response → Match

-- What a FileSystem opens.
pub record FileHandle : Type 0 where
  pub content : Text
  pub is_dir : Bool
  pub stat_fails : Bool

pub data Opened : Type 0 where
  not_exist failed : Opened
  opened : FileHandle → Opened

-- noDirFS
unfoldable pub no_dir_open : (Text → Opened) → Text → Opened
no_dir_open open_file name = elim (open_file name) [
  | not_exist ↦ not_exist
  | failed ↦ failed
  | opened f ↦ if f.stat_fails then failed else if f.is_dir then not_exist else opened f
]

-- What the router is built from.
pub record Deps : Type 0 where
  pub host : Host
  pub nfc : Text → Text
  pub tag_codec : Codec TagCursor
  pub media_codec : Codec MediaCursor
  pub storage : FileStorage
  pub max_upload_size : ℕ
  pub hash_key : Text → Text
  pub cache_ttl : ℕ
  pub dev_tenant_id : Option Uuid
  pub cors_origins : List Text
  pub limits : Limits
  pub match_route : List Route → HttpRequest → Match
  pub real_ip : HttpRequest → Text
  pub compress : HttpRequest → Response → Response
  pub metrics_page : Response
  pub open_upload : Files → Text → Opened
  pub file_server : (Text → Opened) → HttpRequest → Response
  pub page_not_found : Response

-- What the surroundings add to one request.
pub record Moment : Type 0 where
  pub now : Time
  pub drawn_id : Text
  pub auth_env : Env
  pub envs : ℕ → Env

abbrev pub SignedIn : Type 0
SignedIn = KeyCache × App

-- A handler beside a state that it does not touch.
abbrev pub beside : {S T : Type 0} → Handler S → Handler (T × S)
beside next r (t, s) = let (w, s') = next r s in (w, (t, s'))

-- http.StripPrefix
abbrev pub strip_prefix : Response → Text → (HttpRequest → Response) → HttpRequest → Response
strip_prefix missing prefix next r =
    if has_prefix r.path prefix
    then next (record r { path = trim_prefix prefix r.path })
    else missing

abbrev pub safe_headers : List (Text × Text)
safe_headers =
    (codes "Content-Disposition", codes "attachment")
    ∷ (codes "X-Content-Type-Options", codes "nosniff")
    ∷ []

unfoldable pub safe_file_headers : (HttpRequest → Response) → HttpRequest → Response
safe_file_headers next r = with_headers safe_headers (next r)

module _ (deps : Deps) (m : Moment) where
  unfoldable pub endpoint : Endpoint → Handler App
  endpoint tags_create = Tags.create deps.host deps.nfc m.envs
  endpoint tags_list = Tags.list deps.host deps.nfc m.envs deps.tag_codec
  endpoint tags_update = Tags.update deps.host deps.nfc m.envs
  endpoint tags_delete = Tags.delete deps.host deps.nfc m.envs
  endpoint media_create = Media.create deps.host deps.nfc m.envs deps.storage deps.max_upload_size
  endpoint media_list = Media.list deps.host deps.nfc m.envs deps.media_codec
  endpoint media_get = Media.get_by_id deps.host deps.nfc m.envs
  endpoint media_delete = Media.delete deps.host deps.nfc m.envs deps.storage
  endpoint media_attach = Media.attach deps.host deps.nfc m.envs
  endpoint media_detach = Media.detach deps.host deps.nfc m.envs

  -- The store of the idempotency keys, in the tables of the application.
  abbrev pub app_store : IdempotencyStore App
  app_store = record {
    look_up = λ ctx key. query deps.nfc m.envs ctx (λ env db. Idempotency.get env ctx key db);
    insert = λ ctx key status body.
        query deps.nfc m.envs ctx (λ env db. Idempotency.set env ctx key status body db);
  }

  -- r.With(appmw.Idempotency(idempotencyStore)) stands before one endpoint.
  unfoldable pub api_handler : Endpoint → Handler App
  api_handler media_create = idempotency app_store (endpoint media_create)
  api_handler e = endpoint e

  abbrev pub verifier : Text → SignedIn → Result Identity × SignedIn
  verifier raw (cache, app) =
      let (i, cache') = verify deps.hash_key deps.cache_ttl m.auth_env m.now app.db raw cache in
      (i, (cache', app))

  -- APIKeyAuth stands before everything below /api/v1.
  abbrev pub signed_in : Handler App → Handler SignedIn
  signed_in next = api_key_auth verifier deps.dev_tenant_id (beside next)

  abbrev pub static_file : Files → HttpRequest → Response
  static_file files = safe_file_headers (
      strip_prefix deps.page_not_found (codes "/uploads/")
        (deps.file_server (no_dir_open (deps.open_upload files))))

  unfoldable pub dispatch : Match → Handler SignedIn
  dispatch (found (api e) params) r s = signed_in (api_handler e) (record r { params = params }) s
  dispatch (found healthz params) r s = (liveness deps.host r, s)
  dispatch (found readyz params) r s = (readiness deps.host r, s)
  dispatch (found metrics params) r s = (deps.metrics_page, s)
  dispatch (found uploads params) r (cache, app) = (static_file app.files r, (cache, app))
  dispatch (unknown_api w) r s = signed_in (λ q app. (w, app)) r s
  dispatch (unknown w) r s = (w, s)

  abbrev pub mux : Handler SignedIn
  mux r s = dispatch (deps.match_route routes r) r s

  abbrev pub compressed : {S : Type 0} → Handler S → Handler S
  compressed next r s = let (w, s') = next r s in (deps.compress r w, s')

  abbrev pub behind_proxy : {S : Type 0} → Handler S → Handler S
  behind_proxy next r s = next (record r { remote_addr = deps.real_ip r }) s

  -- No handler of the model panics.
  abbrev pub returning : {S : Type 0} → Handler S → RawHandler S
  returning next r s = let (w, s') = next r s in (returned w, s')

  -- NewRouter: the middlewares, the outermost first.
  unfoldable pub server : Handler (Buckets × SignedIn)
  server = request_id m.drawn_id (
      behind_proxy (
        recovery (
          returning (
            cors deps.cors_origins
              (rate_limit deps.limits m.now (security_headers (compressed mux)))))))
