-- ===== src/Router/Denied.antt =====
-- internal/adapter/http/handler: an endpoint does nothing for an identity without its scope.
use scoreplay_media_api.Prelude.{ℕ, ◌≡◌, refl, false, none, some, Text, codes}
use scoreplay_media_api.Domain.{Identity, Context, has_scope, identity_from_context}
use scoreplay_media_api.Http.{HttpRequest, Response}
use scoreplay_media_api.Service.{App, Step}
use scoreplay_media_api.Result.{Error}
use scoreplay_media_api.Handler.{Host, Parsed, ◌>>=◌, serve, write_error, require_scope}
use scoreplay_media_api.Handler.Tags as Tags
use scoreplay_media_api.Handler.Media as Media
use scoreplay_media_api.Router.{
  Endpoint, tags_create, tags_list, tags_update, tags_delete, media_create, media_list, media_get,
  media_delete, media_attach, media_detach, Deps, Moment, endpoint,
}

-- What an endpoint asks for: reading or writing, of tags or of media.
abbrev pub scope_of : Endpoint → Text
scope_of tags_list = codes "tags:read"
scope_of tags_create = codes "tags:write"
scope_of tags_update = codes "tags:write"
scope_of tags_delete = codes "tags:write"
scope_of media_list = codes "media:read"
scope_of media_get = codes "media:read"
scope_of media_create = codes "media:write"
scope_of media_delete = codes "media:write"
scope_of media_attach = codes "media:write"
scope_of media_detach = codes "media:write"

-- A request that may not use an endpoint, and the status that says so.
pub data IsDenied (e : Endpoint) (ctx : Context) : ℕ → Type 0 where
  no_identity : identity_from_context ctx ≡ none → IsDenied e ctx 500
  no_scope :
      (i : Identity)
      → identity_from_context ctx ≡ some i
      → has_scope i (scope_of e) ≡ false
      → IsDenied e ctx 403

-- A handler's answer that leaves everything as it was.
abbrev pub Refuses : Response × App → ℕ → App → Type 0
Refuses out status app = (out.0.status ≡ status) × (out.1 ≡ app)

module _ (host : Host) (r : HttpRequest) (app : App) where
  serve_denied :
      (e : Endpoint) (status : ℕ)
      → IsDenied e r.ctx status
      → {A B : Type 0} (next : Unit {0} → Parsed A) (act : A → Step B) (reply : B → Response)
        (fail : Error → Response)
      → Refuses (serve (require_scope host r (scope_of e) >>= next) act reply fail app) status app
  unfolding serve require_scope write_error identity_from_context
  serve_denied e _ (no_identity h) next act reply fail = rw h (refl, refl)
  serve_denied e _ (no_scope i h k) next act reply fail = rw (h, k) (refl, refl)

-- An endpoint that is asked for without an identity answers 500, and with an identity that does not
-- grant its scope 403; tables and files stay as they are. The scopes are tags:read for the list of
-- tags, tags:write for the other endpoints of tags, media:read for the list and the look-up of media,
-- and media:write for the other endpoints of media.
pub endpoint-Refuses :
    (deps : Deps) (m : Moment) (e : Endpoint) (r : HttpRequest) (app : App) (status : ℕ)
    → IsDenied e r.ctx status
    → Refuses (endpoint deps m e r app) status app
unfolding endpoint Tags.create Tags.list Tags.update Tags.delete Media.create Media.get_by_id
    Media.list Media.delete Media.attach Media.detach Tags.parse_create Tags.parse_list
    Tags.parse_update Tags.parse_delete Media.parse_create Media.parse_get Media.parse_list
    Media.parse_delete Media.parse_attach Media.parse_detach
endpoint-Refuses deps m tags_create r app status h =
    serve_denied deps.host r app tags_create status h _ _ _ _
endpoint-Refuses deps m tags_list r app status h =
    serve_denied deps.host r app tags_list status h _ _ _ _
endpoint-Refuses deps m tags_update r app status h =
    serve_denied deps.host r app tags_update status h _ _ _ _
endpoint-Refuses deps m tags_delete r app status h =
    serve_denied deps.host r app tags_delete status h _ _ _ _
endpoint-Refuses deps m media_create r app status h =
    serve_denied deps.host r app media_create status h _ _ _ _
endpoint-Refuses deps m media_list r app status h =
    serve_denied deps.host r app media_list status h _ _ _ _
endpoint-Refuses deps m media_get r app status h =
    serve_denied deps.host r app media_get status h _ _ _ _
endpoint-Refuses deps m media_delete r app status h =
    serve_denied deps.host r app media_delete status h _ _ _ _
endpoint-Refuses deps m media_attach r app status h =
    serve_denied deps.host r app media_attach status h _ _ _ _
endpoint-Refuses deps m media_detach r app status h =
    serve_denied deps.host r app media_detach status h _ _ _ _
