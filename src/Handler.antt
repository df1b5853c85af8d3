-- ===== src/Handler.antt =====
-- internal/adapter/http/handler: what the handlers of tags and media share (scope.go, response.go). The
-- JSON of encoding/json, the texts of UUIDs, multipart forms and the sniffing of contents are
-- parameters; so are the texts of errors, which the model of the services leaves out.
pub mod Tags
pub mod Media
pub mod Health
pub mod Filter
mod Tests
use scoreplay_media_api.Prelude.{
  ℕ, Bool, true, not, List, [], ◌∷◌, ◌++◌, Option, none, some, Text, codes, has_prefix, is_empty,
  if◌then◌else◌, filter,
}
use scoreplay_media_api.Result.{Error, Result, ok, err}
use scoreplay_media_api.Domain.{Uuid, Context, has_scope, identity_from_context}
use scoreplay_media_api.Http.{HttpRequest, Response, header, values, first, Handler, content_type}
use scoreplay_media_api.Dto.{AttachTagsRequest, Payload, error_data}
use scoreplay_media_api.Service.{App, Step}

-- A file of a form, and the calls on it that fail.
pub record FormFile : Type 0 where
  pub file_name : Text
  pub size : ℕ
  pub content : Text
  pub read_fails : Bool
  pub seek_fails : Bool

-- What ParseMultipartForm makes of a body.
pub data Multipart : Type 0 where
  too_large malformed : Multipart
  form : List (Text × Text) → Option FormFile → Multipart

-- What the handlers take from elsewhere.
pub record Host : Type 0 where
  pub encode : Payload → Option Text
  pub decode_name : Text → Option Text
  pub decode_attach : Text → Option AttachTagsRequest
  pub parse_uuid : Text → Option Uuid
  pub show_uuid : Uuid → Text
  pub parse_form : ℕ → HttpRequest → Multipart
  pub detect_content_type : Text → Text
  pub file_url : Text → Text
  pub error_text : HttpRequest → Error → Text
  pub ping_fails : HttpRequest → Bool

-- The part of a handler before its service is called: a response ends it.
pub data Parsed (A : Type 0) : Type 0 where
  stop : Response → Parsed A
  go : A → Parsed A

module _ {A B : Type 0} where
  infixl 10 ◌>>=◌ ◌>>◌
  abbrev pub ◌>>=◌ : Parsed A → (A → Parsed B) → Parsed B
  stop w >>= f = stop w
  go a >>= f = f a

  abbrev pub ◌>>◌ : Parsed A → Parsed B → Parsed B
  m >> n = m >>= λ _. n

module _ {B : Type 0} where
  abbrev pub respond : (B → Response) → (Error → Response) → Result B × App → Response × App
  respond reply fail (ok b, app) = (reply b, app)
  respond reply fail (err e, app) = (fail e, app)

module _ {A B : Type 0} where
  -- The service is called on what was parsed; its result or its error is answered.
  unfoldable pub serve :
      Parsed A → (A → Step B) → (B → Response) → (Error → Response) → App → Response × App
  serve (stop w) act reply fail app = (w, app)
  serve (go a) act reply fail app = respond reply fail (act a app)

-- w.WriteHeader(http.StatusNoContent)
abbrev pub no_content : Response
no_content = record { status = 204; headers = []; body = [] }

abbrev pub scope_media_read : Text
scope_media_read = codes "media:read"

abbrev pub scope_media_write : Text
scope_media_write = codes "media:write"

abbrev pub scope_tags_read : Text
scope_tags_read = codes "tags:read"

abbrev pub scope_tags_write : Text
scope_tags_write = codes "tags:write"

abbrev encoded_or : Text → Option Text → Text
encoded_or other none = other
encoded_or other (some s) = s

-- Without the empty texts.
unfoldable pub non_empty : List Text → List Text
non_empty ss = filter (λ s. not (is_empty s)) ss

-- The values of a query parameter.
abbrev pub query_values : Text → HttpRequest → List Text
query_values name r = values name r.query

abbrev pub query_get : Text → HttpRequest → Text
query_get name r = first (query_values name r)

module _ (host : Host) where
  -- The headers are written before the encoding fails, so the status stays.
  unfoldable pub write_json : ℕ → Payload → Response
  write_json status payload = record {
    status = status;
    headers = content_type ∷ [];
    body = encoded_or (codes "failed to encode response\n") (host.encode payload);
  }

  unfoldable pub write_error : ℕ → Text → Text → Response
  write_error status code message = record {
    status = status;
    headers = content_type ∷ [];
    body = encoded_or [] (host.encode (error_data code message));
  }

  abbrev pub invalid : Text → Response
  invalid message = write_error 400 (codes "VALIDATION_ERROR") message

  unfoldable pub require_scope : HttpRequest → Text → Parsed (Unit {0})
  require_scope r scope = elim (identity_from_context r.ctx) [
    | none ↦ stop (write_error 500 (codes "INTERNAL_ERROR") (codes "auth middleware did not run"))
    | some i ↦
        if has_scope i scope
        then go tt
        else stop (write_error 403 (codes "FORBIDDEN") (codes "missing scope: " ++ scope))
  ]

  -- The guard of the bodies in JSON.
  unfoldable pub require_json : HttpRequest → Parsed (Unit {0})
  require_json r =
      if has_prefix (header (codes "Content-Type") r.headers) (codes "application/json")
      then go tt
      else stop (
          write_error 415 (codes "INVALID_CONTENT_TYPE")
            (codes "Content-Type must be application/json"))

  unfoldable pub decode_body : {A : Type 0} → (Text → Option A) → HttpRequest → Parsed A
  decode_body decode r = elim (decode r.body) [
    | none ↦ stop (write_error 400 (codes "INVALID_JSON") (codes "request body must be valid JSON"))
    | some a ↦ go a
  ]

  -- chi.URLParam and uuid.Parse
  unfoldable pub path_id : Text → Text → HttpRequest → Parsed Uuid
  path_id name message r = elim (host.parse_uuid (first (values name r.params))) [
    | none ↦ stop (invalid message)
    | some id ↦ go id
  ]
