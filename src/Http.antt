-- ===== src/Http.antt =====
-- What the program reads of net/http and chi: requests, responses, and handlers that keep a state.
-- Header names are in the canonical form that net/http gives them, and a header that is not there
-- reads as the empty text. The query is parsed, the parameters are those that chi took from the path.
-- A response whose handler never called WriteHeader has the status 0 here.
use scoreplay_media_api.Prelude.{ℕ, List, [], ◌∷◌, ◌++◌, Text, codes, text_eq, if◌then◌else◌}
use scoreplay_media_api.Domain.{Context}

abbrev pub Headers : Type 0
Headers = List (Text × Text)

pub record HttpRequest : Type 0 where
  pub method : Text
  pub path : Text
  pub remote_addr : Text
  pub headers : Headers
  pub query : List (Text × Text)
  pub params : List (Text × Text)
  pub body : Text
  pub ctx : Context

pub record Response : Type 0 where
  pub status : ℕ
  pub headers : Headers
  pub body : Text

-- `Header.Get`
unfoldable pub header : Text → Headers → Text
header name [] = []
header name ((k, v) ∷ hs) = if text_eq k name then v else header name hs

-- All values of a name, as in `URL.Query()[name]`.
unfoldable pub values : Text → List (Text × Text) → List Text
values name [] = []
values name ((k, v) ∷ rest) =
    let later = values name rest in if text_eq k name then v ∷ later else later

-- `Values.Get`: the first value, or the empty text.
abbrev pub first : List Text → Text
first [] = []
first (v ∷ vs) = v

abbrev pub Handler : Type 0 → Type 0
Handler S = HttpRequest → S → Response × S

abbrev pub content_type : Text × Text
content_type = (codes "Content-Type", codes "application/json; charset=utf-8")

-- writeAuthError, in internal/adapter/http/middleware/auth.go.
unfoldable pub write_auth_error : ℕ → Text → Text → Response
write_auth_error status code message = record {
  status = status;
  headers = content_type ∷ [];
  body =
      codes "{\"error\":{\"code\":\""
      ++ code
      ++ codes "\",\"message\":\""
      ++ message
      ++ codes "\"}}";
}
