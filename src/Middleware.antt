-- ===== src/Middleware.antt =====
-- internal/adapter/http/middleware: request ids, security headers, CORS, the refusals of the rate
-- limiter, and the recovery from panics. A header that is set before the next handler runs stands after
-- that handler's own, which is found first: net/http keeps the last value that is set.
pub mod Cors
pub mod Panics
mod Tests
use scoreplay_media_api.Prelude.{
  ℕ, zero, suc, Bool, true, false, not, ◌&&◌, List, [], ◌∷◌, ◌++◌, map, Text, codes, text_eq,
  is_empty, any, filter, if◌then◌else◌, ◌==◌,
}
use scoreplay_media_api.Domain.{Time}
use scoreplay_media_api.Http.{HttpRequest, Response, header, Headers, Handler, write_auth_error}
use scoreplay_media_api.RateLimit.{Limits, Buckets, admit}

-- `Header.Set`
unfoldable pub set_header : Text → Text → Headers → Headers
set_header name v hs = (name, v) ∷ filter (λ (h : Text × Text). not (text_eq h.0 name)) hs

-- What was set on the writer before the handler answered.
unfoldable pub with_headers : Headers → Response → Response
with_headers hs w = record w { headers = w.headers ++ hs }

module _ {S : Type 0} where
  abbrev pub answered : Headers → Response × S → Response × S
  answered hs (w, s) = (with_headers hs w, s)

abbrev pub x_request_id : Text
x_request_id = codes "X-Request-Id"

-- The id of the request, or the one that is drawn.
unfoldable pub request_id_of : Text → HttpRequest → Text
request_id_of drawn r = let id = header x_request_id r.headers in if is_empty id then drawn else id

unfoldable pub request_id : {S : Type 0} → Text → Handler S → Handler S
request_id drawn next r s =
    let id = request_id_of drawn r in
    answered ((x_request_id, id) ∷ [])
      (next (record r { headers = set_header x_request_id id r.headers }) s)

abbrev pub security_header_list : Headers
security_header_list =
    (codes "X-Content-Type-Options", codes "nosniff")
    ∷ (codes "X-Frame-Options", codes "DENY")
    ∷ (codes "Cache-Control", codes "no-store")
    ∷ (codes "Referrer-Policy", codes "strict-origin-when-cross-origin")
    ∷ []

unfoldable pub security_headers : {S : Type 0} → Handler S → Handler S
security_headers next r s = answered security_header_list (next r s)

-- `strings.TrimRight(o, "/")`
unfoldable pub trim_slashes : Text → Text
trim_slashes [] = []
trim_slashes (c ∷ s) =
    let rest = trim_slashes s in if is_empty rest && c == b'/' then [] else c ∷ rest

abbrev pub allow_origin : Text
allow_origin = codes "Access-Control-Allow-Origin"

abbrev pub cors_headers : Text → Headers
cors_headers origin =
    (allow_origin, origin)
    ∷ (codes "Access-Control-Allow-Methods", codes "GET, POST, OPTIONS")
    ∷ (codes "Access-Control-Allow-Headers", codes "Content-Type, X-API-Key, Authorization")
    ∷ (codes "Access-Control-Max-Age", codes "300")
    ∷ (codes "Vary", codes "Origin")
    ∷ []

-- Whether the set of allowed origins has an origin.
unfoldable pub is_allowed_origin : List Text → Text → Bool
is_allowed_origin allowed origin =
    not (is_empty origin) && any (λ o. text_eq (trim_slashes o) origin) allowed

unfoldable pub cors_headers_for : List Text → Text → Headers
cors_headers_for allowed origin =
    if is_allowed_origin allowed origin then cors_headers origin else []

abbrev pub is_preflight : HttpRequest → Bool
is_preflight r = text_eq r.method (codes "OPTIONS")

-- A preflight request is answered here.
unfoldable pub cors : {S : Type 0} → List Text → Handler S → Handler S
cors allowed next r s =
    let hs = cors_headers_for allowed (header (codes "Origin") r.headers) in
    if is_preflight r
    then (record { status = 204; headers = hs; body = [] }, s)
    else answered hs (next r s)

abbrev pub too_many_requests : Response
too_many_requests =
    with_headers ((codes "Retry-After", codes "1") ∷ [])
      (write_auth_error 429 (codes "RATE_LIMITED") (codes "too many requests"))

module _ {S : Type 0} (next : Handler S) (r : HttpRequest) (s : S) where
  abbrev pub admitted : Bool × Buckets → Response × (Buckets × S)
  admitted (true, buckets) = let (w, s') = next r s in (w, (buckets, s'))
  admitted (false, buckets) = (too_many_requests, (buckets, s))

-- The buckets are a state of the middleware, beside that of the handler.
unfoldable pub rate_limit : {S : Type 0} → Limits → Time → Handler S → Handler (Buckets × S)
rate_limit l now next r (buckets, s) = admitted next r s (admit l r.remote_addr now buckets)

-- How a handler ends: it returns, or panics after it wrote a part of a response, of which the status
-- is 0 if the headers were not written.
pub data Outcome : Type 0 where
  returned panicked : Response → Outcome

abbrev pub RawHandler : Type 0 → Type 0
RawHandler S = HttpRequest → S → Outcome × S

abbrev pub panic_body : Text
panic_body =
    codes "{\"error\":{\"code\":\"INTERNAL_ERROR\",\"message\":\"an unexpected error occurred\"}}\n"

-- `http.Error`, on a writer that may have been written to. It sets its two headers over those that
-- are there, and has no effect on headers that were written.
abbrev pub http_error_on : ℕ → Response → Response
http_error_on zero w = record {
  status = 500;
  headers =
      (codes "Content-Type", codes "text/plain; charset=utf-8")
      ∷ (codes "X-Content-Type-Options", codes "nosniff")
      ∷ w.headers;
  body = w.body ++ panic_body;
}
http_error_on (suc n) w = record w { body = w.body ++ panic_body }

unfoldable pub recovered : Outcome → Response
recovered (returned w) = w
recovered (panicked w) = http_error_on w.status w

unfoldable pub recovery : {S : Type 0} → RawHandler S → Handler S
recovery next r s = let (o, s') = next r s in (recovered o, s')

-- statusWriter of logger.go: the first status that is written, or 200.
pub record StatusWriter : Type 0 where
  pub status : ℕ
  pub wrote_header : Bool

abbrev pub new_status_writer : StatusWriter
new_status_writer = record { status = 200; wrote_header = false }

-- The calls on a writer.
pub data Write : Type 0 where
  write_header : ℕ → Write
  write_body : Text → Write

unfoldable pub written : StatusWriter → Write → StatusWriter
written w (write_header code) =
    if w.wrote_header then w else record { status = code; wrote_header = true }
written w (write_body b) = record w { wrote_header = true }

-- The status that the log and the metrics name after some calls.
unfoldable pub logged_status : StatusWriter → List Write → ℕ
logged_status w [] = w.status
logged_status w (c ∷ cs) = logged_status (written w c) cs

-- The status that net/http sends: the first call decides, informational statuses aside, which no
-- handler writes.
unfoldable pub sent_status : List Write → ℕ
sent_status [] = 200
sent_status (write_header code ∷ cs) = code
sent_status (write_body b ∷ cs) = 200
