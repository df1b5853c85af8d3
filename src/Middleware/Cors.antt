-- ===== src/Middleware/Cors.antt =====
-- internal/adapter/http/middleware/cors.go: which origins are let in.
use scoreplay_media_api.Prelude.{
  ◌≡◌, refl, ◌∙◌, inl, inr, ◌↔◌, Bool, true, false, List, [], ◌∷◌, ◌++◌, Text, codes, text_eq,
  text_eq→eq, eq→text_eq, is_empty, any, any→In, In→any, In, Bool-cases, arith,
}
use scoreplay_media_api.Http.{HttpRequest, Response, Headers, Handler, header}
use scoreplay_media_api.Middleware.{
  with_headers, trim_slashes, allow_origin, cors_headers, is_allowed_origin, cors_headers_for,
  is_preflight, cors,
}

abbrev pub origin_of : HttpRequest → Text
origin_of r = header (codes "Origin") r.headers

-- An origin that the configuration lists, up to slashes at the end of the entry.
abbrev pub IsListed : List Text → Text → Type 0
IsListed allowed origin =
    (is_empty origin ≡ false) × ((o : Text) × In o allowed × (trim_slashes o ≡ origin))

abbrev pub sets : Text → Headers → Bool
sets name hs = any (λ (h : Text × Text). text_eq h.0 name) hs

is_allowed_origin_iff :
    (allowed : List Text) (origin : Text)
    → (is_allowed_origin allowed origin ≡ true) ↔ IsListed allowed origin
unfolding is_allowed_origin
is_allowed_origin_iff allowed origin = (
  λ h.
      let (o, m, e) = any→In (λ o. text_eq (trim_slashes o) origin) allowed (ground arith) in
      (ground arith, (o, m, text_eq→eq (trim_slashes o) origin e)),
  λ (empty, (o, m, e)).
      let found =
        In→any (λ o. text_eq (trim_slashes o) origin) o allowed m
          (eq→text_eq (trim_slashes o) origin e) in
      ground arith,
)

header-append :
    (name : Text) (hs ks : Headers) → sets name hs ≡ false → header name (hs ++ ks) ≡ header name ks
unfolding header any
header-append name [] ks h = refl
header-append name ((k, v) ∷ hs) ks h =
    let ih = header-append name hs ks (ground arith) in
    let other : text_eq k name ≡ false = ground arith in rw other ih

header-cors_headers : (origin : Text) → header allow_origin (cors_headers origin) ≡ origin
unfolding header text_eq
header-cors_headers origin = refl

-- What CORS makes of a request.
pub record Guarded {S : Type 0} (allowed : List Text) (next : Handler S) (r : HttpRequest) (s : S)
    (out : Response × S) : Type 0 where
  pub granted : IsListed allowed (origin_of r) → header allow_origin out.0.headers ≡ origin_of r
  pub denied : ¬ IsListed allowed (origin_of r) → header allow_origin out.0.headers ≡ []
  pub preflight : is_preflight r ≡ true → (out.0.status ≡ 204) × (out.1 ≡ s)
  pub passed :
      is_preflight r ≡ false
      → (out.0.status ≡ (next r s).0.status)
        × (out.0.body ≡ (next r s).0.body)
        × (out.1 ≡ (next r s).1)

module _ {S : Type 0} (allowed : List Text) (next : Handler S) (r : HttpRequest) (s : S) where
  cors_granted :
      IsListed allowed (origin_of r)
      → header allow_origin (cors_headers_for allowed (origin_of r)) ≡ origin_of r
  unfolding cors_headers_for
  cors_granted l =
      rw ((is_allowed_origin_iff allowed (origin_of r)).1 l) (header-cors_headers (origin_of r))

  cors_denied :
      ¬ IsListed allowed (origin_of r)
      → header allow_origin (cors_headers_for allowed (origin_of r)) ≡ []
  unfolding cors_headers_for header
  cors_denied l = elim (Bool-cases (is_allowed_origin allowed (origin_of r))) [
    | inl e ↦ absurd (l ((is_allowed_origin_iff allowed (origin_of r)).0 e))
    | inr e ↦ rw e refl
  ]

  -- The response names the origin of the request as allowed exactly if the configuration lists it, up
  -- to slashes at the end; an OPTIONS request is answered 204 without running the handler, and every
  -- other request has the handler's status, body and state, whatever its origin. The handler does not
  -- set the header itself.
  pub cors-Guarded :
      sets allow_origin (next r s).0.headers ≡ false
      → Guarded allowed next r s (cors allowed next r s)
  unfolding cors with_headers
  cors-Guarded own = elim (Bool-cases (is_preflight r)) [
    | inl e ↦ rw e (record {
      granted = λ l. cors_granted l;
      denied = λ l. cors_denied l;
      preflight = λ _. (refl, refl);
      passed = λ f. ground arith;
    })
    | inr e ↦ rw e (record {
      granted = λ l. header-append allow_origin _ _ own ∙ cors_granted l;
      denied = λ l. header-append allow_origin _ _ own ∙ cors_denied l;
      preflight = λ f. ground arith;
      passed = λ _. (refl, refl, refl);
    })
  ]
