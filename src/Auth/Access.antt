-- ===== src/Auth/Access.antt =====
-- internal/adapter/http/middleware/auth.go: which credential a request has, whom it is served as, and
-- what a refusal says, in the words of the headers and of the response.
use scoreplay_media_api.Prelude.{
  ◌≡◌, ◌≢◌, refl, sym, ap, ◌∙◌, inl, inr, true, false, [], ◌∷◌, ◌++◌, Option, none, some, Text,
  codes, has_prefix, is_empty, arith, Bool-cases, if◌then◌else◌,
}
use scoreplay_media_api.Result.{
  Error, Result, ok, err, err_key_missing, err_key_expired, err_key_revoked,
}
use scoreplay_media_api.Domain.{Uuid, Identity, with_identity}
use scoreplay_media_api.Http.{HttpRequest, Response, Handler, header, write_auth_error}
use scoreplay_media_api.Auth.{
  bearer, trim_prefix, extract_api_key, classify_auth_error, unauthorized, without_key, verified,
  api_key_auth,
}

-- The key of a request: that of X-API-Key, or else what stands after "Bearer " in Authorization.
pub data Credential (r : HttpRequest) : Option Text → Type 0 where
  by_key : (k : Text) → k ≢ [] → header (codes "X-Api-Key") r.headers ≡ k → Credential r (some k)
  by_bearer :
      (k : Text)
      → k ≢ []
      → header (codes "X-Api-Key") r.headers ≡ []
      → header (codes "Authorization") r.headers ≡ codes "Bearer " ++ k
      → Credential r (some k)
  absent :
      header (codes "X-Api-Key") r.headers ≡ []
      → ((k : Text) → k ≢ [] → header (codes "Authorization") r.headers ≢ codes "Bearer " ++ k)
      → Credential r none

-- The reason that is counted and the message that is sent.
pub data IsReason : Error → Text → Text → Type 0 where
  is_missing : IsReason err_key_missing (codes "missing") (codes "missing API key")
  is_expired : IsReason err_key_expired (codes "expired") (codes "credential expired")
  is_revoked : IsReason err_key_revoked (codes "revoked") (codes "credential revoked")
  is_invalid :
      (e : Error)
      → e ≢ err_key_missing
      → e ≢ err_key_expired
      → e ≢ err_key_revoked
      → IsReason e (codes "invalid") (codes "invalid API key")

pub record IsRefusal (message : Text) (w : Response) : Type 0 where
  pub status : w.status ≡ 401
  pub body :
      w.body
      ≡ codes "{\"error\":{\"code\":\"UNAUTHORIZED\",\"message\":\"" ++ message ++ codes "\"}}"

unauthorized-IsRefusal : (message : Text) → IsRefusal message (unauthorized message)
unfolding write_auth_error
unauthorized-IsRefusal message = record { status = refl; body = refl }

trim_prefix-append : (p s : Text) → trim_prefix p (p ++ s) ≡ s
trim_prefix-append [] s = refl
trim_prefix-append (c ∷ p) s = trim_prefix-append p s

has_prefix-append : (p s : Text) → has_prefix (p ++ s) p ≡ true
unfolding has_prefix
has_prefix-append [] s = refl
has_prefix-append (c ∷ p) s = ground (arith, has_prefix-append p s)

append-trim_prefix : (p s : Text) → has_prefix s p ≡ true → s ≡ p ++ trim_prefix p s
unfolding has_prefix
append-trim_prefix [] s h = refl
append-trim_prefix (c ∷ p) [] h = ground arith
append-trim_prefix (c ∷ p) (d ∷ s) h =
    let same : d ≡ c = ground arith in
    let rest = append-trim_prefix p s (ground arith) in ap (λ x. x ∷ s) same ∙ ap (λ t. c ∷ t) rest

visible : (s : Text) → is_empty s ≡ false → s ≢ []
visible [] h e = ground arith
visible (c ∷ s) h e = cc

is_empty→eq : (s : Text) → is_empty s ≡ true → s ≡ []
is_empty→eq [] h = refl
is_empty→eq (c ∷ s) h = ground arith

abbrev given_key : Text → Option Text
given_key [] = none
given_key (c ∷ k) = some (c ∷ k)

module _ (r : HttpRequest) where
  from_bearer :
      (auth : Text)
      → header (codes "Authorization") r.headers ≡ auth
      → header (codes "X-Api-Key") r.headers ≡ []
      → Credential r (given_key (if has_prefix auth bearer then trim_prefix bearer auth else []))
  from_bearer auth e none_there = elim (Bool-cases (has_prefix auth bearer)) [
    | inl p ↦ rw p (cut (trim_prefix bearer auth) (append-trim_prefix bearer auth p))
    | inr p ↦ rw p (absent none_there (λ k ne q. other k p (sym e ∙ q)))
  ]
    where
      cut : (k : Text) → auth ≡ bearer ++ k → Credential r (given_key k)
      cut [] q = absent none_there (λ k ne h.
          ne (sym (trim_prefix-append bearer k) ∙ ap (trim_prefix bearer) (sym h ∙ e ∙ q)))
      cut (c ∷ k) q = by_bearer (c ∷ k) (λ h. cc) none_there (e ∙ q)

      other : (k : Text) → has_prefix auth bearer ≡ false → auth ≡ bearer ++ k → ⊥
      other k p q =
          let h = ap (λ t. has_prefix t bearer) q ∙ has_prefix-append bearer k in ground arith

  extract_api_key-Credential : Credential r (given_key (extract_api_key r))
  unfolding extract_api_key
  extract_api_key-Credential = elim (Bool-cases (is_empty (header (codes "X-Api-Key") r.headers))) [
    | inl e ↦
        rw (e, extract_api_key)
          (from_bearer (header (codes "Authorization") r.headers) refl
            (is_empty→eq (header (codes "X-Api-Key") r.headers) e))
    | inr e ↦ rw (e, extract_api_key) (found (header (codes "X-Api-Key") r.headers) refl e)
  ]
    where
      found :
          (k : Text)
          → header (codes "X-Api-Key") r.headers ≡ k
          → is_empty k ≡ false
          → Credential r (given_key k)
      found [] q e = ground arith
      found (c ∷ k) q e = by_key (c ∷ k) (λ h. cc) q

classify_auth_error-IsReason :
    (e : Error) → IsReason e (classify_auth_error e).0 (classify_auth_error e).1
unfolding classify_auth_error
classify_auth_error-IsReason err_key_missing = is_missing
classify_auth_error-IsReason err_key_expired = is_expired
classify_auth_error-IsReason err_key_revoked = is_revoked
classify_auth_error-IsReason e = is_invalid e (λ q. cc) (λ q. cc) (λ q. cc)

given_none : (k : Text) → is_empty k ≡ true → given_key k ≡ none
given_none [] h = refl
given_none (c ∷ k) h = ground arith

given_some : (k : Text) → is_empty k ≡ false → given_key k ≡ some k
given_some [] h = ground arith
given_some (c ∷ k) h = refl

module _ {S : Type 0} (verifier : Text → S → Result Identity × S) (dev_tenant_id : Option Uuid)
    (next : Handler S) where
  -- The answer to a request, with the state that the verifier and the handler leave.
  pub data Answers (r : HttpRequest) (s : S) : Response × S → Type 0 where
    served :
        (k : Text) (i : Identity) (s' : S)
        → Credential r (some k)
        → verifier k s ≡ (ok i, s')
        → Answers r s (next (record r { ctx = with_identity r.ctx i }) s')
    served_as_developer :
        (tenant : Uuid)
        → Credential r none
        → dev_tenant_id ≡ some tenant
        → Answers r s (
            next
              (record r {
                ctx = with_identity r.ctx (record {
                  tenant_id = tenant;
                  key_id = 0;
                  scopes = codes "admin:*" ∷ [];
                  expires_at = none;
                });
              })
              s)
    denied_without_key :
        (w : Response)
        → Credential r none
        → dev_tenant_id ≡ none
        → IsRefusal (codes "missing API key") w
        → Answers r s (w, s)
    denied :
        (k : Text) (e : Error) (s' : S) (message : Text) (w : Response)
        → Credential r (some k)
        → verifier k s ≡ (err e, s')
        → IsReason e (classify_auth_error e).0 message
        → IsRefusal message w
        → Answers r s (w, s')

  module _ (r : HttpRequest) (s : S) where
    without_key-Answers :
        (o : Option Uuid)
        → dev_tenant_id ≡ o
        → Credential r none
        → Answers r s (without_key verifier dev_tenant_id next r s o)
    without_key-Answers none q c =
        denied_without_key _ c q (unauthorized-IsRefusal (codes "missing API key"))
    without_key-Answers (some tenant) q c = served_as_developer tenant c q

    verified-Answers :
        (v : Result Identity × S) (k : Text)
        → verifier k s ≡ v
        → Credential r (some k)
        → Answers r s (verified verifier dev_tenant_id next r v)
    verified-Answers (ok i, s') k q c = served k i s' c q
    verified-Answers (err e, s') k q c =
        denied k e s' _ _ c q (classify_auth_error-IsReason e) (unauthorized-IsRefusal _)

  -- A request whose X-API-Key header, or else whose Authorization header after "Bearer ", is a key is
  -- served as the identity that the verifier gives for just that key. One without a key is served as
  -- the development tenant with every scope if there is one. Any other request is answered 401 and its
  -- handler does not run: the body says that the key is missing, expired or revoked, or calls it
  -- invalid for every other error, a fault of the look-up included, and the counted reason agrees.
  pub api_key_auth-Answers :
      (r : HttpRequest) (s : S) → Answers r s (api_key_auth verifier dev_tenant_id next r s)
  unfolding api_key_auth
  api_key_auth-Answers r s = elim (Bool-cases (is_empty (extract_api_key r))) [
    | inl e ↦ rw e (
        without_key-Answers r s dev_tenant_id refl
          (rw (given_none (extract_api_key r) e) at (extract_api_key-Credential r)))
    | inr e ↦ rw e (
        verified-Answers r s _ (extract_api_key r) refl
          (rw (given_some (extract_api_key r) e) at (extract_api_key-Credential r)))
  ]
