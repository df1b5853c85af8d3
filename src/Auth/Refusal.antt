-- ===== src/Auth/Refusal.antt =====
-- internal/adapter/http/middleware/auth.go: which requests reach a handler, and what a refusal tells.
use scoreplay_media_api.Prelude.{
  ◌≡◌, ◌≢◌, refl, inl, inr, true, false, Option, none, some, Text, is_empty, Bool-cases,
}
use scoreplay_media_api.Result.{
  Error, Result, ok, err, err_key_missing, err_key_invalid, err_key_expired, err_key_revoked,
}
use scoreplay_media_api.Domain.{Uuid, Identity}
use scoreplay_media_api.Http.{HttpRequest, Response, Handler}
use scoreplay_media_api.Auth.{
  extract_api_key, classify_auth_error, unauthorized, as_identity, dev_identity, without_key,
  verified, api_key_auth,
}

module _ {S : Type 0} (verifier : Text → S → Result Identity × S) (dev_tenant_id : Option Uuid)
    (next : Handler S) where
  -- What becomes of a request: the handler runs as the identity that the verifier gave, or, without a
  -- key, as the development tenant; or the answer is 401 and the handler does not run.
  pub data Passed (r : HttpRequest) (s : S) : Response × S → Type 0 where
    as_verified :
        (i : Identity) (s' : S)
        → verifier (extract_api_key r) s ≡ (ok i, s')
        → is_empty (extract_api_key r) ≡ false
        → Passed r s (next (as_identity r i) s')
    as_dev :
        (tenant : Uuid)
        → dev_tenant_id ≡ some tenant
        → is_empty (extract_api_key r) ≡ true
        → Passed r s (next (as_identity r (dev_identity tenant)) s)
    refused_missing :
        (message : Text)
        → dev_tenant_id ≡ none
        → is_empty (extract_api_key r) ≡ true
        → Passed r s (unauthorized message, s)
    refused :
        (e : Error) (s' : S)
        → verifier (extract_api_key r) s ≡ (err e, s')
        → is_empty (extract_api_key r) ≡ false
        → Passed r s (unauthorized (classify_auth_error e).1, s')

  -- Every request is passed on as a verified identity, passed on as the development tenant because it
  -- has no key, or answered 401 without running the handler; a key is always verified.
  pub api_key_auth-Passed :
      (r : HttpRequest) (s : S) → Passed r s (api_key_auth verifier dev_tenant_id next r s)
  unfolding api_key_auth
  api_key_auth-Passed r s = elim (Bool-cases (is_empty (extract_api_key r))) [
    | inl e ↦ rw e (dev dev_tenant_id refl e)
    | inr e ↦ rw e (judged (verifier (extract_api_key r) s) refl e)
  ]
    where
      dev :
          (o : Option Uuid)
          → dev_tenant_id ≡ o
          → is_empty (extract_api_key r) ≡ true
          → Passed r s (without_key verifier dev_tenant_id next r s o)
      dev none q e = refused_missing _ q e
      dev (some tenant) q e = as_dev tenant q e

      judged :
          (v : Result Identity × S)
          → verifier (extract_api_key r) s ≡ v
          → is_empty (extract_api_key r) ≡ false
          → Passed r s (verified verifier dev_tenant_id next r v)
      judged (ok i, s') q e = as_verified i s' q e
      judged (err x, s') q e = refused x s' q e

-- A refusal does not tell an unknown key from a fault of the look-up, nor from any other error that is
-- not that of a missing, expired or revoked key.
pub classify_auth_error_hides :
    (e : Error)
    → e ≢ err_key_missing
    → e ≢ err_key_expired
    → e ≢ err_key_revoked
    → classify_auth_error e ≡ classify_auth_error err_key_invalid
unfolding classify_auth_error
classify_auth_error_hides err_key_missing a b c = absurd (a refl)
classify_auth_error_hides err_key_expired a b c = absurd (b refl)
classify_auth_error_hides err_key_revoked a b c = absurd (c refl)
classify_auth_error_hides _ a b c = refl
