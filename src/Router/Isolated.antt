-- ===== src/Router/Isolated.antt =====
-- internal/adapter/server/router.go: what a request does to the tables, through all middlewares.
use scoreplay_media_api.Prelude.{
  ◌≡◌, ◌≢◌, refl, sym, ◌∙◌, ap, Bool, true, false, not, [], ◌∷◌, some, Text, codes, text_eq,
  text_eq→eq, filter, inl, inr, Bool-cases, arith, All-map, is_empty,
}
use mathlib.Core.Path.{subst}
use scoreplay_media_api.Result.{ok}
use scoreplay_media_api.Domain.{
  Uuid, Identity, Context, with_identity, tenant_id_from_context, identity_from_context,
}
use scoreplay_media_api.Database.{Db}
use scoreplay_media_api.Database.Valid.{IsValid, SameRows, SameRows-refl}
use scoreplay_media_api.Http.{HttpRequest, Response, Headers, Handler, header}
use scoreplay_media_api.Service.{App}
use scoreplay_media_api.Service.Refinement.{IsRun, IsRun-none}
use scoreplay_media_api.Tenancy.{Request}
use scoreplay_media_api.Tenancy.Isolation.{run_all-SameRows}
use scoreplay_media_api.RateLimit.{Buckets}
use scoreplay_media_api.Auth.{extract_api_key, as_identity, dev_identity}
use scoreplay_media_api.Auth.Refusal
use scoreplay_media_api.Auth.Refusal.{Passed, api_key_auth-Passed}
use scoreplay_media_api.Middleware.{
  set_header, x_request_id, request_id_of, request_id, security_headers, is_preflight, cors,
  admitted, rate_limit, recovery,
}
use scoreplay_media_api.Router.{
  healthz, readyz, metrics, uploads, api, Match, found, unknown_api, unknown, Deps, Moment,
  SignedIn, beside, api_handler, verifier, signed_in, dispatch, mux, compressed, server,
}
use scoreplay_media_api.Router.Effects.{api_handler-IsRun}

header-filter :
    (name k : Text) (hs : Headers)
    → text_eq k name ≡ false
    → header name (filter (λ h. not (text_eq h.0 k)) hs) ≡ header name hs
unfolding header filter
header-filter name k [] other = refl
header-filter name k ((n, v) ∷ hs) other =
    let ih = header-filter name k hs other in
    elim (Bool-cases (text_eq n k)) [
      | inl e ↦
          let q : text_eq n name ≡ false =
            subst (λ t. text_eq t name ≡ false) (sym (text_eq→eq n k e)) other in
          rw (e, q) ih
      | inr e ↦ rw (e, header) (ground (arith, ih))
    ]

header-set_header :
    (name k v : Text) (hs : Headers)
    → text_eq k name ≡ false
    → header name (set_header k v hs) ≡ header name hs
unfolding header set_header
header-set_header name k v hs other = rw other (header-filter name k hs other)

-- The middlewares before the authentication leave the key of a request.
same_key :
    (id address : Text) (r : HttpRequest)
    → extract_api_key
        (record r { headers = set_header x_request_id id r.headers; remote_addr = address })
      ≡ extract_api_key r
unfolding extract_api_key text_eq
same_key id address r =
    rw
      (
        header-set_header (codes "X-Api-Key") x_request_id id r.headers refl,
        header-set_header (codes "Authorization") x_request_id id r.headers refl,
      )
      refl

abbrev pub acting : Identity → Context
acting i = record { identity = some i }

module _ (deps : Deps) (m : Moment) where
  -- What a request with a key does to the tables, by whom.
  pub data Effect (key : Text) (s : SignedIn) : Db → Type 0 where
    untouched : Effect key s s.1.db
    by_key :
        (i : Identity) (db : Db)
        → (verifier deps m key s).0 ≡ ok i
        → is_empty key ≡ false
        → IsRun (acting i) s.1.db db
        → Effect key s db
    by_dev :
        (tenant : Uuid) (db : Db)
        → deps.dev_tenant_id ≡ some tenant
        → is_empty key ≡ true
        → IsRun (acting (dev_identity tenant)) s.1.db db
        → Effect key s db

  abbrev Runs : Handler App → Type 0
  Runs next = (r : HttpRequest) (app : App) → IsRun r.ctx app.db (next r app).1.db

  signed_in-Effect :
      (next : Handler App)
      → Runs next
      → (r : HttpRequest) (s : SignedIn)
      → Effect (extract_api_key r) s (signed_in deps m next r s).1.1.db
  unfolding with_identity
  signed_in-Effect next k r s =
      judged _ (api_key_auth-Passed (verifier deps m) deps.dev_tenant_id (beside next) r s)
    where
      judged :
          (out : Response × SignedIn)
          → Passed (verifier deps m) deps.dev_tenant_id (beside next) r s out
          → Effect (extract_api_key r) s out.1.1.db
      judged _ (Refusal.as_verified i s' q e) = by_key i _ (ap (λ o. o.0) q) e (
          subst (λ (a : App). IsRun (acting i) s.1.db (next (as_identity r i) a).1.db)
            (ap (λ o. o.1.1) q) (k _ s.1))
      judged _ (Refusal.as_dev tenant q e) = by_dev tenant _ q e (k _ s.1)
      judged _ (Refusal.refused_missing message q e) = untouched
      judged _ (Refusal.refused x s' q e) =
          subst (λ (a : App). Effect (extract_api_key r) s a.db) (ap (λ o. o.1.1) q) untouched

  dispatch-Effect :
      (t : Match) (r : HttpRequest) (s : SignedIn)
      → Effect (extract_api_key r) s (dispatch deps m t r s).1.1.db
  unfolding dispatch extract_api_key
  dispatch-Effect (found (api e) params) r s =
      signed_in-Effect (api_handler deps m e) (api_handler-IsRun deps m e) _ s
  dispatch-Effect (found healthz params) r s = untouched
  dispatch-Effect (found readyz params) r s = untouched
  dispatch-Effect (found metrics params) r s = untouched
  dispatch-Effect (found uploads params) r s = untouched
  dispatch-Effect (unknown_api w) r s =
      signed_in-Effect (λ q app. (w, app)) (λ q app. IsRun-none q.ctx app.db) r s
  dispatch-Effect (unknown w) r s = untouched

  rate_limit-Effect :
      (r : HttpRequest) (s : SignedIn) (b : Bool × Buckets)
      → Effect
          (extract_api_key r)
          s
          (admitted (security_headers (compressed deps m (mux deps m))) r s b).1.1.1.db
  unfolding security_headers
  rate_limit-Effect r s (true, b) = dispatch-Effect _ r s
  rate_limit-Effect r s (false, b) = untouched

  cors-Effect :
      (r : HttpRequest) (b : Buckets) (s : SignedIn)
      → Effect
          (extract_api_key r)
          s
          (cors deps.cors_origins
            (rate_limit deps.limits m.now (security_headers (compressed deps m (mux deps m))))
            r
            (b, s)).1.1.1.db
  unfolding cors rate_limit
  cors-Effect r b s = elim (Bool-cases (is_preflight r)) [
    | inl e ↦ rw e untouched
    | inr e ↦ rw e (rate_limit-Effect r s _)
  ]

  -- The request behind RequestID and RealIP.
  abbrev passed_on : HttpRequest → HttpRequest
  passed_on r =
      let q = record r {
        headers = set_header x_request_id (request_id_of m.drawn_id r) r.headers;
      } in
      record q { remote_addr = deps.real_ip q }

  -- Whatever a request asks for and whatever faults the database has, the tables after all middlewares
  -- are those before, or those after some repository calls that all run as the identity that the
  -- verifier gave for the key of the request, or, for a request without a key, as the development
  -- tenant.
  pub server-Effect :
      (r : HttpRequest) (b : Buckets) (s : SignedIn)
      → Effect (extract_api_key r) s (server deps m r (b, s)).1.1.1.db
  unfolding server request_id recovery
  server-Effect r b s =
      subst (λ k. Effect k s (server deps m r (b, s)).1.1.1.db) (same_key _ _ r)
        (cors-Effect (passed_on r) b s)

  acting-Foreign :
      (i : Identity) (u : Uuid) → i.tenant_id ≢ u → tenant_id_from_context (acting i) ≢ ok u
  unfolding tenant_id_from_context identity_from_context
  acting-Foreign i u ne e = ne cc

  IsRun-SameRows :
      (u : Uuid) (i : Identity) (db db' : Db)
      → IsValid db
      → i.tenant_id ≢ u
      → IsRun (acting i) db db'
      → SameRows u db db'
  IsRun-SameRows u i db db' v ne h =
      subst (λ d. SameRows u db d) h.result
        (run_all-SameRows u h.requests db v (
          All-map _ _
            (λ (q : Request) (e : q.ctx ≡ acting i).
              subst (λ c. tenant_id_from_context c ≢ ok u) (sym e) (acting-Foreign i u ne))
            _ h.own))

  Effect-SameRows :
      (u : Uuid) (key : Text) (s : SignedIn) (db : Db)
      → IsValid s.1.db
      → ((i : Identity) → (verifier deps m key s).0 ≡ ok i → i.tenant_id ≢ u)
      → deps.dev_tenant_id ≢ some u
      → Effect key s db
      → SameRows u s.1.db db
  Effect-SameRows u key s _ v k d untouched = SameRows-refl u s.1.db
  Effect-SameRows u key s db v k d (by_key i _ q e h) = IsRun-SameRows u i s.1.db db v (k i q) h
  Effect-SameRows u key s db v k d (by_dev tenant _ q e h) =
      IsRun-SameRows u (dev_identity tenant) s.1.db db v (λ p. d (q ∙ ap some p)) h

  -- A request whose key does not verify as an identity of the tenant `u` leaves the tags, the media
  -- items, the links and the stored responses of `u` as they are, through all middlewares and whatever
  -- it asks for; the constraints of the schema hold before it, and `u` is not the development tenant.
  pub server-SameRows :
      (u : Uuid) (r : HttpRequest) (b : Buckets) (s : SignedIn)
      → IsValid s.1.db
      → ((i : Identity) → (verifier deps m (extract_api_key r) s).0 ≡ ok i → i.tenant_id ≢ u)
      → deps.dev_tenant_id ≢ some u
      → SameRows u s.1.db (server deps m r (b, s)).1.1.1.db
  server-SameRows u r b s v k d =
      Effect-SameRows u (extract_api_key r) s _ v k d (server-Effect r b s)
