-- ===== src/Router/Effects.antt =====
-- internal/adapter/server/router.go: what an endpoint does to the tables is what repository calls do.
use scoreplay_media_api.Prelude.{ℕ, refl, Option, none, some, Text, inl, inr, Bool-cases, is_empty}
use scoreplay_media_api.Result.{Error, Result, ok, err}
use scoreplay_media_api.Domain.{Context}
use scoreplay_media_api.Database.{Db}
use scoreplay_media_api.Http.{HttpRequest, Response, header}
use scoreplay_media_api.Service.{App, Step}
use scoreplay_media_api.Service.Refinement
use scoreplay_media_api.Service.Refinement.{IsRun, IsRun-none, IsRun-then, Tracks, Tracks-query}
use scoreplay_media_api.Tenancy
use scoreplay_media_api.Tenancy.{run}
use scoreplay_media_api.Idempotency
use scoreplay_media_api.Idempotency.{IdempotencyStore, remember, answer, idempotency, is_success}
use scoreplay_media_api.Handler.{Parsed, stop, go, respond, serve}
use scoreplay_media_api.Handler.Tags
use scoreplay_media_api.Handler.Media
use scoreplay_media_api.Router.{
  Endpoint, tags_create, tags_list, tags_update, tags_delete, media_create, media_list, media_get,
  media_delete, media_attach, media_detach, Deps, Moment, endpoint, app_store, api_handler,
}

module _ (ctx : Context) where
  respond-IsRun :
      {B : Type 0} (reply : B → Response) (fail : Error → Response) (db : Db) (r : Result B)
      (app : App)
      → IsRun ctx db app.db
      → IsRun ctx db (respond reply fail (r, app)).1.db
  respond-IsRun reply fail db (ok b) app h = h
  respond-IsRun reply fail db (err e) app h = h

  serve-IsRun :
      {A B : Type 0} (p : Parsed A) (act : A → Step B) (reply : B → Response)
      (fail : Error → Response) (app : App)
      → ((a : A) → Tracks ctx (act a))
      → IsRun ctx app.db (serve p act reply fail app).1.db
  unfolding serve
  serve-IsRun (stop w) act reply fail app k = IsRun-none ctx app.db
  serve-IsRun (go a) act reply fail app k =
      respond-IsRun reply fail app.db (act a app).0 (act a app).1 (k a app)

module _ (deps : Deps) (m : Moment) where
  endpoint-IsRun :
      (e : Endpoint) (r : HttpRequest) (app : App)
      → IsRun r.ctx app.db (endpoint deps m e r app).1.db
  unfolding endpoint Tags.create Tags.list Tags.update Tags.delete Media.create Media.get_by_id
      Media.list Media.delete Media.attach Media.detach
  endpoint-IsRun tags_create r app =
      serve-IsRun r.ctx _ _ _ _ app (λ a. Refinement.create_tag-Tracks _ _ _ _)
  endpoint-IsRun tags_list r app =
      serve-IsRun r.ctx _ _ _ _ app (λ a. Refinement.list_tags-Tracks _ _ _ _ _ _)
  endpoint-IsRun tags_update r app =
      serve-IsRun r.ctx _ _ _ _ app (λ a. Refinement.rename_tag-Tracks _ _ _ _ _)
  endpoint-IsRun tags_delete r app =
      serve-IsRun r.ctx _ _ _ _ app (λ a. Refinement.delete_tag-Tracks _ _ _ _)
  endpoint-IsRun media_create r app =
      serve-IsRun r.ctx _ _ _ _ app (λ a. Refinement.create_media-Tracks _ _ _ _ _)
  endpoint-IsRun media_list r app =
      serve-IsRun r.ctx _ _ _ _ app (λ a. Refinement.list_media-Tracks _ _ _ _ _ _ _)
  endpoint-IsRun media_get r app =
      serve-IsRun r.ctx _ _ _ _ app (λ a. Refinement.get_media-Tracks _ _ _ _)
  endpoint-IsRun media_delete r app =
      serve-IsRun r.ctx _ _ _ _ app (λ a. Refinement.delete_media-Tracks _ _ _ _ _)
  endpoint-IsRun media_attach r app =
      serve-IsRun r.ctx _ _ _ _ app (λ a. Refinement.attach_tags-Tracks _ _ _ _ _ _)
  endpoint-IsRun media_detach r app =
      serve-IsRun r.ctx _ _ _ _ app (λ a. Refinement.detach_tag-Tracks _ _ _ _ _)

  look_up-Tracks : (ctx : Context) (key : Text) → Tracks ctx ((app_store deps m).look_up ctx key)
  unfolding run
  look_up-Tracks ctx key =
      Tracks-query deps.nfc m.envs ctx (Tenancy.get_response key) _ (λ env db. refl)

  insert-Tracks :
      (ctx : Context) (key : Text) (status : ℕ) (body : Text)
      → Tracks ctx ((app_store deps m).insert ctx key status body)
  unfolding run
  insert-Tracks ctx key status body =
      Tracks-query deps.nfc m.envs ctx (Tenancy.set_response key status body) _ (λ env db. refl)

  remember-IsRun :
      (ctx : Context) (key : Text) (db : Db) (w : Response) (app : App)
      → IsRun ctx db app.db
      → IsRun ctx db (remember (app_store deps m) ctx key (w, app)).1.db
  unfolding remember
  remember-IsRun ctx key db w app h = elim (Bool-cases (is_success w.status)) [
    | inl e ↦ rw e (IsRun-then ctx db app.db _ h (insert-Tracks ctx key w.status w.body app))
    | inr e ↦ rw e h
  ]

  answer-IsRun :
      (e : Endpoint) (r : HttpRequest) (key : Text) (db : Db) (f : Result (Option (ℕ × Text)))
      (app : App)
      → IsRun r.ctx db app.db
      → IsRun r.ctx db (answer (app_store deps m) (endpoint deps m e) r key (f, app)).1.db
  answer-IsRun e r key db (err x) app h = IsRun-then r.ctx db app.db _ h (endpoint-IsRun e r app)
  answer-IsRun e r key db (ok (some w)) app h = h
  answer-IsRun e r key db (ok none) app h =
      remember-IsRun r.ctx key db (endpoint deps m e r app).0 (endpoint deps m e r app).1
        (IsRun-then r.ctx db app.db _ h (endpoint-IsRun e r app))

  idempotent-IsRun :
      (e : Endpoint) (r : HttpRequest) (app : App)
      → IsRun r.ctx app.db (idempotency (app_store deps m) (endpoint deps m e) r app).1.db
  unfolding idempotency
  idempotent-IsRun e r app =
      elim (Bool-cases (is_empty (header Idempotency.idempotency_key_header r.headers))) [
        | inl q ↦ rw q (endpoint-IsRun e r app)
        | inr q ↦ rw q (answer-IsRun e r _ app.db _ _ (look_up-Tracks r.ctx _ app))
      ]

  -- An endpoint, with the idempotency before the upload.
  pub api_handler-IsRun :
      (e : Endpoint) (r : HttpRequest) (app : App)
      → IsRun r.ctx app.db (api_handler deps m e r app).1.db
  unfolding api_handler
  api_handler-IsRun tags_create r app = endpoint-IsRun tags_create r app
  api_handler-IsRun tags_list r app = endpoint-IsRun tags_list r app
  api_handler-IsRun tags_update r app = endpoint-IsRun tags_update r app
  api_handler-IsRun tags_delete r app = endpoint-IsRun tags_delete r app
  api_handler-IsRun media_create r app = idempotent-IsRun media_create r app
  api_handler-IsRun media_list r app = endpoint-IsRun media_list r app
  api_handler-IsRun media_get r app = endpoint-IsRun media_get r app
  api_handler-IsRun media_delete r app = endpoint-IsRun media_delete r app
  api_handler-IsRun media_attach r app = endpoint-IsRun media_attach r app
  api_handler-IsRun media_detach r app = endpoint-IsRun media_detach r app
