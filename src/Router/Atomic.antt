-- ===== src/Router/Atomic.antt =====
-- internal/adapter/http/handler: an endpoint that answers with an error leaves the tables as they were.
use scoreplay_media_api.Prelude.{ℕ, ◌≡◌, refl, Bool, true, false, Text, leb, arith}
use scoreplay_media_api.Result.{Error, Result, ok, err, err_validation}
use scoreplay_media_api.Domain.{Uuid, Context}
use scoreplay_media_api.Database.{Db, Env, Tx, with_tenant_tx}
use scoreplay_media_api.Database.Ensures.{with_tenant_tx_atomic}
use scoreplay_media_api.Name.{sanitize_name}
use scoreplay_media_api.Atoi.{ℤ}
use scoreplay_media_api.Cursor.{Codec, decode_cursor}
use scoreplay_media_api.TagRepo
use scoreplay_media_api.TagRepo.{TagCursor}
use scoreplay_media_api.MediaRepo
use scoreplay_media_api.MediaRepo.Listing
use scoreplay_media_api.MediaRepo.Listing.{MediaFilter, MediaCursor}
use scoreplay_media_api.Http.{HttpRequest, Response}
use scoreplay_media_api.Service.{
  FileStorage, App, Step, pure, raise, lift, refuse, continue, ◌>>=◌, query, create_tag, list_tags,
  rename_tag, delete_tag, get_media, sanitize_all, list_media, then_file, delete_media, detach_tag,
}
use scoreplay_media_api.Handler.{Parsed, stop, go, respond, serve, write_json}
use scoreplay_media_api.Handler.Tags
use scoreplay_media_api.Handler.Media
use scoreplay_media_api.Router.{
  Endpoint, tags_create, tags_list, tags_update, tags_delete, media_create, media_list, media_get,
  media_delete, media_attach, media_detach, Deps, Moment, endpoint,
}

-- A step whose error leaves the tables as they were.
abbrev IsAtomic : {A : Type 0} → Step A → Type 0
IsAtomic m = (app : App) (e : Error) → (m app).0 ≡ err e → (m app).1.db ≡ app.db

module _ {A B : Type 0} where
  lift-bind-IsAtomic :
      (r : Result A) (f : A → Step B) → ((a : A) → IsAtomic (f a)) → IsAtomic (lift r >>= f)
  unfolding ◌>>=◌ pure raise
  lift-bind-IsAtomic (ok a) f k app e h = k a app e h
  lift-bind-IsAtomic (err x) f k app e h = refl

  bind-pure-at :
      (r : Result A) (app app' : App) (f : A → B)
      → ((e : Error) → r ≡ err e → app'.db ≡ app.db)
      → (e : Error) → (continue r (λ a. pure (f a)) app').0 ≡ err e
      → (continue r (λ a. pure (f a)) app').1.db ≡ app.db
  unfolding pure raise
  bind-pure-at (ok a) app app' f k e h = absurd cc
  bind-pure-at (err x) app app' f k e h = k x refl

  -- What cannot fail after it does no harm.
  bind-pure-IsAtomic : (m : Step A) (f : A → B) → IsAtomic m → IsAtomic (m >>= λ a. pure (f a))
  unfolding ◌>>=◌
  bind-pure-IsAtomic m f k app e h = bind-pure-at (m app).0 app (m app).1 f (k app) e h

module _ (nfc : Text → Text) (envs : ℕ → Env) (ctx : Context) where
  -- A method of a repository.
  method-IsAtomic :
      {A : Type 0} (fn : Uuid → Tx A)
      → IsAtomic (query nfc envs ctx (λ env db. with_tenant_tx fn env ctx db))
  unfolding query
  method-IsAtomic fn app e h = with_tenant_tx_atomic fn (envs app.calls) ctx app.db e h

  refuse-bind-IsAtomic :
      {B : Type 0} (bad : Bool) (x : Error) (f : Unit {0} → Step B)
      → IsAtomic (f tt)
      → IsAtomic (refuse nfc envs ctx bad x >>= f)
  unfolding ◌>>=◌ pure raise
  refuse-bind-IsAtomic true x f k app e h = refl
  refuse-bind-IsAtomic false x f k app e h = k app e h

  create_tag-IsAtomic : (name : Text) → IsAtomic (create_tag nfc envs ctx name)
  unfolding create_tag TagRepo.create_or_get
  create_tag-IsAtomic name = lift-bind-IsAtomic (sanitize_name nfc name) _ (λ s. method-IsAtomic _)

  list_tags-IsAtomic :
      (codec : Codec TagCursor) (limit : ℤ) (cursor : Text)
      → IsAtomic (list_tags nfc envs ctx codec limit cursor)
  unfolding list_tags TagRepo.list
  list_tags-IsAtomic codec limit cursor =
      lift-bind-IsAtomic (decode_cursor codec cursor) _
        (λ c. bind-pure-IsAtomic _ _ (method-IsAtomic _))

  rename_tag-IsAtomic : (id : Uuid) (name : Text) → IsAtomic (rename_tag nfc envs ctx id name)
  unfolding rename_tag TagRepo.rename
  rename_tag-IsAtomic id name =
      lift-bind-IsAtomic (sanitize_name nfc name) _ (λ s. method-IsAtomic _)

  delete_tag-IsAtomic : (id : Uuid) → IsAtomic (delete_tag nfc envs ctx id)
  unfolding delete_tag TagRepo.delete
  delete_tag-IsAtomic id = method-IsAtomic _

  get_media-IsAtomic : (id : Uuid) → IsAtomic (get_media nfc envs ctx id)
  unfolding get_media MediaRepo.get_by_id
  get_media-IsAtomic id = method-IsAtomic _

  detach_tag-IsAtomic : (media tag : Uuid) → IsAtomic (detach_tag nfc envs ctx media tag)
  unfolding detach_tag MediaRepo.detach_tag
  detach_tag-IsAtomic media tag = method-IsAtomic _

  list_media-IsAtomic :
      (codec : Codec MediaCursor) (limit : ℤ) (cursor : Text) (f : MediaFilter)
      → IsAtomic (list_media nfc envs ctx codec limit cursor f)
  unfolding list_media Listing.list
  list_media-IsAtomic codec limit cursor f = lift-bind-IsAtomic (decode_cursor codec cursor) _ (λ c.
      refuse-bind-IsAtomic _ err_validation _ (
        lift-bind-IsAtomic (sanitize_all nfc envs ctx f.tag_names) _
          (λ names. bind-pure-IsAtomic _ _ (method-IsAtomic _))))

  then_file-at :
      (storage : FileStorage) (db : Db) (r : Result Text) (app : App)
      → ((e : Error) → r ≡ err e → app.db ≡ db)
      → (e : Error) → (then_file nfc envs ctx storage (r, app)).0 ≡ err e
      → (then_file nfc envs ctx storage (r, app)).1.db ≡ db
  then_file-at storage db (ok path) app k e h = absurd cc
  then_file-at storage db (err x) app k e h = k x refl

  delete_media-IsAtomic :
      (storage : FileStorage) (id : Uuid) → IsAtomic (delete_media nfc envs ctx storage id)
  unfolding delete_media MediaRepo.delete
  delete_media-IsAtomic storage id app e h =
      then_file-at storage app.db _ _ (method-IsAtomic _ app) e h

-- A response that says that something went wrong.
abbrev pub is_error : Response → Bool
is_error w = leb 400 w.status

respond-atomic :
    {B : Type 0} (reply : B → Response) (fail : Error → Response) (r : Result B) (app app' : App)
    → ((b : B) → is_error (reply b) ≡ false)
    → ((e : Error) → r ≡ err e → app'.db ≡ app.db)
    → is_error (respond reply fail (r, app')).0 ≡ true
    → (respond reply fail (r, app')).1.db ≡ app.db
respond-atomic reply fail (ok b) app app' good k h = let g = good b in absurd (ground arith)
respond-atomic reply fail (err e) app app' good k h = k e refl

serve-atomic :
    {A B : Type 0} (p : Parsed A) (act : A → Step B) (reply : B → Response)
    (fail : Error → Response) (app : App)
    → ((b : B) → is_error (reply b) ≡ false)
    → ((a : A) → IsAtomic (act a))
    → is_error (serve p act reply fail app).0 ≡ true
    → (serve p act reply fail app).1.db ≡ app.db
unfolding serve
serve-atomic (stop w) act reply fail app good k h = refl
serve-atomic (go a) act reply fail app good k h =
    respond-atomic reply fail (act a app).0 app (act a app).1 good (k a app) h

-- The endpoints that create tags on their way.
abbrev pub creates_tags : Endpoint → Bool
creates_tags media_create = true
creates_tags media_attach = true
creates_tags _ = false

-- Whatever the database does to a request, an endpoint that answers it with a status of 400 or more
-- leaves every table as it was; but for the upload and the attachment of tags, which may have created
-- tags by then.
pub endpoint_error_atomic :
    (deps : Deps) (m : Moment) (e : Endpoint) (r : HttpRequest) (app : App)
    → creates_tags e ≡ false
    → is_error (endpoint deps m e r app).0 ≡ true
    → (endpoint deps m e r app).1.db ≡ app.db
unfolding endpoint Tags.create Tags.list Tags.update Tags.delete Media.get_by_id Media.list
    Media.delete Media.detach Tags.created_tag Media.write_media write_json
endpoint_error_atomic deps m tags_create r app h =
    serve-atomic _ _ _ _ app (λ (t, created). ground arith) (λ a. create_tag-IsAtomic _ _ _ a)
endpoint_error_atomic deps m tags_list r app h =
    serve-atomic _ _ _ _ app (λ b. refl) (λ a. list_tags-IsAtomic _ _ _ _ _ _)
endpoint_error_atomic deps m tags_update r app h =
    serve-atomic _ _ _ _ app (λ b. refl) (λ a. rename_tag-IsAtomic _ _ _ _ _)
endpoint_error_atomic deps m tags_delete r app h =
    serve-atomic _ _ _ _ app (λ b. refl) (λ a. delete_tag-IsAtomic _ _ _ _)
endpoint_error_atomic deps m media_create r app h = absurd (ground arith)
endpoint_error_atomic deps m media_list r app h =
    serve-atomic _ _ _ _ app (λ b. refl) (λ a. list_media-IsAtomic _ _ _ _ _ _ _)
endpoint_error_atomic deps m media_get r app h =
    serve-atomic _ _ _ _ app (λ b. refl) (λ a. get_media-IsAtomic _ _ _ _)
endpoint_error_atomic deps m media_delete r app h =
    serve-atomic _ _ _ _ app (λ b. refl) (λ a. delete_media-IsAtomic _ _ _ _ _)
endpoint_error_atomic deps m media_attach r app h = absurd (ground arith)
endpoint_error_atomic deps m media_detach r app h =
    serve-atomic _ _ _ _ app (λ b. refl) (λ a. detach_tag-IsAtomic _ _ _ _ _)
