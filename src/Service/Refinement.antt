-- ===== src/Service/Refinement.antt =====
-- internal/service: what the services do to the tables is what a sequence of repository calls does.
use scoreplay_media_api.Prelude.{
  ℕ, ◌≡◌, refl, ◌∙◌, ap, Bool, true, false, List, [], ◌∷◌, ◌++◌, Text, All,
}
use scoreplay_media_api.Result.{Error, Result, ok, err, err_validation}
use scoreplay_media_api.Domain.{Uuid, MediaType, Tag, Media, Context}
use scoreplay_media_api.Database.{Db, Env}
use scoreplay_media_api.Name.{sanitize_name}
use scoreplay_media_api.Upload.{deduplicate_uuids, classify_content_type}
use scoreplay_media_api.Cursor.{Codec, decode_cursor}
use scoreplay_media_api.Atoi.{ℤ}
use scoreplay_media_api.TagRepo
use scoreplay_media_api.TagRepo.{TagCursor}
use scoreplay_media_api.MediaRepo
use scoreplay_media_api.MediaRepo.Listing.{MediaFilter, MediaCursor}
use scoreplay_media_api.Tenancy
use scoreplay_media_api.Tenancy.{Call, Request, run, run_all}
use scoreplay_media_api.Service.{
  FileStorage, App, Step, pure, raise, lift, continue, ◌>>=◌, CreateInput, query, refuse,
  create_tag, list_tags, rename_tag, delete_tag, resolve_names, get_media, refresh, attach_tags,
  detach_tag, sanitize_all, list_media, save_file, try_delete_file, or_delete, insert_record,
  create_media, then_file, delete_media,
}

-- Some calls, all in one context, that take the tables from one state to another.
pub record IsRun (ctx : Context) (db db' : Db) : Type 0 where
  pub requests : List Request
  pub own : All (λ q. q.ctx ≡ ctx) requests
  pub result : run_all requests db ≡ db'

run_all-append :
    (ps qs : List Request) (db : Db) → run_all (ps ++ qs) db ≡ run_all qs (run_all ps db)
unfolding run_all
run_all-append [] qs db = refl
run_all-append (p ∷ ps) qs db = run_all-append ps qs _

own-append :
    (ctx : Context) (ps qs : List Request)
    → All (λ q. q.ctx ≡ ctx) ps
    → All (λ q. q.ctx ≡ ctx) qs
    → All (λ q. q.ctx ≡ ctx) (ps ++ qs)
own-append ctx [] qs h k = k
own-append ctx (p ∷ ps) qs h k = (h.0, own-append ctx ps qs h.1 k)

module _ (ctx : Context) where
  pub IsRun-none : (db : Db) → IsRun ctx db db
  unfolding run_all
  IsRun-none db = record { requests = []; own = tt; result = refl }

  IsRun-one : (env : Env) (call : Call) (db : Db) → IsRun ctx db (run env ctx call db)
  unfolding run_all
  IsRun-one env call db = record {
    requests = record { env = env; ctx = ctx; call = call } ∷ [];
    own = (refl, tt);
    result = refl;
  }

  pub IsRun-then : (a b c : Db) → IsRun ctx a b → IsRun ctx b c → IsRun ctx a c
  IsRun-then a b c h k = record {
    requests = h.requests ++ k.requests;
    own = own-append ctx h.requests k.requests h.own k.own;
    result = run_all-append h.requests k.requests a ∙ ap (run_all k.requests) h.result ∙ k.result;
  }

-- A step whose effect on the tables is that of some calls, whether it fails or not.
abbrev pub Tracks : {A : Type 0} → Context → Step A → Type 0
Tracks ctx m = (app : App) → IsRun ctx app.db (m app).1.db

module _ (A : Type 0) (ctx : Context) where
  Tracks-raise : (e : Error) → Tracks ctx (raise {A = A} e)
  unfolding raise
  Tracks-raise e app = IsRun-none ctx app.db

module _ {A : Type 0} (ctx : Context) where
  Tracks-pure : (a : A) → Tracks ctx (pure a)
  unfolding pure
  Tracks-pure a app = IsRun-none ctx app.db

  Tracks-lift : (r : Result A) → Tracks ctx (lift r)
  Tracks-lift (ok a) = Tracks-pure a
  Tracks-lift (err e) = Tracks-raise A ctx e

module _ {A B : Type 0} (ctx : Context) where
  Tracks-bind :
      (m : Step A) (f : A → Step B)
      → Tracks ctx m
      → ((a : A) → Tracks ctx (f a))
      → Tracks ctx (m >>= f)
  unfolding ◌>>=◌
  Tracks-bind m f k g app = go (m app).0 (m app).1 (k app)
    where
      go :
          (r : Result A) (app' : App)
          → IsRun ctx app.db app'.db
          → IsRun ctx app.db (continue r f app').1.db
      go (ok a) app' h = IsRun-then ctx app.db app'.db _ h (g a app')
      go (err e) app' h = IsRun-then ctx app.db app'.db _ h (Tracks-raise B ctx e app')

module _ (nfc : Text → Text) (envs : ℕ → Env) (ctx : Context) where
  Tracks-refuse : (bad : Bool) (e : Error) → Tracks ctx (refuse nfc envs ctx bad e)
  Tracks-refuse true e = Tracks-lift ctx (err e)
  Tracks-refuse false e = Tracks-pure ctx tt

  -- A call of a repository.
  pub Tracks-query :
      {A : Type 0} (call : Call) (f : Env → Db → Result A × Db)
      → ((env : Env) (db : Db) → (f env db).1 ≡ run env ctx call db)
      → Tracks ctx (query nfc envs ctx f)
  unfolding query
  Tracks-query call f same app =
      rw (same (envs app.calls) app.db) (IsRun-one ctx (envs app.calls) call app.db)

  -- TagService
  pub create_tag-Tracks : (name : Text) → Tracks ctx (create_tag nfc envs ctx name)
  unfolding create_tag run
  create_tag-Tracks name =
      Tracks-bind ctx _ _ (Tracks-lift ctx (sanitize_name nfc name))
        (λ s. Tracks-query (Tenancy.create_tag s) _ (λ env db. refl))

  pub list_tags-Tracks :
      (codec : Codec TagCursor) (limit : ℤ) (cursor : Text)
      → Tracks ctx (list_tags nfc envs ctx codec limit cursor)
  unfolding list_tags run
  list_tags-Tracks codec limit cursor =
      Tracks-bind ctx _ _ (Tracks-lift ctx (decode_cursor codec cursor)) (λ c.
        Tracks-bind ctx _ _ (Tracks-query (Tenancy.list_tags _ c) _ (λ env db. refl))
          (λ page. Tracks-pure ctx _))

  pub rename_tag-Tracks : (id : Uuid) (name : Text) → Tracks ctx (rename_tag nfc envs ctx id name)
  unfolding rename_tag run
  rename_tag-Tracks id name =
      Tracks-bind ctx _ _ (Tracks-lift ctx (sanitize_name nfc name))
        (λ s. Tracks-query (Tenancy.rename_tag id s) _ (λ env db. refl))

  pub delete_tag-Tracks : (id : Uuid) → Tracks ctx (delete_tag nfc envs ctx id)
  unfolding delete_tag run
  delete_tag-Tracks id = Tracks-query (Tenancy.delete_tag id) _ (λ env db. refl)

  abbrev create_or_get_call : Text → Env → Db → Result (Tag × Bool) × Db
  create_or_get_call name env db = TagRepo.create_or_get env ctx name db

  created : (name : Text) → Tracks ctx (query nfc envs ctx (create_or_get_call name))
  unfolding run
  created name = Tracks-query (Tenancy.create_tag name) (create_or_get_call name) (λ env db. refl)

  resolve_names-Tracks : (names : List Text) → Tracks ctx (resolve_names nfc envs ctx names)
  unfolding resolve_names run
  resolve_names-Tracks [] = Tracks-pure ctx []
  resolve_names-Tracks (n ∷ names) =
      Tracks-bind ctx _ _ (Tracks-lift ctx (sanitize_name nfc n)) (λ s.
        Tracks-bind ctx _ _ (created s)
          (λ found. Tracks-bind ctx _ _ (resolve_names-Tracks names) (λ rest. Tracks-pure ctx _)))

  -- MediaService
  pub get_media-Tracks : (id : Uuid) → Tracks ctx (get_media nfc envs ctx id)
  unfolding get_media run
  get_media-Tracks id = Tracks-query (Tenancy.get_media id) _ (λ env db. refl)

  pub detach_tag-Tracks : (media tag : Uuid) → Tracks ctx (detach_tag nfc envs ctx media tag)
  unfolding detach_tag run
  detach_tag-Tracks media tag = Tracks-query (Tenancy.detach_tag media tag) _ (λ env db. refl)

  refreshed : (id : Uuid) → Tracks ctx (refresh nfc envs ctx id)
  unfolding run
  refreshed id = Tracks-query (Tenancy.get_media id) _ (λ env db. refl)

  abbrev attach_call : Uuid → List Uuid → Env → Db → Result (Unit {0}) × Db
  attach_call media ids env db = MediaRepo.attach_tags env ctx media ids db

  linked :
      (media : Uuid) (ids : List Uuid) → Tracks ctx (query nfc envs ctx (attach_call media ids))
  unfolding run
  linked media ids =
      Tracks-query (Tenancy.attach_tags media ids) (attach_call media ids) (λ env db. refl)

  pub attach_tags-Tracks :
      (media : Uuid) (ids : List Uuid) (names : List Text)
      → Tracks ctx (attach_tags nfc envs ctx media ids names)
  unfolding attach_tags run
  attach_tags-Tracks media ids names = Tracks-bind ctx _ _ (Tracks-refuse _ err_validation) (λ _.
      Tracks-bind ctx _ _ (resolve_names-Tracks names) (λ resolved.
        Tracks-bind ctx _ _ (linked media (deduplicate_uuids (ids ++ resolved)))
          (λ _. refreshed media)))

  pub list_media-Tracks :
      (codec : Codec MediaCursor) (limit : ℤ) (cursor : Text) (f : MediaFilter)
      → Tracks ctx (list_media nfc envs ctx codec limit cursor f)
  unfolding list_media run
  list_media-Tracks codec limit cursor f =
      Tracks-bind ctx _ _ (Tracks-lift ctx (decode_cursor codec cursor)) (λ c.
        Tracks-bind ctx _ _ (Tracks-refuse _ err_validation) (λ _.
          Tracks-bind ctx _ _ (Tracks-lift ctx (sanitize_all nfc envs ctx f.tag_names)) (λ names.
            Tracks-bind ctx _ _ (Tracks-query (Tenancy.list_media _ c _) _ (λ env db. refl))
              (λ page. Tracks-pure ctx _))))

  module _ (storage : FileStorage) where
    or_delete-IsRun :
        (db : Db) (path : Text) (r : Result Media × App)
        → IsRun ctx db r.1.db
        → IsRun ctx db (or_delete nfc envs ctx storage path r).1.db
    unfolding or_delete try_delete_file
    or_delete-IsRun db path (ok m, app) h = h
    or_delete-IsRun db path (err e, app) h = h

    insert_record-Tracks :
        (name : Text) (ids : List Uuid) (input : CreateInput) (kind : MediaType × Text)
        → Tracks ctx (insert_record nfc envs ctx storage name ids input kind)
    unfolding insert_record save_file run
    insert_record-Tracks name ids input kind =
        Tracks-bind ctx _ _ (λ app. IsRun-none ctx app.db)
          (λ path app.
            or_delete-IsRun app.db path _
              (Tracks-query (Tenancy.create_media _ ids) _ (λ env db. refl) app))

    pub create_media-Tracks :
        (input : CreateInput) → Tracks ctx (create_media nfc envs ctx storage input)
    unfolding create_media
    create_media-Tracks input =
        Tracks-bind ctx _ _ (Tracks-lift ctx (sanitize_name nfc input.name)) (λ name.
          Tracks-bind ctx _ _ (Tracks-refuse _ err_validation) (λ _.
            Tracks-bind ctx _ _ (resolve_names-Tracks input.tag_names) (λ resolved.
              Tracks-bind ctx _ _
                (Tracks-lift ctx (classify_content_type input.content_type input.file_name))
                (λ kind. insert_record-Tracks name _ input kind))))

    then_file-IsRun :
        (db : Db) (r : Result Text × App)
        → IsRun ctx db r.1.db
        → IsRun ctx db (then_file nfc envs ctx storage r).1.db
    unfolding try_delete_file
    then_file-IsRun db (ok path, app) h = h
    then_file-IsRun db (err e, app) h = h

    pub delete_media-Tracks : (id : Uuid) → Tracks ctx (delete_media nfc envs ctx storage id)
    unfolding delete_media run
    delete_media-Tracks id app =
        then_file-IsRun app.db _ (Tracks-query (Tenancy.delete_media id) _ (λ env db. refl) app)
