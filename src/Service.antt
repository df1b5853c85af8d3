-- ===== src/Service.antt =====
-- internal/service/tag_service.go and media_service.go: the services over the repositories and a file
-- storage. A storage is an interface (internal/port/storage.go), and every call of a repository or of
-- the storage has an environment of its own.
pub mod Bounds
pub mod Consistency
pub mod Deletion
pub mod Refinement
mod Tests
use scoreplay_media_api.Prelude.{
  ℕ, zero, suc, ◌+◌, Bool, true, false, ◌||◌, List, [], ◌∷◌, ◌++◌, Option, none, some, Text,
  text_eq, is_empty, length, ltb, min, if◌then◌else◌,
}
use scoreplay_media_api.Atoi.{ℤ, pos, negsuc}
use scoreplay_media_api.Result.{Error, Result, ok, err, err_validation, internal}
use scoreplay_media_api.Domain.{Uuid, MediaType, Tag, Media, Context}
use scoreplay_media_api.Database.{Db, Env}
use scoreplay_media_api.Name.{sanitize_name}
use scoreplay_media_api.Upload.{
  dedupe_from, deduplicate_uuids, classify_content_type, sanitize_filename,
}
use scoreplay_media_api.Cursor.{Codec, encode_cursor, decode_cursor}
use scoreplay_media_api.LocalStorage.{Files}
use scoreplay_media_api.TagRepo
use scoreplay_media_api.TagRepo.{TagCursor}
use scoreplay_media_api.MediaRepo
use scoreplay_media_api.MediaRepo.{NewMedia}
use scoreplay_media_api.MediaRepo.Listing
use scoreplay_media_api.MediaRepo.Listing.{MediaFilter, MediaCursor}

-- internal/port/storage.go; the number tells the calls apart.
pub record FileStorage : Type 0 where
  pub save : ℕ → Context → Text → Text → Files → Result Text × Files
  pub delete : ℕ → Text → Files → Result (Unit {0}) × Files

pub record App : Type 0 where
  pub db : Db
  pub files : Files
  pub calls : ℕ

-- A computation that may fail; what it did before it failed stays.
abbrev pub Step : Type 0 → Type 0
Step A = App → Result A × App

module _ {A : Type 0} where
  unfoldable pub pure : A → Step A
  pure a app = (ok a, app)

  unfoldable pub raise : Error → Step A
  raise e app = (err e, app)

  abbrev pub lift : Result A → Step A
  lift (ok a) = pure a
  lift (err e) = raise e

module _ {A B : Type 0} where
  abbrev pub continue : Result A → (A → Step B) → Step B
  continue (ok a) f = f a
  continue (err e) f = raise e

  infixl 10 ◌>>=◌ ◌>>◌
  unfoldable pub ◌>>=◌ : Step A → (A → Step B) → Step B
  unfolding raise
  ◌>>=◌ m f app = let (r, app') = m app in continue r f app'

  abbrev pub ◌>>◌ : Step A → Step B → Step B
  m >> n = m >>= λ _. n

-- if limit <= 0 { limit = 50 }; if limit > 100 { limit = 100 }
unfoldable pub clamp_limit : ℤ → ℕ
clamp_limit (negsuc n) = 50
clamp_limit (pos zero) = 50
clamp_limit (pos (suc n)) = if ltb 100 (suc n) then 100 else suc n

abbrev pub max_tags_per_media : ℕ
max_tags_per_media = 50

abbrev pub max_filter_tags : ℕ
max_filter_tags = 50

pub record CreateInput : Type 0 where
  pub name : Text
  pub file : Text
  pub file_name : Text
  pub file_size : ℕ
  pub tag_ids : List Uuid
  pub tag_names : List Text
  pub content_type : Text

module _ (nfc : Text → Text) (envs : ℕ → Env) (ctx : Context) where
  -- A call of a repository.
  unfoldable pub query : {A : Type 0} → (Env → Db → Result A × Db) → Step A
  query f app =
      let (r, db) = f (envs app.calls) app.db in (r, record app { db = db; calls = app.calls + 1 })

  abbrev pub refuse : Bool → Error → Step (Unit {0})
  refuse bad e = if bad then raise e else pure tt

  -- TagService
  unfoldable pub create_tag : Text → Step (Tag × Bool)
  create_tag name = do
    sanitized ← lift (sanitize_name nfc name)
    query (λ env db. TagRepo.create_or_get env ctx sanitized db)

  unfoldable pub list_tags : Codec TagCursor → ℤ → Text → Step (List Tag × Text)
  list_tags codec limit cursor = do
    c ← lift (decode_cursor codec cursor)
    page ← query (λ env db. TagRepo.list env ctx (clamp_limit limit) c db)
    pure (page.0, encode_cursor codec page.1)

  unfoldable pub rename_tag : Uuid → Text → Step Tag
  rename_tag id name = do
    sanitized ← lift (sanitize_name nfc name)
    query (λ env db. TagRepo.rename env ctx id sanitized db)

  unfoldable pub delete_tag : Uuid → Step (Unit {0})
  delete_tag id = query (λ env db. TagRepo.delete env ctx id db)

  -- The loop over the tag names.
  unfoldable pub resolve_names : List Text → Step (List Uuid)
  unfolding query
  resolve_names [] = pure []
  resolve_names (n ∷ names) = do
    sanitized ← lift (sanitize_name nfc n)
    found ← query (λ env db. TagRepo.create_or_get env ctx sanitized db)
    rest ← resolve_names names
    pure (found.0.id ∷ rest)

  unfoldable pub get_media : Uuid → Step Media
  get_media id = query (λ env db. MediaRepo.get_by_id env ctx id db)

  abbrev pub refresh : Uuid → Step Media
  refresh id = query (λ env db. MediaRepo.get_by_id env ctx id db)

  unfoldable pub attach_tags : Uuid → List Uuid → List Text → Step Media
  unfolding resolve_names
  attach_tags media_id tag_ids tag_names = do
    refuse (ltb max_tags_per_media (length tag_ids + length tag_names)) err_validation
    resolved ← resolve_names tag_names
    query (λ env db.
        MediaRepo.attach_tags env ctx media_id (deduplicate_uuids (tag_ids ++ resolved)) db)
    refresh media_id

  unfoldable pub detach_tag : Uuid → Uuid → Step (Unit {0})
  detach_tag media_id tag_id = query (λ env db. MediaRepo.detach_tag env ctx media_id tag_id db)

  -- The names of a filter, sanitized.
  unfoldable pub sanitize_all : List Text → Result (List Text)
  sanitize_all [] = ok []
  sanitize_all (n ∷ names) = elim (sanitize_name nfc n) [
    | err e ↦ err e
    | ok s ↦ elim (sanitize_all names) [ err e ↦ err e | ok rest ↦ ok (s ∷ rest) ]
  ]

  abbrev pub normalized : MediaFilter → List Text → MediaFilter
  normalized f names = record {
    tag_ids = deduplicate_uuids f.tag_ids;
    tag_names = dedupe_from text_eq [] names;
  }

  unfoldable pub list_media : Codec MediaCursor → ℤ → Text → MediaFilter → Step (List Media × Text)
  list_media codec limit cursor f = do
    c ← lift (decode_cursor codec cursor)
    refuse (ltb max_filter_tags (length f.tag_ids) || ltb max_filter_tags (length f.tag_names))
        err_validation
    names ← lift (sanitize_all f.tag_names)
    page ← query (λ env db. Listing.list env ctx (clamp_limit limit) c (normalized f names) db)
    pure (page.0, encode_cursor codec page.1)

  module _ (storage : FileStorage) where
    unfoldable pub save_file : Text → Text → Step Text
    save_file content ext app =
        let (r, files) = storage.save app.calls ctx content ext app.files in
        (r, record app { files = files; calls = app.calls + 1 })

    -- A failed deletion is only logged.
    unfoldable pub try_delete_file : Text → App → App
    try_delete_file path app = record app {
      files = (storage.delete app.calls path app.files).1;
      calls = app.calls + 1;
    }

    -- The compensating action.
    unfoldable pub or_delete : Text → Result Media × App → Result Media × App
    or_delete path (ok m, app) = (ok m, app)
    or_delete path (err e, app) = (err e, try_delete_file path app)

    unfoldable pub insert_record : Text → List Uuid → CreateInput → MediaType × Text → Step Media
    unfolding or_delete
    insert_record name tag_ids input (media_type, ext) = do
      path ← save_file input.file ext
      λ app. or_delete path (
          query
            (λ env db.
              MediaRepo.create env ctx
                (record {
                  name = name;
                  media_type = media_type;
                  file_path = path;
                  original_name = sanitize_filename input.file_name;
                  file_size = input.file_size;
                })
                tag_ids db)
            app)

    unfoldable pub create_media : CreateInput → Step Media
    create_media input = do
      name ← lift (sanitize_name nfc input.name)
      refuse (ltb max_tags_per_media (length input.tag_ids + length input.tag_names)) err_validation
      resolved ← resolve_names input.tag_names
      kind ← lift (classify_content_type input.content_type input.file_name)
      insert_record name (deduplicate_uuids (input.tag_ids ++ resolved)) input kind

    abbrev pub then_file : Result Text × App → Result (Unit {0}) × App
    then_file (ok path, app) = (ok tt, try_delete_file path app)
    then_file (err e, app) = (err e, app)

    unfoldable pub delete_media : Uuid → Step (Unit {0})
    delete_media id app = then_file (query (λ env db. MediaRepo.delete env ctx id db) app)
