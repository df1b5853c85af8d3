-- ===== src/Service/Consistency.antt =====
-- internal/service/media_service.go: the file of every media item is in the storage.
use scoreplay_media_api.Prelude.{
  ℕ, ◌+◌, ◌≡◌, ◌≢◌, refl, sym, ◌∙◌, inl, inr, Bool, true, false, List, [], ◌∷◌, ◌++◌, map, Text,
  All, All-map, In, Distinct, arith,
}
use mathlib.Core.Path.{subst}
use scoreplay_media_api.Result.{Error, Result, ok, err, err_validation}
use scoreplay_media_api.Domain.{Uuid, MediaType, Media, Context}
use scoreplay_media_api.Database.{MediaRow, Db, Env}
use scoreplay_media_api.Database.Ensures.{Post, with_tenant_tx_atomic}
use scoreplay_media_api.Name.{sanitize_name}
use scoreplay_media_api.Upload.{deduplicate_uuids, classify_content_type, sanitize_filename}
use scoreplay_media_api.LocalStorage.{Files, holds}
use scoreplay_media_api.MediaRepo
use scoreplay_media_api.MediaRepo.{NewMedia, create_tx, delete_tx, owned}
use scoreplay_media_api.MediaRepo.Rows.{Added, create_or_get_media, create-Added}
use scoreplay_media_api.Service.{
  FileStorage, App, Step, pure, raise, lift, continue, ◌>>=◌, CreateInput, query, refuse,
  resolve_names, save_file, try_delete_file, or_delete, insert_record, create_media,
}

-- What a storage does, as internal/port/storage.go documents it: a saved file has a path of its own,
-- and saving and deleting leave the other files.
pub record IsStorage (s : FileStorage) : Type 0 where
  pub save_new :
      (n : ℕ) (ctx : Context) (content ext : Text) (files : Files) (path : Text)
      → (s.save n ctx content ext files).0 ≡ ok path
      → (holds path files ≡ false) × (holds path (s.save n ctx content ext files).1 ≡ true)
  pub save_keeps :
      (n : ℕ) (ctx : Context) (content ext : Text) (files : Files) (q : Text)
      → holds q files ≡ true
      → holds q (s.save n ctx content ext files).1 ≡ true
  pub delete_keeps :
      (n : ℕ) (path : Text) (files : Files) (q : Text)
      → q ≢ path
      → holds q files ≡ true
      → holds q (s.delete n path files).1 ≡ true

abbrev pub path_of : MediaRow → Text
path_of m = m.file_path

-- Every media item has its file, and no other item has the same.
pub record IsStored (media : List MediaRow) (files : Files) : Type 0 where
  pub held : All (λ m. holds (path_of m) files ≡ true) media
  pub paths : Distinct (map path_of media)

abbrev pub IsConsistent : App → Type 0
IsConsistent app = IsStored app.db.media app.files

-- A step that keeps this, whether it fails or not.
abbrev Keeps : {A : Type 0} → Step A → Type 0
Keeps m = (app : App) → IsConsistent app → IsConsistent (m app).1

Keeps-raise : (A : Type 0) (e : Error) → Keeps (raise {A = A} e)
unfolding raise
Keeps-raise A e app h = h

module _ {A : Type 0} where
  Keeps-pure : (a : A) → Keeps (pure a)
  unfolding pure
  Keeps-pure a app h = h

  Keeps-lift : (r : Result A) → Keeps (lift r)
  Keeps-lift (ok a) = Keeps-pure a
  Keeps-lift (err e) = Keeps-raise A e

module _ {A B : Type 0} where
  Keeps-bind : (m : Step A) (f : A → Step B) → Keeps m → ((a : A) → Keeps (f a)) → Keeps (m >>= f)
  unfolding ◌>>=◌
  Keeps-bind m f k g app h = go (m app).0 (m app).1 (k app h)
    where
      go : (r : Result A) (app' : App) → IsConsistent app' → IsConsistent (continue r f app').1
      go (ok a) app' h = g a app' h
      go (err e) app' h = Keeps-raise B e app' h

Keeps-refuse :
    (nfc : Text → Text) (envs : ℕ → Env) (ctx : Context) (bad : Bool) (e : Error)
    → Keeps (refuse nfc envs ctx bad e)
Keeps-refuse nfc envs ctx true e = Keeps-raise (Unit {0}) e
Keeps-refuse nfc envs ctx false e = Keeps-pure tt

absent :
    (media : List MediaRow) (files : Files) (path : Text)
    → All (λ m. holds (path_of m) files ≡ true) media
    → holds path files ≡ false
    → ¬ In path (map path_of media)
absent [] files path h e m = m
absent (x ∷ media) files path h e (inl q) = clash (subst (λ p. holds p files ≡ false) q e) h.0
  where
    clash : holds (path_of x) files ≡ false → holds (path_of x) files ≡ true → ⊥
    clash a b = ground arith
absent (x ∷ media) files path h e (inr m) = absent media files path h.1 e m

module _ (nfc : Text → Text) (envs : ℕ → Env) (ctx : Context) where
  resolve_names-Keeps : (names : List Text) → Keeps (resolve_names nfc envs ctx names)
  unfolding resolve_names query
  resolve_names-Keeps [] = Keeps-pure []
  resolve_names-Keeps (n ∷ names) = Keeps-bind _ _ (Keeps-lift (sanitize_name nfc n)) (λ s.
      Keeps-bind _ _
        (λ app h.
          subst (λ rows. IsStored rows app.files)
            (sym (create_or_get_media app.db.media (envs app.calls) ctx s app.db refl)) h)
        (λ found. Keeps-bind _ _ (resolve_names-Keeps names) (λ rest. Keeps-pure _)))

  module _ (storage : FileStorage) (laws : IsStorage storage) where
    -- After the insertion failed, or a row for the new file was added.
    or_delete-Keeps :
        (path : Text) (m : NewMedia) (db : Db) (files : Files) (calls : ℕ) (r : Result Media × Db)
        → m.file_path ≡ path
        → IsStored db.media files
        → ¬ In path (map path_of db.media)
        → holds path files ≡ true
        → Post (λ _. Added m db) r
        → ((e : Error) → r.0 ≡ err e → r.1 ≡ db)
        → IsConsistent
            (or_delete nfc envs ctx storage path
              (r.0, record { db = r.1; files = files; calls = calls })).1
    unfolding or_delete try_delete_file
    or_delete-Keeps path m db files calls (ok a, d) e h new there added same =
        let q = added.path ∙ e in
        subst (λ rows. IsStored rows files) (sym added.media)
          (record {
            held = (subst (λ p. holds p files ≡ true) (sym q) there, h.held);
            paths = (subst (λ p. ¬ In p (map path_of db.media)) (sym q) new, h.paths);
          })
    or_delete-Keeps path m db files calls (err x, d) e h new there added same =
        subst (λ (y : Db). IsStored y.media (storage.delete calls path files).1) (sym (same x refl))
          (record { held = kept db.media h.held new; paths = h.paths })
      where
        kept :
            (media : List MediaRow)
            → All (λ m. holds (path_of m) files ≡ true) media
            → ¬ In path (map path_of media)
            → All (λ m. holds (path_of m) (storage.delete calls path files).1 ≡ true) media
        kept [] k n = tt
        kept (x ∷ media) k n = (
          laws.delete_keeps calls path files (path_of x) (λ q. n (inl (sym q))) k.0,
          kept media k.1 (λ w. n (inr w)),
        )

    -- What follows a call of the storage.
    saved-Keeps :
        (content ext : Text) (f : Text → Step Media) (app : App)
        → (let files = (storage.save app.calls ctx content ext app.files).1 in
            let next : App = record { db = app.db; files = files; calls = app.calls + 1 } in
            IsConsistent next
            × ((path : Text)
                → (storage.save app.calls ctx content ext app.files).0 ≡ ok path
                → IsConsistent (f path next).1))
        → IsConsistent ((save_file nfc envs ctx storage content ext >>= f) app).1
    unfolding save_file ◌>>=◌
    saved-Keeps content ext f app (h, k) =
        go (storage.save app.calls ctx content ext app.files).0
          (record {
            db = app.db;
            files = (storage.save app.calls ctx content ext app.files).1;
            calls = app.calls + 1;
          })
          h k
      where
        go :
            (r : Result Text) (next : App)
            → IsConsistent next
            → ((path : Text) → r ≡ ok path → IsConsistent (f path next).1)
            → IsConsistent (continue r f next).1
        go (ok path) next h k = k path refl
        go (err e) next h k = Keeps-raise Media e next h

    create_atomic :
        (env : Env) (m : NewMedia) (tags : List Uuid) (db : Db) (e : Error)
        → (MediaRepo.create env ctx m tags db).0 ≡ err e
        → (MediaRepo.create env ctx m tags db).1 ≡ db
    unfolding MediaRepo.create
    create_atomic env m tags db e q = with_tenant_tx_atomic (create_tx m tags) env ctx db e q

    insert_record-Keeps :
        (name : Text) (tag_ids : List Uuid) (input : CreateInput) (kind : MediaType × Text)
        → Keeps (insert_record nfc envs ctx storage name tag_ids input kind)
    unfolding insert_record query
    insert_record-Keeps name tag_ids input (media_type, ext) app h =
        saved-Keeps input.file ext _ app (
          record {
            held =
                All-map _ _
                  (λ m k. laws.save_keeps app.calls ctx input.file ext app.files (path_of m) k)
                  app.db.media h.held;
            paths = h.paths;
          },
          λ path e.
              let (new, there) = laws.save_new app.calls ctx input.file ext app.files path e in
              or_delete-Keeps path _ app.db _ _
                (MediaRepo.create (envs (app.calls + 1)) ctx
                  (record {
                    name = name;
                    media_type = media_type;
                    file_path = path;
                    original_name = sanitize_filename input.file_name;
                    file_size = input.file_size;
                  })
                  tag_ids app.db)
                refl
                (record {
                  held =
                      All-map _ _
                        (λ m k.
                          laws.save_keeps app.calls ctx input.file ext app.files (path_of m) k)
                        app.db.media h.held;
                  paths = h.paths;
                })
                (absent app.db.media app.files path h.held new) there
                (create-Added _ app.db (envs (app.calls + 1)) ctx tag_ids)
                (create_atomic (envs (app.calls + 1)) _ tag_ids app.db),
        )

    -- Whatever a repository or the storage does to an upload, afterwards every media item has its file
    -- and no two items share one, if this holds before; so also after an upload that failed, and whose
    -- file was deleted again. The storage gives a saved file a path of its own and leaves other files.
    pub create_media-IsConsistent :
        (input : CreateInput) (app : App)
        → IsConsistent app
        → IsConsistent (create_media nfc envs ctx storage input app).1
    unfolding create_media
    create_media-IsConsistent input =
        Keeps-bind _ _ (Keeps-lift (sanitize_name nfc input.name)) (λ name.
          Keeps-bind _ _ (Keeps-refuse nfc envs ctx _ err_validation) (λ _.
            Keeps-bind _ _ (resolve_names-Keeps input.tag_names) (λ resolved.
              Keeps-bind _ _ (Keeps-lift (classify_content_type input.content_type input.file_name))
                (λ kind.
                  insert_record-Keeps name (deduplicate_uuids (input.tag_ids ++ resolved)) input
                    kind))))
