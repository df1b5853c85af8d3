-- ===== src/Backends.antt =====
-- internal/adapter/storage: the two file storages keep what internal/port/storage.go promises.
pub mod Tenants
mod Tests
use scoreplay_media_api.Prelude.{
  ℕ, ◌≡◌, ◌≢◌, refl, sym, ◌∙◌, inl, inr, Bool, true, false, ◌++◌, List, [], ◌∷◌, codes, ap, Text,
  arith, Bool-cases,
}
use mathlib.Core.Path.{subst}
use scoreplay_media_api.Result.{Error, Result, ok, err, Result-cases}
use scoreplay_media_api.Domain.{Uuid, Context, tenant_id_from_context}
use scoreplay_media_api.LocalStorage
use scoreplay_media_api.LocalStorage.{Files, holds, Disk, shard_path, save_at, remove_file}
use scoreplay_media_api.LocalStorage.Held.{holds-remove_file, holds-save_at, save_at_ok}
use scoreplay_media_api.S3Storage
use scoreplay_media_api.S3Storage.{Sdk, saved, object_key}
use scoreplay_media_api.Service.{FileStorage}
use scoreplay_media_api.Service.Consistency.{IsStorage}

-- A path that is there differs from one that is not.
apart : (p q : Text) (files : Files) → holds p files ≡ false → holds q files ≡ true → q ≢ p
apart p q files no_p yes_q e = clash (subst (λ t. holds t files ≡ true) e yes_q)
  where
    clash : holds p files ≡ true → ⊥
    clash h = ground arith

module _ (show : Uuid → Text) (disks : ℕ → Files → Disk) where
  -- The storage on the disk; each call has its own faults and draws its own name.
  abbrev pub local_storage : FileStorage
  local_storage = record {
    save = λ n ctx content ext files. LocalStorage.save show (disks n files) ctx content ext files;
    delete = λ n path files. LocalStorage.delete (disks n files) path files;
  }

  -- What uuid.New documents: a drawn name is new.
  abbrev pub DrawsNew : Type 0
  DrawsNew =
      (n : ℕ) (tenant : Uuid) (ext : Text) (files : Files)
      → holds (shard_path (show tenant) (disks n files).name ext) files ≡ false

  module _ (fresh : DrawsNew) where
    local_save_new :
        (n : ℕ) (ctx : Context) (content ext : Text) (files : Files) (path : Text)
        → (local_storage.save n ctx content ext files).0 ≡ ok path
        → (holds path files ≡ false)
          × (holds path (local_storage.save n ctx content ext files).1 ≡ true)
    unfolding LocalStorage.save
    local_save_new n ctx content ext files path h =
        elim (Result-cases (tenant_id_from_context ctx)) [
          | inl (tenant, e) ↦
              let at = shard_path (show tenant) (disks n files).name ext in
              let (q, there) =
                save_at_ok (disks n files) at content files show path
                  (rw (e, LocalStorage.save) at h) in
              rw (e, LocalStorage.save, q) (fresh n tenant ext files, there)
          | inr (x, e) ↦ absurd (failed x (rw (e, LocalStorage.save) at h))
        ]
      where
        failed : (x : Error) → ◌≡◌ {A = Result Text} (err x) (ok path) → ⊥
        failed x q = cc

    local_save_keeps :
        (n : ℕ) (ctx : Context) (content ext : Text) (files : Files) (q : Text)
        → holds q files ≡ true
        → holds q (local_storage.save n ctx content ext files).1 ≡ true
    unfolding LocalStorage.save
    local_save_keeps n ctx content ext files q h =
        elim (Result-cases (tenant_id_from_context ctx)) [
          | inl (tenant, e) ↦
              let at = shard_path (show tenant) (disks n files).name ext in
              rw (e, LocalStorage.save)
                (holds-save_at (disks n files) at content files show q
                  (apart at q files (fresh n tenant ext files) h) h)
          | inr (x, e) ↦ rw (e, LocalStorage.save) h
        ]

  local_delete_keeps :
      (n : ℕ) (path : Text) (files : Files) (q : Text)
      → q ≢ path
      → holds q files ≡ true
      → holds q (local_storage.delete n path files).1 ≡ true
  unfolding LocalStorage.delete
  local_delete_keeps n path files q ne h =
      let kept = holds-remove_file path q files ne h in ground arith

  -- The storage on the disk keeps what the interface of storages promises, whatever calls of the file
  -- system fail: a saved file has a path that was not there before, and saving and deleting leave all
  -- other files. The names that are drawn for files are new.
  pub local-IsStorage : DrawsNew → IsStorage local_storage
  local-IsStorage fresh = record {
    save_new = local_save_new fresh;
    save_keeps = local_save_keeps fresh;
    delete_keeps = local_delete_keeps;
  }

pub saved_ok :
    (key : Text) (r : Bool × Files) (p : Text) → (saved key r).0 ≡ ok p → (r.0 ≡ false) × (p ≡ key)
saved_ok key (true, files) p h = absurd cc
saved_ok key (false, files) p h = (refl, cc)

-- What the SDK documents of its calls: an upload that succeeds leaves an object at its key, and no
-- call touches another key.
pub record IsBucket (sdk : Sdk) (bucket : Text) : Type 0 where
  pub uploaded :
      (key content : Text) (files : Files)
      → (sdk.upload bucket key content files).0 ≡ false
      → holds key (sdk.upload bucket key content files).1 ≡ true
  pub upload_keeps :
      (key content q : Text) (files : Files)
      → q ≢ key
      → holds q files ≡ true
      → holds q (sdk.upload bucket key content files).1 ≡ true
  pub delete_keeps :
      (key q : Text) (files : Files)
      → q ≢ key
      → holds q files ≡ true
      → holds q (sdk.delete_object bucket key files).1 ≡ true

module _ (sdk : Sdk) (s : S3Storage.Storage) (show : Uuid → Text) (names : ℕ → Files → Text) where
  abbrev pub s3_storage : FileStorage
  s3_storage = record {
    save =
        λ n ctx content ext files. S3Storage.save sdk s show (names n files) ctx content ext files;
    delete = λ n path files. S3Storage.delete sdk s path files;
  }

  -- What uuid.New documents: no path that is there has the drawn name in it.
  abbrev pub NamesNew : Type 0
  NamesNew =
      (n : ℕ) (pre post : Text) (files : Files) → holds (pre ++ names n files ++ post) files ≡ false

  key_new :
      NamesNew
      → (n : ℕ) (tenant : Uuid) (ext : Text) (files : Files)
      → holds (object_key sdk s (show tenant) (names n files) ext) files ≡ false
  unfolding object_key
  key_new fresh n tenant ext files = fresh n (s.prefix ++ show tenant ++ codes "/") ext files

  module _ (fresh : NamesNew) (laws : IsBucket sdk s.bucket) where
    s3_save_new :
        (n : ℕ) (ctx : Context) (content ext : Text) (files : Files) (path : Text)
        → (s3_storage.save n ctx content ext files).0 ≡ ok path
        → (holds path files ≡ false)
          × (holds path (s3_storage.save n ctx content ext files).1 ≡ true)
    unfolding S3Storage.save
    s3_save_new n ctx content ext files path h = elim (Result-cases (tenant_id_from_context ctx)) [
      | inl (tenant, e) ↦
          let key = object_key sdk s (show tenant) (names n files) ext in
          let (good, q) =
            saved_ok key (sdk.upload s.bucket key content files) path
              (rw (e, S3Storage.save) at h) in
          rw (e, S3Storage.save, q)
            (key_new fresh n tenant ext files, laws.uploaded key content files good)
      | inr (x, e) ↦ absurd (failed x (rw (e, S3Storage.save) at h))
    ]
      where
        failed : (x : Error) → ◌≡◌ {A = Result Text} (err x) (ok path) → ⊥
        failed x q = cc

    s3_save_keeps :
        (n : ℕ) (ctx : Context) (content ext : Text) (files : Files) (q : Text)
        → holds q files ≡ true
        → holds q (s3_storage.save n ctx content ext files).1 ≡ true
    unfolding S3Storage.save
    s3_save_keeps n ctx content ext files q h = elim (Result-cases (tenant_id_from_context ctx)) [
      | inl (tenant, e) ↦
          let key = object_key sdk s (show tenant) (names n files) ext in
          rw (e, S3Storage.save)
            (laws.upload_keeps key content q files
              (apart key q files (key_new fresh n tenant ext files) h) h)
      | inr (x, e) ↦ rw (e, S3Storage.save) h
    ]

    s3_delete_keeps :
        (n : ℕ) (path : Text) (files : Files) (q : Text)
        → q ≢ path
        → holds q files ≡ true
        → holds q (s3_storage.delete n path files).1 ≡ true
    unfolding S3Storage.delete
    s3_delete_keeps n path files q ne h = laws.delete_keeps path q files ne h

    -- The storage in a bucket keeps what the interface of storages promises, if the calls of the SDK
    -- touch no other object than the one they name, an upload that succeeds leaves its object, and the
    -- names that are drawn are new.
    pub s3-IsStorage : IsStorage s3_storage
    s3-IsStorage = record {
      save_new = s3_save_new;
      save_keeps = s3_save_keeps;
      delete_keeps = s3_delete_keeps;
    }
