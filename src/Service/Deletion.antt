-- ===== src/Service/Deletion.antt =====
-- internal/service/media_service.go: a deletion takes away the file of no other media item.
use scoreplay_media_api.Prelude.{
  ℕ, ◌+◌, ◌≡◌, refl, sym, ◌∙◌, inl, inr, true, not, List, [], ◌∷◌, map, Text, All, All-map,
  All-of_In, All-filter, In, Distinct, Distinct-filter, arith,
}
use mathlib.Core.Path.{subst}
use scoreplay_media_api.Result.{Error, Result, ok, err}
use scoreplay_media_api.Domain.{Uuid, Context}
use scoreplay_media_api.Database.{MediaRow, Db, Env}
use scoreplay_media_api.Database.Ensures.{Post, with_tenant_tx_atomic}
use scoreplay_media_api.Database.Owned.{same_key}
use scoreplay_media_api.LocalStorage.{Files, holds}
use scoreplay_media_api.MediaRepo
use scoreplay_media_api.MediaRepo.{NewMedia, create_tx, delete_tx, owned}
use scoreplay_media_api.MediaRepo.Rows.{Removed, delete-Removed}
use scoreplay_media_api.Service.{FileStorage, App, query, try_delete_file, then_file, delete_media}
use scoreplay_media_api.Service.Consistency.{IsStorage, IsStored, IsConsistent, path_of}

module _ (nfc : Text → Text) (envs : ℕ → Env) (ctx : Context) (storage : FileStorage)
    (laws : IsStorage storage) where
  delete_atomic :
      (env : Env) (id : Uuid) (db : Db) (e : Error)
      → (MediaRepo.delete env ctx id db).0 ≡ err e
      → (MediaRepo.delete env ctx id db).1 ≡ db
  unfolding MediaRepo.delete
  delete_atomic env id db e q = with_tenant_tx_atomic (delete_tx id) env ctx db e q

  -- The rows that are left have other paths than the one that was deleted.
  left_over :
      (n : ℕ) (tenant id : Uuid) (path : Text) (rows : List MediaRow) (files : Files)
      (row : MediaRow)
      → Distinct (map path_of rows)
      → In row rows
      → owned tenant id row ≡ true
      → path_of row ≡ path
      → (m : MediaRow) → In m rows
      → not (owned tenant id m) ≡ true
      → holds (path_of m) files ≡ true
      → holds (path_of m) (storage.delete n path files).1 ≡ true
  left_over n tenant id path rows files row d k chosen e m w keep h =
      laws.delete_keeps n path files (path_of m)
        (λ q. clash (same_key path_of m row rows d w k (q ∙ sym e))) h
    where
      clash : m ≡ row → ⊥
      clash q = let both = subst (λ r. not (owned tenant id r) ≡ true) q keep in no_way chosen both
        where
          no_way : owned tenant id row ≡ true → not (owned tenant id row) ≡ true → ⊥
          no_way a b = ground arith

  held_by :
      (m : MediaRow) (rows : List MediaRow) (files : Files)
      → All (λ r. holds (path_of r) files ≡ true) rows
      → In m rows
      → holds (path_of m) files ≡ true
  held_by m [] files h w = absurd w
  held_by m (x ∷ rows) files h (inl e) = subst (λ r. holds (path_of r) files ≡ true) (sym e) h.0
  held_by m (x ∷ rows) files h (inr w) = held_by m rows files h.1 w

  then_file-IsConsistent :
      (db : Db) (files : Files) (calls : ℕ) (r : Result Text × Db)
      → IsStored db.media files
      → Post (Removed db) r
      → ((e : Error) → r.0 ≡ err e → r.1 ≡ db)
      → IsConsistent
          (then_file nfc envs ctx storage
            (r.0, record { db = r.1; files = files; calls = calls })).1
  unfolding try_delete_file
  then_file-IsConsistent db files calls (err x, d) h gone same =
      subst (λ (y : Db). IsStored y.media files) (sym (same x refl)) h
  then_file-IsConsistent db files calls (ok path, d) h gone same =
      subst (λ rows. IsStored rows (storage.delete calls path files).1) (sym gone.media)
        (record {
          held =
              All-map _ _
                (λ (m : MediaRow)
                    (w : (In m db.media × (holds (path_of m) files ≡ true))
                      × (not (owned gone.tenant gone.id m) ≡ true)).
                  left_over calls gone.tenant gone.id path db.media files gone.row h.paths
                    gone.member gone.chosen gone.row_path m w.0.0 w.1 w.0.1)
                _
                (All-filter _ _ db.media
                  (All-of_In _ db.media (λ m w. (w, held_by m db.media files h.held w))));
          paths = Distinct-filter path_of _ db.media h.paths;
        })

  -- Whatever a repository or the storage does to a deletion, afterwards every media item that is left
  -- has its file and no two items share one, if this holds before. The storage leaves other files.
  pub delete_media-IsConsistent :
      (id : Uuid) (app : App)
      → IsConsistent app
      → IsConsistent (delete_media nfc envs ctx storage id app).1
  unfolding delete_media query
  delete_media-IsConsistent id app h =
      then_file-IsConsistent app.db app.files (app.calls + 1)
        (MediaRepo.delete (envs app.calls) ctx id app.db) h
        (delete-Removed app.db (envs app.calls) ctx id) (delete_atomic (envs app.calls) id app.db)
