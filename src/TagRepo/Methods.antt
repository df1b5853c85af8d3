-- ===== src/TagRepo/Methods.antt =====
-- internal/adapter/postgres/tag_repo.go: the methods keep the constraints of the schema and leave the
-- rows of other tenants alone.
use scoreplay_media_api.Prelude.{ℕ, Option, none, some, Text, ◌==◌, Bool-cases, inl, inr}
use scoreplay_media_api.Result.{Result, ok, err, err_not_found, unique_violation, internal}
use scoreplay_media_api.Domain.{Uuid}
use scoreplay_media_api.Database.{TagRow, Db, Conn, statement}
use scoreplay_media_api.Database.Ensures.{PostConn}
use scoreplay_media_api.Database.Changes.{
  Changes, Changes-statement, Changes-pure, Changes-raise, Changes-read, Changes-bind,
}
use scoreplay_media_api.Database.Valid.{Change}
use scoreplay_media_api.TagRepo.{
  TagCursor, existing, inserted, updated, deleted, select_tag, update_tag, create_or_get_tx,
  rename_tx, delete_tx, list_tx, rename_error, select_tags,
}
use scoreplay_media_api.TagRepo.Effects.{insert_tag-Change, delete_tag-Change}
use scoreplay_media_api.TagRepo.Renaming.{update_tag-Change}

rename_error-PostConn :
    {A : Type 0} (Q : A → Db → Type 0) (r : Result A × Conn)
    → PostConn Q r
    → PostConn Q (rename_error r)
rename_error-PostConn Q (ok a, c) h = h
rename_error-PostConn Q (err unique_violation, c) h = tt
rename_error-PostConn Q (err _, c) h = tt

module _ (tenant : Uuid) where
  existing-Changes : (found : Option TagRow) → Changes tenant (existing found)
  existing-Changes none = Changes-raise tenant internal
  existing-Changes (some row) = Changes-pure tenant _

  inserted-Changes : (name : Text) (row : Option TagRow) → Changes tenant (inserted tenant name row)
  unfolding select_tag
  inserted-Changes name (some row) = Changes-pure tenant _
  inserted-Changes name none = Changes-bind tenant _ _ (Changes-read tenant _) existing-Changes

  pub create_or_get_tx-Changes : (name : Text) → Changes tenant (create_or_get_tx name tenant)
  unfolding create_or_get_tx
  create_or_get_tx-Changes name =
      Changes-bind tenant _ _ (Changes-statement tenant _ (insert_tag-Change tenant name))
        (inserted-Changes name)

  updated-Changes : (row : Option TagRow) → Changes tenant (updated row)
  updated-Changes none = Changes-raise tenant err_not_found
  updated-Changes (some row) = Changes-pure tenant _

  deleted-Changes : (n : ℕ) → Changes tenant (deleted n)
  deleted-Changes n base = elim (Bool-cases (n == 0)) [
    | inl e ↦ rw e (Changes-raise tenant err_not_found base)
    | inr e ↦ rw e (Changes-pure tenant tt base)
  ]

  pub delete_tx-Changes : (id : Uuid) → Changes tenant (delete_tx id tenant)
  unfolding delete_tx
  delete_tx-Changes id =
      Changes-bind tenant _ _ (Changes-statement tenant _ (delete_tag-Change tenant id))
        deleted-Changes

  pub rename_tx-Changes : (id : Uuid) (name : Text) → Changes tenant (rename_tx id name tenant)
  unfolding rename_tx
  rename_tx-Changes id name =
      Changes-bind tenant _ _
        (λ base. record {
          at = λ env c h.
              rename_error-PostConn (λ _. Change tenant base)
                (statement (update_tag tenant id name) env c)
                ((Changes-statement tenant _ (update_tag-Change tenant id name) base).at env c h);
        })
        updated-Changes

  pub list_tx-Changes :
      (limit : ℕ) (cursor : Option TagCursor) → Changes tenant (list_tx limit cursor tenant)
  unfolding list_tx select_tags
  list_tx-Changes limit cursor =
      Changes-bind tenant _ _ (Changes-read tenant _) (λ rows. Changes-pure tenant _)
