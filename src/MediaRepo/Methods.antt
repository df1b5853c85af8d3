-- ===== src/MediaRepo/Methods.antt =====
-- internal/adapter/postgres/media_repo.go: the methods keep the constraints of the schema and leave the
-- rows of other tenants alone.
use scoreplay_media_api.Prelude.{
  ℕ, ◌≡◌, refl, Bool, true, false, Option, none, some, Text, List, [], ◌∷◌, any, length, ltb,
  Bool-cases, inl, inr,
}
use scoreplay_media_api.Result.{Result, ok, err, err_not_found, err_validation}
use scoreplay_media_api.Domain.{Uuid}
use scoreplay_media_api.Database.{MediaRow, Db, Env, Tx, statement}
use scoreplay_media_api.Database.Ensures.{
  Post, Ensures, Ensures-pure, Ensures-raise, Ensures-statement, Ensures-bind, Preserves,
}
use scoreplay_media_api.Database.Valid.{Change, Change-trans}
use scoreplay_media_api.Database.Changes.{
  Changes, Changes-statement, Changes-pure, Changes-raise, Changes-read, Changes-bind,
}
use scoreplay_media_api.MediaRepo.{
  NewMedia, owned, insert_media, insert_links, query_media_tags, create_tx, select_media, with_tags,
  get_by_id_tx, deleted, delete_tx, media_exists, count_tags, counted, checked, attach_existing,
  attach_tags_tx, detach_existing, detach_tag_tx,
}
use scoreplay_media_api.MediaRepo.Effects.{
  OwnsMedia, insert_media-Change, insert_link-Change, attach_links-Change,
}
use scoreplay_media_api.MediaRepo.Removal.{delete_media-Change, delete_link-Change}

-- The change so far, and the media item that the rest of the transaction relies on.
abbrev Holding : Uuid → Uuid → Db → Db → Type 0
Holding tenant media base db = Change tenant base db × OwnsMedia tenant media db

module _ {A : Type 0} (tenant media : Uuid) (base : Db) where
  Holding-after :
      (b : Db) (r : Result A × Db)
      → Change tenant base b
      → Post (λ _ db. Change tenant b db × OwnsMedia tenant media db) r
      → Post (λ _ db. Holding tenant media base db) r
  Holding-after b (ok x, c) h k = (Change-trans tenant base b c h k.0, k.1)
  Holding-after b (err e, c) h k = tt

  Change-after :
      (b : Db) (r : Result A × Db)
      → Change tenant base b
      → Post (λ _. Change tenant b) r
      → Post (λ _. Change tenant base) r
  Change-after b (ok x, c) h k = Change-trans tenant base b c h k
  Change-after b (err e, c) h k = tt

  weaken :
      (m : Tx A)
      → Preserves (Change tenant base) m
      → Ensures (Holding tenant media base) m (λ _. Change tenant base)
  weaken m k = record { at = λ env c h. k.at env c h.0 }

module _ (tenant : Uuid) where
  insert_links-Holding :
      (media : Uuid) (tags : List Uuid) (base : Db)
      → Preserves (Holding tenant media base) (insert_links tenant media tags)
  unfolding insert_links
  insert_links-Holding media [] base = Ensures-pure _ _ tt (λ db h. h)
  insert_links-Holding media (tag ∷ tags) base =
      Ensures-bind _ (λ _. Holding tenant media base) _ _ _
        (Ensures-statement _ _ _ (λ env id db h.
          Holding-after tenant media base db _ h.0
            (insert_link-Change tenant media tag env id db h.0.valid h.1)))
        (λ _. insert_links-Holding media tags base)

  query-Changes : (media : Uuid) → Changes tenant (statement (query_media_tags tenant media))
  unfolding query_media_tags
  query-Changes media = Changes-read tenant _

  pub create_tx-Changes : (m : NewMedia) (ids : List Uuid) → Changes tenant (create_tx m ids tenant)
  unfolding create_tx
  create_tx-Changes m ids base =
      Ensures-bind _ (λ row. Holding tenant row.id base) _ _ _
        (Ensures-statement _ _ _ (λ env id db h. created env id db h))
        (λ row.
          Ensures-bind _ (λ _. Holding tenant row.id base) _ _ _
            (insert_links-Holding row.id ids base)
            (λ _. weaken tenant row.id base _ (
              Changes-bind tenant _ _ (query-Changes row.id) (λ tags. Changes-pure tenant _) base)))
    where
      after :
          (b : Db) (r : Result MediaRow × Db)
          → Change tenant base b
          → Post (λ row db. Change tenant b db × OwnsMedia tenant row.id db) r
          → Post (λ row db. Holding tenant row.id base db) r
      after b (ok row, c) h k = (Change-trans tenant base b c h k.0, k.1)
      after b (err e, c) h k = tt

      created :
          (env : Env) (id : Uuid) (db : Db)
          → Change tenant base db
          → Post (λ row db'. Holding tenant row.id base db') (insert_media tenant m env id db)
      created env id db h = after db _ h (insert_media-Change tenant m env id db h.valid)

  with_tags-Changes : (row : Option MediaRow) → Changes tenant (with_tags tenant row)
  with_tags-Changes none = Changes-raise tenant err_not_found
  with_tags-Changes (some row) =
      Changes-bind tenant _ _ (query-Changes row.id) (λ tags. Changes-pure tenant _)

  pub get_by_id_tx-Changes : (id : Uuid) → Changes tenant (get_by_id_tx id tenant)
  unfolding get_by_id_tx select_media
  get_by_id_tx-Changes id = Changes-bind tenant _ _ (Changes-read tenant _) with_tags-Changes

  deleted-Changes : (path : Option Text) → Changes tenant (deleted path)
  deleted-Changes none = Changes-raise tenant err_not_found
  deleted-Changes (some path) = Changes-pure tenant path

  pub delete_tx-Changes : (id : Uuid) → Changes tenant (delete_tx id tenant)
  unfolding delete_tx
  delete_tx-Changes id =
      Changes-bind tenant _ _ (Changes-statement tenant _ (delete_media-Change tenant id))
        deleted-Changes

  counted-Changes : (ids : List Uuid) (n : ℕ) → Changes tenant (counted ids n)
  counted-Changes ids n base = elim (Bool-cases (ltb n (length ids))) [
    | inl e ↦ rw e (Changes-raise tenant err_validation base)
    | inr e ↦ rw e (Changes-pure tenant tt base)
  ]

  checked-Changes : (ids : List Uuid) (n : ℕ) → Changes tenant (checked tenant ids n)
  unfolding count_tags
  checked-Changes ids n base = elim (Bool-cases (ltb n (length ids))) [
    | inl e ↦ rw e (Changes-bind tenant _ _ (Changes-read tenant _) (counted-Changes ids) base)
    | inr e ↦ rw e (Changes-pure tenant tt base)
  ]

  -- The existence test hands its finding on to the rest of the transaction.
  abbrev Found : Uuid → Db → Bool → Db → Type 0
  Found media base true = Holding tenant media base
  Found media base false = Change tenant base

  exists-Found :
      (media : Uuid) (base : Db)
      → Ensures (Change tenant base) (statement (media_exists tenant media)) (Found media base)
  unfolding media_exists
  exists-Found media base =
      Ensures-statement _ _ _ (λ env id db h. found db (any (owned tenant media) db.media) refl h)
    where
      found :
          (db : Db) (b : Bool)
          → any (owned tenant media) db.media ≡ b
          → Change tenant base db
          → Found media base b db
      found db true e h = (h, e)
      found db false e h = h

  attach_existing-Ensures :
      (media : Uuid) (ids : List Uuid) (base : Db) (b : Bool)
      → Ensures (Found media base b) (attach_existing tenant media ids b) (λ _. Change tenant base)
  attach_existing-Ensures media ids base false = Ensures-raise _ _ err_not_found
  attach_existing-Ensures media [] base true = Ensures-pure _ _ tt (λ db h. h.0)
  attach_existing-Ensures media (id ∷ ids) base true =
      Ensures-bind _ (λ _. Change tenant base) _ _ _
        (Ensures-statement _ _ _ (λ env fresh db h.
          Change-after tenant media base db _ h.0
            (attach_links-Change tenant media (id ∷ ids) env fresh db h.0.valid h.1)))
        (λ n. checked-Changes (id ∷ ids) n base)

  pub attach_tags_tx-Changes :
      (media : Uuid) (ids : List Uuid) → Changes tenant (attach_tags_tx media ids tenant)
  unfolding attach_tags_tx
  attach_tags_tx-Changes media ids base =
      Ensures-bind _ (Found media base) _ _ _ (exists-Found media base)
        (attach_existing-Ensures media ids base)

  detach_existing-Changes :
      (media tag : Uuid) (b : Bool) → Changes tenant (detach_existing tenant media tag b)
  detach_existing-Changes media tag false = Changes-raise tenant err_not_found
  detach_existing-Changes media tag true =
      Changes-statement tenant _ (delete_link-Change tenant media tag)

  pub detach_tag_tx-Changes : (media tag : Uuid) → Changes tenant (detach_tag_tx media tag tenant)
  unfolding detach_tag_tx media_exists
  detach_tag_tx-Changes media tag =
      Changes-bind tenant _ _ (Changes-read tenant _) (detach_existing-Changes media tag)
