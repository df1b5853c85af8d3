-- ===== src/MediaRepo/Listing/Effects.antt =====
-- internal/adapter/postgres/media_repo.go: List changes no table.
use scoreplay_media_api.Prelude.{ℕ, Option, List, [], ◌∷◌}
use scoreplay_media_api.Domain.{Uuid}
use scoreplay_media_api.Database.{MediaRow}
use scoreplay_media_api.Database.Changes.{Changes, Changes-pure, Changes-read, Changes-bind}
use scoreplay_media_api.Paging.{cut_page}
use scoreplay_media_api.MediaRepo.Listing.{
  MediaFilter, MediaCursor, media_key, select_page, select_tags, load_tags, list_in_tx,
}

module _ (tenant : Uuid) where
  load_tags-Changes :
      (page : List MediaRow × Option MediaCursor) → Changes tenant (load_tags tenant page)
  unfolding select_tags
  load_tags-Changes ([], next) = Changes-pure tenant _
  load_tags-Changes (m ∷ ms, next) =
      Changes-bind tenant _ _ (Changes-read tenant _) (λ tags. Changes-pure tenant _)

  pub list_in_tx-Changes :
      (limit : ℕ) (cursor : Option MediaCursor) (f : MediaFilter)
      → Changes tenant (list_in_tx limit cursor f tenant)
  unfolding list_in_tx select_page
  list_in_tx-Changes limit cursor f =
      Changes-bind tenant _ _ (Changes-read tenant _)
        (λ rows. load_tags-Changes (cut_page media_key limit rows))
