-- ===== src/MediaRepo/Listing.antt =====
-- internal/adapter/postgres/media_repo.go: List and listInTx, with the filter on tags, the keyset
-- pagination from new to old, and the tags of the page in one query.
pub mod Effects
pub mod Matching
pub mod Pages
mod Tests
use scoreplay_media_api.Prelude.{
  ℕ, ◌+◌, Bool, true, false, not, ◌&&◌, ◌||◌, List, [], ◌∷◌, ◌++◌, map, Option, none, some, Text,
  text_eq, any, filter, length, is_empty, ltb, ◌==◌, if◌then◌else◌,
}
use scoreplay_media_api.Result.{Result, ok, err}
use scoreplay_media_api.Domain.{Uuid, Time, Tag, Media, Context}
use scoreplay_media_api.Database.{
  TagRow, MediaRow, LinkRow, Db, Env, Tx, pure, statement, ◌>>=◌, with_tenant_tx,
}
use scoreplay_media_api.Paging.{sort_by, fetch, cut_page}
use scoreplay_media_api.MediaRepo.{scan_media, join_tags, joined_name, joined_tag}

pub record MediaFilter : Type 0 where
  pub tag_ids : List Uuid
  pub tag_names : List Text

abbrev pub MediaCursor : Type 0
MediaCursor = Time × Uuid

abbrev pub media_key : MediaRow → MediaCursor
media_key r = (r.created_at, r.id)

-- ORDER BY created_at DESC, id DESC, and (created_at, id) < the cursor.
abbrev pub media_before : MediaCursor → MediaCursor → Bool
media_before (t, i) (u, j) = ltb u t || t == u && ltb j i

-- COUNT(DISTINCT …)
unfoldable pub count_distinct : List Uuid → ℕ
count_distinct [] = 0
count_distinct (x ∷ xs) = let n = count_distinct xs in if any (λ y. y == x) xs then n else n + 1

abbrev pub among : List Uuid → Uuid → Bool
among ids i = any (λ j. j == i) ids

-- The media_tags rows that the first case joins to a media item.
unfoldable pub links_by_id : Uuid → List Uuid → List LinkRow → List LinkRow
links_by_id media ids = filter (λ l. l.media_id == media && among ids l.tag_id)

-- GROUP BY m.id HAVING COUNT(DISTINCT mt.tag_id) = N
unfoldable pub matches_ids : List Uuid → List LinkRow → MediaRow → Bool
unfolding links_by_id
matches_ids ids links m =
    count_distinct (map (λ l. l.tag_id) (links_by_id m.id ids links)) == length ids

abbrev pub named_among : List Text → TagRow → Bool
named_among names t = any (λ n. text_eq n t.name) names

-- The tags that the second case joins to a media item.
unfoldable pub tags_by_name : Uuid → List Text → List TagRow → List LinkRow → List TagRow
tags_by_name media names tags links =
    filter
      (λ t.
        any (λ (l : LinkRow). l.media_id == media && l.tag_id == t.id) links && named_among names t)
      tags

-- GROUP BY m.id HAVING COUNT(DISTINCT t.id) = N
unfoldable pub matches_names : List Text → List TagRow → List LinkRow → MediaRow → Bool
unfolding tags_by_name
matches_names names tags links m =
    count_distinct (map (λ t. t.id) (tags_by_name m.id names tags links)) == length names

-- The switch on the filter.
unfoldable pub matches : MediaFilter → Db → MediaRow → Bool
matches f db m =
    if not (is_empty f.tag_ids)
    then matches_ids f.tag_ids db.media_tags m
    else if not (is_empty f.tag_names)
    then matches_names f.tag_names db.tags db.media_tags m
    else true

unfoldable pub candidates : Uuid → MediaFilter → Db → List MediaRow
candidates tenant f db = filter (λ m. m.tenant_id == tenant && matches f db m) db.media

unfoldable pub select_page :
    Uuid → ℕ → Option MediaCursor → MediaFilter → Env → Uuid → Db → Result (List MediaRow) × Db
select_page tenant limit cursor f env id db =
    (ok (fetch media_key media_before limit cursor (candidates tenant f db)), db)

-- WHERE mt.media_id = ANY($1) AND mt.tenant_id = $2 ORDER BY t.name
unfoldable pub select_tags : Uuid → List Uuid → Env → Uuid → Db → Result (List (Uuid × TagRow)) × Db
select_tags tenant ids env fresh db = (
  ok (
      sort_by joined_name env.text_before
        (join_tags (λ l. among ids l.media_id && l.tenant_id == tenant) db.tags db.media_tags)),
  db,
)

-- Each tag row goes to the media item of its id.
abbrev pub with_page_tags : List (Uuid × TagRow) → MediaRow → Media
with_page_tags tags m = scan_media m (map joined_tag (filter (λ p. p.0 == m.id) tags))

abbrev pub load_tags :
    Uuid → List MediaRow × Option MediaCursor → Tx (List Media × Option MediaCursor)
load_tags tenant ([], next) = pure ([], next)
load_tags tenant (m ∷ ms, next) = do
  tags ← statement (select_tags tenant (map (λ r. r.id) (m ∷ ms)))
  pure (map (with_page_tags tags) (m ∷ ms), next)

unfoldable pub list_in_tx :
    ℕ → Option MediaCursor → MediaFilter → Uuid → Tx (List Media × Option MediaCursor)
list_in_tx limit cursor f tenant = do
  rows ← statement (select_page tenant limit cursor f)
  load_tags tenant (cut_page media_key limit rows)

unfoldable pub list :
    Env
    → Context
    → ℕ
    → Option MediaCursor
    → MediaFilter
    → Db
    → Result (List Media × Option MediaCursor) × Db
unfolding list_in_tx
list env ctx limit cursor f db = with_tenant_tx (list_in_tx limit cursor f) env ctx db
