-- ===== src/MediaRepo.antt =====
-- internal/adapter/postgres/media_repo.go: each SQL statement, and each method as it sends them.
pub mod Effects
pub mod Removal
pub mod Methods
pub mod Listing
pub mod Rows
use scoreplay_media_api.Prelude.{
  ℕ, ◌+◌, Bool, true, false, not, ◌&&◌, ◌||◌, List, [], ◌∷◌, ◌++◌, map, Option, none, some, Text,
  any, find, filter, length, is_empty, ltb, ◌==◌, if◌then◌else◌,
}
use scoreplay_media_api.Result.{
  Error, Result, ok, err, err_not_found, err_validation, unique_violation, internal,
}
use scoreplay_media_api.Domain.{Uuid, Tag, Media, MediaType, Context}
use scoreplay_media_api.Database.{
  TagRow, MediaRow, LinkRow, Db, Env, Conn, Tx, pure, raise, statement, ◌>>=◌, ◌>>◌, with_tenant_tx,
}
use scoreplay_media_api.Paging.{sort_by, fetch, cut_page}
use scoreplay_media_api.TagRepo.{scan_tag}

abbrev pub scan_media : MediaRow → List Tag → Media
scan_media r tags = record {
  id = r.id;
  name = r.name;
  media_type = r.media_type;
  file_path = r.file_path;
  original_name = r.original_name;
  file_size = r.file_size;
  tags = tags;
  created_at = r.created_at;
}

-- What MediaService hands over: a media item without the columns that the database fills in.
pub record NewMedia : Type 0 where
  pub name : Text
  pub media_type : MediaType
  pub file_path : Text
  pub original_name : Text
  pub file_size : ℕ

-- WHERE id = $1 AND tenant_id = $2
abbrev pub owned : Uuid → Uuid → MediaRow → Bool
owned tenant id r = r.id == id && r.tenant_id == tenant

-- INSERT INTO media … RETURNING id, created_at
unfoldable pub insert_media : Uuid → NewMedia → Env → Uuid → Db → Result MediaRow × Db
insert_media tenant m env id db =
    let row : MediaRow = record {
      id = id;
      tenant_id = tenant;
      name = m.name;
      media_type = m.media_type;
      file_path = m.file_path;
      original_name = m.original_name;
      file_size = m.file_size;
      created_at = env.now;
    } in
    if any (λ r. r.id == id) db.media
    then (err unique_violation, db)
    else (ok row, record db { media = row ∷ db.media })

abbrev pub linked : Uuid → Uuid → LinkRow → Bool
linked media tag l = l.media_id == media && l.tag_id == tag

abbrev pub tag_owned : Uuid → Uuid → TagRow → Bool
tag_owned tenant id t = t.id == id && t.tenant_id == tenant

-- INSERT INTO media_tags … SELECT … WHERE EXISTS (SELECT 1 FROM tags WHERE id = $3 AND tenant_id = $1):
-- no row for a tag that the tenant does not have, and a primary key violation for a pair that is there.
unfoldable pub insert_link : Uuid → Uuid → Uuid → Env → Uuid → Db → Result (Unit {0}) × Db
insert_link tenant media tag env id db =
    if not (any (tag_owned tenant tag) db.tags)
    then (ok tt, db)
    else if any (linked media tag) db.media_tags
    then (err unique_violation, db)
    else (
      ok tt,
      record db {
        media_tags = record { tenant_id = tenant; media_id = media; tag_id = tag } ∷ db.media_tags;
      },
    )

unfoldable pub insert_links : Uuid → Uuid → List Uuid → Tx (Unit {0})
insert_links tenant media [] = pure tt
insert_links tenant media (tag ∷ tags) = do
  statement (insert_link tenant media tag)
  insert_links tenant media tags

-- tags INNER JOIN media_tags ON tag_id = id, for the links that pass a test.
unfoldable pub join_links : (LinkRow → Bool) → TagRow → List LinkRow → List (Uuid × TagRow)
join_links p t [] = []
join_links p t (l ∷ links) =
    let rest = join_links p t links in
    if l.tag_id == t.id && p l then (l.media_id, t) ∷ rest else rest

unfoldable pub join_tags : (LinkRow → Bool) → List TagRow → List LinkRow → List (Uuid × TagRow)
join_tags p [] links = []
join_tags p (t ∷ tags) links = join_links p t links ++ join_tags p tags links

abbrev pub joined_name : Uuid × TagRow → Text
joined_name (media, t) = t.name

abbrev pub joined_tag : Uuid × TagRow → Tag
joined_tag (media, t) = scan_tag t

-- SELECT … WHERE mt.media_id = $1 AND mt.tenant_id = $2 ORDER BY t.name
unfoldable pub query_media_tags : Uuid → Uuid → Env → Uuid → Db → Result (List Tag) × Db
query_media_tags tenant media env id db = (
  ok (
      map joined_tag (
        sort_by joined_name env.text_before
          (join_tags (λ l. l.media_id == media && l.tenant_id == tenant) db.tags db.media_tags))),
  db,
)

unfoldable pub create_tx : NewMedia → List Uuid → Uuid → Tx Media
create_tx m tag_ids tenant = do
  row ← statement (insert_media tenant m)
  insert_links tenant row.id tag_ids
  tags ← statement (query_media_tags tenant row.id)
  pure (scan_media row tags)

unfoldable pub create : Env → Context → NewMedia → List Uuid → Db → Result Media × Db
unfolding create_tx
create env ctx m tag_ids db = with_tenant_tx (create_tx m tag_ids) env ctx db

unfoldable pub select_media : Uuid → Uuid → Env → Uuid → Db → Result (Option MediaRow) × Db
select_media tenant id env fresh db = (ok (find (owned tenant id) db.media), db)

abbrev pub with_tags : Uuid → Option MediaRow → Tx Media
with_tags tenant none = raise err_not_found
with_tags tenant (some row) = do
  tags ← statement (query_media_tags tenant row.id)
  pure (scan_media row tags)

unfoldable pub get_by_id_tx : Uuid → Uuid → Tx Media
get_by_id_tx id tenant = do row ← statement (select_media tenant id); with_tags tenant row

unfoldable pub get_by_id : Env → Context → Uuid → Db → Result Media × Db
unfolding get_by_id_tx
get_by_id env ctx id db = with_tenant_tx (get_by_id_tx id) env ctx db

-- DELETE FROM media WHERE id = $1 AND tenant_id = $2 RETURNING file_path, and the links with it.
unfoldable pub delete_media : Uuid → Uuid → Env → Uuid → Db → Result (Option Text) × Db
delete_media tenant id env fresh db = elim (find (owned tenant id) db.media) [
  | none ↦ (ok none, db)
  | some row ↦ (
    ok (some row.file_path),
    record db {
      media = filter (λ r. not (owned tenant id r)) db.media;
      media_tags = filter (λ l. not (l.media_id == id)) db.media_tags;
    },
  )
]

abbrev pub deleted : Option Text → Tx Text
deleted none = raise err_not_found
deleted (some path) = pure path

unfoldable pub delete_tx : Uuid → Uuid → Tx Text
delete_tx id tenant = do path ← statement (delete_media tenant id); deleted path

unfoldable pub delete : Env → Context → Uuid → Db → Result Text × Db
unfolding delete_tx
delete env ctx id db = with_tenant_tx (delete_tx id) env ctx db

-- SELECT EXISTS(SELECT 1 FROM media WHERE id = $1 AND tenant_id = $2)
unfoldable pub media_exists : Uuid → Uuid → Env → Uuid → Db → Result Bool × Db
media_exists tenant id env fresh db = (ok (any (owned tenant id) db.media), db)

-- The tags of the tenant whose id is in the array.
unfoldable pub tenant_tags : Uuid → List Uuid → List TagRow → List TagRow
tenant_tags tenant ids = filter (λ t. any (λ i. i == t.id) ids && t.tenant_id == tenant)

-- Links a list of tags to a media item, passing over the pairs that are there, and counts the new.
unfoldable pub link_all : Uuid → Uuid → List TagRow → List LinkRow → ℕ × List LinkRow
link_all tenant media [] links = (0, links)
link_all tenant media (t ∷ ts) links =
    let (n, rest) = link_all tenant media ts links in
    if any (linked media t.id) rest
    then (n, rest)
    else (n + 1, record { tenant_id = tenant; media_id = media; tag_id = t.id } ∷ rest)

-- INSERT INTO media_tags … SELECT … FROM tags WHERE id = ANY($3) AND tenant_id = $1 ON CONFLICT DO NOTHING
unfoldable pub attach_links : Uuid → Uuid → List Uuid → Env → Uuid → Db → Result ℕ × Db
attach_links tenant media ids env fresh db =
    let (n, links) = link_all tenant media (tenant_tags tenant ids db.tags) db.media_tags in
    (ok n, record db { media_tags = links })

-- SELECT COUNT(*) FROM tags WHERE id = ANY($1) AND tenant_id = $2
unfoldable pub count_tags : Uuid → List Uuid → Env → Uuid → Db → Result ℕ × Db
count_tags tenant ids env fresh db = (ok (length (tenant_tags tenant ids db.tags)), db)

abbrev pub counted : List Uuid → ℕ → Tx (Unit {0})
counted ids valid = if ltb valid (length ids) then raise err_validation else pure tt

-- Fewer new links than ids may mean unknown ids, so the known ones are counted.
abbrev pub checked : Uuid → List Uuid → ℕ → Tx (Unit {0})
checked tenant ids n =
    if ltb n (length ids)
    then (do valid ← statement (count_tags tenant ids); counted ids valid)
    else pure tt

abbrev pub attach_existing : Uuid → Uuid → List Uuid → Bool → Tx (Unit {0})
attach_existing tenant media ids false = raise err_not_found
attach_existing tenant media [] true = pure tt
attach_existing tenant media (id ∷ ids) true = do
  n ← statement (attach_links tenant media (id ∷ ids))
  checked tenant (id ∷ ids) n

unfoldable pub attach_tags_tx : Uuid → List Uuid → Uuid → Tx (Unit {0})
attach_tags_tx media ids tenant = do
  exists ← statement (media_exists tenant media)
  attach_existing tenant media ids exists

unfoldable pub attach_tags : Env → Context → Uuid → List Uuid → Db → Result (Unit {0}) × Db
unfolding attach_tags_tx
attach_tags env ctx media ids db = with_tenant_tx (attach_tags_tx media ids) env ctx db

-- DELETE FROM media_tags WHERE media_id = $1 AND tag_id = $2 AND tenant_id = $3
unfoldable pub delete_link : Uuid → Uuid → Uuid → Env → Uuid → Db → Result (Unit {0}) × Db
delete_link tenant media tag env fresh db = (
  ok tt,
  record db {
    media_tags = filter (λ l. not (linked media tag l && l.tenant_id == tenant)) db.media_tags;
  },
)

abbrev pub detach_existing : Uuid → Uuid → Uuid → Bool → Tx (Unit {0})
detach_existing tenant media tag false = raise err_not_found
detach_existing tenant media tag true = statement (delete_link tenant media tag)

unfoldable pub detach_tag_tx : Uuid → Uuid → Uuid → Tx (Unit {0})
detach_tag_tx media tag tenant = do
  exists ← statement (media_exists tenant media)
  detach_existing tenant media tag exists

unfoldable pub detach_tag : Env → Context → Uuid → Uuid → Db → Result (Unit {0}) × Db
unfolding detach_tag_tx
detach_tag env ctx media tag db = with_tenant_tx (detach_tag_tx media tag) env ctx db
