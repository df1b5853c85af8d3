-- ===== src/TagRepo.antt =====
-- internal/adapter/postgres/tag_repo.go: each SQL statement, and each method as it sends them.
pub mod Effects
pub mod Renaming
pub mod Methods
pub mod Names
pub mod Branches
pub mod Refinement
pub mod Idempotence
mod Tests
use scoreplay_media_api.Prelude.{
  ℕ, ◌+◌, Bool, true, false, not, ◌&&◌, ◌||◌, List, [], ◌∷◌, map, Option, none, some, Text, text_eq,
  any, find, filter, length, is_empty, ltb, ◌==◌, if◌then◌else◌,
}
use scoreplay_media_api.Result.{
  Error, Result, ok, err, err_not_found, err_conflict, unique_violation, internal,
}
use scoreplay_media_api.Domain.{Uuid, Tag, Context}
use scoreplay_media_api.Database.{
  TagRow, LinkRow, Db, Env, Conn, Tx, pure, raise, statement, ◌>>=◌, ◌>>◌, with_tenant_tx,
}
use scoreplay_media_api.Paging.{sort_by, fetch, cut_page}

-- The columns that a SELECT of a tag scans.
abbrev pub scan_tag : TagRow → Tag
scan_tag r = record { id = r.id; name = r.name; created_at = r.created_at }

-- WHERE tenant_id = $1 AND name = $2
abbrev pub named : Uuid → Text → TagRow → Bool
named tenant name r = r.tenant_id == tenant && text_eq r.name name

-- WHERE id = $1 AND tenant_id = $2
abbrev pub owned : Uuid → Uuid → TagRow → Bool
owned tenant id r = r.id == id && r.tenant_id == tenant

-- INSERT INTO tags … ON CONFLICT (tenant_id, name) DO NOTHING RETURNING …; a drawn id that is taken
-- violates the primary key.
unfoldable pub insert_tag : Uuid → Text → Env → Uuid → Db → Result (Option TagRow) × Db
insert_tag tenant name env id db =
    let row : TagRow = record { id = id; tenant_id = tenant; name = name; created_at = env.now } in
    if any (named tenant name) db.tags
    then (ok none, db)
    else if any (λ r. r.id == id) db.tags
    then (err unique_violation, db)
    else (ok (some row), record db { tags = row ∷ db.tags })

unfoldable pub select_tag : Uuid → Text → Env → Uuid → Db → Result (Option TagRow) × Db
select_tag tenant name env id db = (ok (find (named tenant name) db.tags), db)

-- After a conflict the existing row is read; that it is gone is an unexpected error.
abbrev pub existing : Option TagRow → Tx (Tag × Bool)
existing none = raise internal
existing (some row) = pure (scan_tag row, false)

abbrev pub inserted : Uuid → Text → Option TagRow → Tx (Tag × Bool)
inserted tenant name (some row) = pure (scan_tag row, true)
inserted tenant name none = do found ← statement (select_tag tenant name); existing found

unfoldable pub create_or_get_tx : Text → Uuid → Tx (Tag × Bool)
create_or_get_tx name tenant = do row ← statement (insert_tag tenant name); inserted tenant name row

unfoldable pub create_or_get : Env → Context → Text → Db → Result (Tag × Bool) × Db
unfolding create_or_get_tx
create_or_get env ctx name db = with_tenant_tx (create_or_get_tx name) env ctx db

-- The cursor of a tag list: internal/port/repository.go's TagCursor.
abbrev pub TagCursor : Type 0
TagCursor = Text × Uuid

abbrev pub tag_key : TagRow → TagCursor
tag_key r = (r.name, r.id)

-- (name, id) < (name, id), in the collation of the database.
abbrev pub tag_before : (Text → Text → Bool) → TagCursor → TagCursor → Bool
tag_before text_before (n, i) (m, j) = text_before n m || text_eq n m && ltb i j

-- SELECT … WHERE tenant_id = $1 [AND (name, id) > ($2, $3)] ORDER BY name, id LIMIT limit + 1
unfoldable pub select_tags :
    Uuid → ℕ → Option TagCursor → Env → Uuid → Db → Result (List TagRow) × Db
select_tags tenant limit cursor env id db = (
  ok (
      fetch tag_key (tag_before env.text_before) limit cursor
        (filter (λ r. r.tenant_id == tenant) db.tags)),
  db,
)

abbrev pub tag_page : List TagRow × Option TagCursor → List Tag × Option TagCursor
tag_page (rows, next) = (map scan_tag rows, next)

unfoldable pub list_tx : ℕ → Option TagCursor → Uuid → Tx (List Tag × Option TagCursor)
list_tx limit cursor tenant = do
  rows ← statement (select_tags tenant limit cursor)
  pure (tag_page (cut_page tag_key limit rows))

unfoldable pub list :
    Env → Context → ℕ → Option TagCursor → Db → Result (List Tag × Option TagCursor) × Db
unfolding list_tx
list env ctx limit cursor db = with_tenant_tx (list_tx limit cursor) env ctx db

abbrev pub renamed : Uuid → Uuid → Text → TagRow → TagRow
renamed tenant id name r = if owned tenant id r then record r { name = name } else r

-- UPDATE tags SET name = $1 WHERE id = $2 AND tenant_id = $3 RETURNING …; another tag of the tenant
-- with that name violates the unique constraint.
unfoldable pub update_tag : Uuid → Uuid → Text → Env → Uuid → Db → Result (Option TagRow) × Db
update_tag tenant id name env fresh db = elim (find (owned tenant id) db.tags) [
  | none ↦ (ok none, db)
  | some row ↦
      if any (λ r. named tenant name r && not (r.id == id)) db.tags
      then (err unique_violation, db)
      else (
        ok (some (record row { name = name })),
        record db { tags = map (renamed tenant id name) db.tags },
      )
]

-- The unique violation becomes ErrConflict, and every other error is wrapped.
abbrev pub rename_error {ℓ} : {A : Type ℓ} → Result A × Conn → Result A × Conn
rename_error (err unique_violation, c) = (err err_conflict, c)
rename_error r = r

abbrev pub updated : Option TagRow → Tx Tag
updated none = raise err_not_found
updated (some row) = pure (scan_tag row)

unfoldable pub rename_tx : Uuid → Text → Uuid → Tx Tag
rename_tx id name tenant = do
  row ← λ env c. rename_error (statement (update_tag tenant id name) env c)
  updated row

unfoldable pub rename : Env → Context → Uuid → Text → Db → Result Tag × Db
unfolding rename_tx
rename env ctx id name db = with_tenant_tx (rename_tx id name) env ctx db

-- DELETE FROM tags WHERE id = $1 AND tenant_id = $2, with the number of rows; the rows of
-- `media_tags` that name the tag go with it (ON DELETE CASCADE).
unfoldable pub delete_tag : Uuid → Uuid → Env → Uuid → Db → Result ℕ × Db
delete_tag tenant id env fresh db =
    if any (owned tenant id) db.tags
    then (
      ok (length (filter (owned tenant id) db.tags)),
      record db {
        tags = filter (λ r. not (owned tenant id r)) db.tags;
        media_tags = filter (λ l. not (l.tag_id == id)) db.media_tags;
      },
    )
    else (ok 0, db)

abbrev pub deleted : ℕ → Tx (Unit {0})
deleted n = if n == 0 then raise err_not_found else pure tt

unfoldable pub delete_tx : Uuid → Uuid → Tx (Unit {0})
delete_tx id tenant = do n ← statement (delete_tag tenant id); deleted n

unfoldable pub delete : Env → Context → Uuid → Db → Result (Unit {0}) × Db
unfolding delete_tx
delete env ctx id db = with_tenant_tx (delete_tx id) env ctx db
