-- ===== src/TagRepo/Branches.antt =====
-- internal/adapter/postgres/tag_repo.go: what each method returns on each branch, if no statement fails.
use scoreplay_media_api.Prelude.{
  ◌≡◌, refl, sym, ◌∙◌, inl, inr, Bool, true, false, not, ◌&&◌, List, [], ◌∷◌, map, Option, none,
  some, Text, In, any, find, filter, length, arith, Bool-cases, ◌==◌,
}
use mathlib.Core.Path.{subst}
use scoreplay_media_api.Result.{ok, err, err_not_found, err_conflict}
use scoreplay_media_api.Domain.{Uuid, Context, tenant_id_from_context}
use scoreplay_media_api.Database.{TagRow, Db, Env, pure, raise, statement, ◌>>=◌}
use scoreplay_media_api.Database.Steady.{steady, with_tenant_tx-steady}
use scoreplay_media_api.TagRepo.{
  scan_tag, named, owned, renamed, insert_tag, select_tag, update_tag, delete_tag, create_or_get_tx,
  rename_tx, delete_tx, create_or_get, rename, delete,
}

pub find→In :
    (p : TagRow → Bool) (row : TagRow) (rows : List TagRow)
    → find p rows ≡ some row
    → In row rows × (p row ≡ true)
unfolding find
find→In p row [] h = absurd cc
find→In p row (x ∷ rows) h = elim (Bool-cases (p x)) [
  | inl e ↦ let q : x ≡ row = cc in (inl (sym q), subst (λ y. p y ≡ true) q e)
  | inr e ↦ let (m, k) = find→In p row rows (rw e at h) in (inr m, k)
]

pub any-some :
    (p : TagRow → Bool) (rows : List TagRow)
    → any p rows ≡ true
    → (row : TagRow) × (find p rows ≡ some row)
unfolding any find
any-some p [] h = absurd (ground arith)
any-some p (x ∷ rows) h = elim (Bool-cases (p x)) [
  | inl e ↦ (x, rw e refl)
  | inr e ↦ let (row, q) = any-some p rows (ground arith) in (row, rw e q)
]

counted :
    (p : TagRow → Bool) (rows : List TagRow)
    → any p rows ≡ true
    → (length (filter p rows) == 0) ≡ false
unfolding any filter
counted p [] h = absurd (ground arith)
counted p (x ∷ rows) h = elim (Bool-cases (p x)) [
  | inl e ↦ rw e (ground arith)
  | inr e ↦ rw e (counted p rows (ground arith))
]

any-find :
    (p : TagRow → Bool) (row : TagRow) (rows : List TagRow)
    → find p rows ≡ some row
    → any p rows ≡ true
unfolding any find
any-find p row [] h = absurd cc
any-find p row (x ∷ rows) h = elim (Bool-cases (p x)) [
  | inl e ↦ rw e refl
  | inr e ↦ rw e (any-find p row rows (rw e at h))
]

any-missing : (p : TagRow → Bool) (rows : List TagRow) → find p rows ≡ none → any p rows ≡ false
any-missing p rows h = elim (Bool-cases (any p rows)) [
  | inl e ↦ let (row, q) = any-some p rows e in absurd (both row (sym h ∙ q))
  | inr e ↦ e
]
  where
    both : (row : TagRow) → ◌≡◌ {A = Option TagRow} none (some row) → ⊥
    both row q = cc

module _ (env : Env) (ctx : Context) (tenant : Uuid) (db : Db)
    (h : tenant_id_from_context ctx ≡ ok tenant) where
  abbrev pub new_row : Text → TagRow
  new_row name = record { id = env.draw 2; tenant_id = tenant; name = name; created_at = env.now }

  pub create_new :
      (name : Text)
      → any (named tenant name) db.tags ≡ false
      → any (λ r. r.id == env.draw 2) db.tags ≡ false
      → create_or_get (steady env) ctx name db
        ≡ (ok (scan_tag (new_row name), true), record db { tags = new_row name ∷ db.tags })
  unfolding create_or_get create_or_get_tx ◌>>=◌ statement insert_tag select_tag pure
  create_new name e f =
      with_tenant_tx-steady (create_or_get_tx name) env ctx db tenant h ∙ rw (e, f) refl

  pub create_old :
      (name : Text) (row : TagRow)
      → any (named tenant name) db.tags ≡ true
      → find (named tenant name) db.tags ≡ some row
      → create_or_get (steady env) ctx name db ≡ (ok (scan_tag row, false), db)
  unfolding create_or_get create_or_get_tx ◌>>=◌ statement insert_tag select_tag pure
  create_old name row e f =
      with_tenant_tx-steady (create_or_get_tx name) env ctx db tenant h ∙ rw (e, f) refl

  pub rename_missing :
      (id : Uuid) (name : Text)
      → find (owned tenant id) db.tags ≡ none
      → rename (steady env) ctx id name db ≡ (err err_not_found, db)
  unfolding rename rename_tx ◌>>=◌ statement update_tag pure raise
  rename_missing id name e =
      with_tenant_tx-steady (rename_tx id name) env ctx db tenant h ∙ rw (e, update_tag) refl

  pub rename_taken :
      (id : Uuid) (name : Text) (row : TagRow)
      → find (owned tenant id) db.tags ≡ some row
      → any (λ r. named tenant name r && not (r.id == id)) db.tags ≡ true
      → rename (steady env) ctx id name db ≡ (err err_conflict, db)
  unfolding rename rename_tx ◌>>=◌ statement update_tag pure raise
  rename_taken id name row e f =
      with_tenant_tx-steady (rename_tx id name) env ctx db tenant h ∙ rw (e, update_tag) (rw f refl)

  pub rename_done :
      (id : Uuid) (name : Text) (row : TagRow)
      → find (owned tenant id) db.tags ≡ some row
      → any (λ r. named tenant name r && not (r.id == id)) db.tags ≡ false
      → rename (steady env) ctx id name db ≡ (
        ok (scan_tag (record row { name = name })),
        record db { tags = map (renamed tenant id name) db.tags },
      )
  unfolding rename rename_tx ◌>>=◌ statement update_tag pure raise
  rename_done id name row e f =
      with_tenant_tx-steady (rename_tx id name) env ctx db tenant h ∙ rw (e, update_tag) (rw f refl)

  pub delete_missing :
      (id : Uuid)
      → find (owned tenant id) db.tags ≡ none
      → delete (steady env) ctx id db ≡ (err err_not_found, db)
  unfolding delete delete_tx ◌>>=◌ statement delete_tag pure raise
  delete_missing id e =
      with_tenant_tx-steady (delete_tx id) env ctx db tenant h
      ∙ rw (any-missing (owned tenant id) db.tags e) refl

  abbrev pub without : Uuid → Db
  without id = record db {
    tags = filter (λ r. not (owned tenant id r)) db.tags;
    media_tags = filter (λ l. not (l.tag_id == id)) db.media_tags;
  }

  pub delete_done :
      (id : Uuid) (row : TagRow)
      → find (owned tenant id) db.tags ≡ some row
      → delete (steady env) ctx id db ≡ (ok tt, without id)
  unfolding delete delete_tx ◌>>=◌ statement delete_tag pure raise
  delete_done id row e =
      let there = any-find (owned tenant id) row db.tags e in
      with_tenant_tx-steady (delete_tx id) env ctx db tenant h
      ∙ rw (there, counted (owned tenant id) db.tags there) refl
