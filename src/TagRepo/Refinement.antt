-- ===== src/TagRepo/Refinement.antt =====
-- internal/adapter/postgres/tag_repo.go: CreateOrGet, Rename and Delete do to a tenant's tags what a map
-- from ids to names, with distinct names, does.
use scoreplay_media_api.Prelude.{
  ◌≡◌, ◌≢◌, refl, ap, ◌∙◌, inl, inr, Bool, true, false, not, ◌&&◌, none, some, Text, text_eq→eq,
  any, find, arith, Bool-cases, Option-cases, ◌==◌,
}
use scoreplay_media_api.Result.{Error, Result, ok, err, err_not_found, err_conflict}
use scoreplay_media_api.Domain.{Uuid, Tag, Context, tenant_id_from_context}
use scoreplay_media_api.Database.{TagRow, Db, Env}
use scoreplay_media_api.Database.Steady.{steady}
use scoreplay_media_api.Database.Valid.{IsValid}
use scoreplay_media_api.TagRepo.{named, owned, create_or_get, rename, delete}
use scoreplay_media_api.TagRepo.Names.{
  Names, name_of, name_in, update, Same, find-name_of, name_of-renamed, name_of-filter, name_of-In,
  taken_by, taken_by_none, named_by_none, name_of_absent, name_of-cons,
}
use scoreplay_media_api.TagRepo.Branches.{
  find→In, any-some, new_row, create_new, create_old, rename_missing, rename_taken, rename_done,
  delete_missing, delete_done,
}

pub data TagCall : Type 0 where
  create : Text → TagCall
  change : Uuid → Text → TagCall
  remove : Uuid → TagCall

pub data Answer : Type 0 where
  got : Tag → Bool → Answer
  gone : Answer
  failed : Error → Answer

-- What a map of names allows a call to answer, and the map after it.
pub data Allowed (f g : Names) : TagCall → Answer → Type 0 where
  is_new :
      (name : Text) (tag : Tag)
      → tag.name ≡ name
      → f tag.id ≡ none
      → ((i : Uuid) → f i ≢ some name)
      → Same (update f tag.id (some name)) g
      → Allowed f g (create name) (got tag true)
  is_there :
      (name : Text) (tag : Tag)
      → tag.name ≡ name
      → f tag.id ≡ some name
      → Same f g
      → Allowed f g (create name) (got tag false)
  changed :
      (id : Uuid) (name old : Text) (tag : Tag)
      → tag.id ≡ id
      → tag.name ≡ name
      → f id ≡ some old
      → ((other : Uuid) → other ≢ id → f other ≢ some name)
      → Same (update f id (some name)) g
      → Allowed f g (change id name) (got tag false)
  taken :
      (id other : Uuid) (name old : Text)
      → f id ≡ some old
      → other ≢ id
      → f other ≡ some name
      → Same f g
      → Allowed f g (change id name) (failed err_conflict)
  unknown :
      (id : Uuid) (name : Text)
      → f id ≡ none
      → Same f g
      → Allowed f g (change id name) (failed err_not_found)
  removed :
      (id : Uuid) (old : Text)
      → f id ≡ some old
      → Same (update f id none) g
      → Allowed f g (remove id) gone
  absent : (id : Uuid) → f id ≡ none → Same f g → Allowed f g (remove id) (failed err_not_found)

abbrev pub tag_answer : Result (Tag × Bool) × Db → Answer × Db
tag_answer (ok (tag, created), db) = (got tag created, db)
tag_answer (err e, db) = (failed e, db)

abbrev pub change_answer : Result Tag × Db → Answer × Db
change_answer (ok tag, db) = (got tag false, db)
change_answer (err e, db) = (failed e, db)

abbrev pub remove_answer : Result (Unit {0}) × Db → Answer × Db
remove_answer (ok u, db) = (gone, db)
remove_answer (err e, db) = (failed e, db)

unfoldable pub perform : Env → Context → TagCall → Db → Answer × Db
perform env ctx (create name) db = tag_answer (create_or_get env ctx name db)
perform env ctx (change id name) db = change_answer (rename env ctx id name db)
perform env ctx (remove id) db = remove_answer (delete env ctx id db)

module _ (env : Env) (ctx : Context) (tenant : Uuid) (db : Db)
    (h : tenant_id_from_context ctx ≡ ok tenant) where
  abbrev pub before : Names
  before = name_of tenant db.tags

  name_found :
      (id : Uuid) (row : TagRow)
      → find (owned tenant id) db.tags ≡ some row
      → before id ≡ some row.name
  name_found id row e = find-name_of tenant id db.tags ∙ ap name_in e

  name_missing : (id : Uuid) → find (owned tenant id) db.tags ≡ none → before id ≡ none
  name_missing id e = find-name_of tenant id db.tags ∙ ap name_in e

  found_id : (id : Uuid) (row : TagRow) → find (owned tenant id) db.tags ≡ some row → row.id ≡ id
  found_id id row e = let (m, mine) = find→In (owned tenant id) row db.tags e in ground arith

  abbrev pub Refines : TagCall → Answer × Db → Type 0
  Refines call r = Allowed before (name_of tenant r.1.tags) call r.0

  change-Refines :
      (v : IsValid db) (id : Uuid) (name : Text)
      → Refines (change id name) (perform (steady env) ctx (change id name) db)
  unfolding perform
  change-Refines v id name = elim (Option-cases (find (owned tenant id) db.tags)) [
    | inl e ↦
        rw (rename_missing env ctx tenant db h id name e)
          (unknown id name (name_missing id e) (λ i. refl))
    | inr (row, e) ↦
        elim (Bool-cases (any (λ r. named tenant name r && not (r.id == id)) db.tags)) [
          | inl f ↦
              let (other, ne, q) = taken_by tenant id name db.tags v.tag_ids f in
              rw (rename_taken env ctx tenant db h id name row e f)
                (taken id other name row.name (name_found id row e) ne q (λ i. refl))
          | inr f ↦ rw (rename_done env ctx tenant db h id name row e f) (
              changed id name row.name _ (found_id id row e) refl (name_found id row e)
                (taken_by_none tenant id name db.tags f)
                (λ i. name_of-renamed tenant id i name row.name db.tags (name_found id row e)))
        ]
  ]

  remove-Refines : (id : Uuid) → Refines (remove id) (perform (steady env) ctx (remove id) db)
  unfolding perform
  remove-Refines id = elim (Option-cases (find (owned tenant id) db.tags)) [
    | inl e ↦
        rw (delete_missing env ctx tenant db h id e) (absent id (name_missing id e) (λ i. refl))
    | inr (row, e) ↦
        rw (delete_done env ctx tenant db h id row e)
          (removed id row.name (name_found id row e) (λ i. name_of-filter tenant id i db.tags))
  ]

  create-Refines :
      (v : IsValid db) (name : Text)
      → any (λ r. r.id == env.draw 2) db.tags ≡ false
      → Refines (create name) (perform (steady env) ctx (create name) db)
  unfolding perform
  create-Refines v name fresh = elim (Bool-cases (any (named tenant name) db.tags)) [
    | inl e ↦
        let (row, f) = any-some (named tenant name) db.tags e in
        let (m, mine) = find→In (named tenant name) row db.tags f in
        let q = text_eq→eq row.name name (ground arith) in
        rw (create_old env ctx tenant db h name row e f) (
          is_there name _ q (name_of-In tenant row db.tags v.tag_ids m (ground arith) ∙ ap some q)
            (λ i. refl))
    | inr e ↦ rw (create_new env ctx tenant db h name e fresh) (
        is_new name _ refl (name_of_absent tenant (env.draw 2) db.tags fresh)
          (named_by_none tenant name db.tags e)
          (λ i. name_of-cons tenant (new_row env ctx tenant db h name) db.tags i refl))
  ]

  -- A call of CreateOrGet, Rename or Delete, none of whose statements fails, answers what the map from
  -- ids to names of the tenant's tags allows, and leaves the map that it says: a new name gets a new
  -- id and a known one its tag; a renaming is refused as not found or, if another tag has the name, as
  -- a conflict, and otherwise updates the map; a deletion takes the id away or is refused as not found.
  -- The constraints of the schema hold before the call, and the id that is drawn is new.
  pub perform-Refines :
      (call : TagCall)
      → IsValid db
      → any (λ r. r.id == env.draw 2) db.tags ≡ false
      → Refines call (perform (steady env) ctx call db)
  perform-Refines (create name) v fresh = create-Refines v name fresh
  perform-Refines (change id name) v fresh = change-Refines v id name
  perform-Refines (remove id) v fresh = remove-Refines id
