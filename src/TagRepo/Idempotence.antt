-- ===== src/TagRepo/Idempotence.antt =====
-- internal/adapter/postgres/tag_repo.go: CreateOrGet gives one tag for a name.
use scoreplay_media_api.Prelude.{
  ◌≡◌, refl, ◌∙◌, inl, inr, Bool, true, false, Option, none, some, Text, List, [], ◌∷◌,
  text_eq_refl, any, find, arith, Bool-cases, ◌==◌,
}
use mathlib.Core.Path.{subst}
use scoreplay_media_api.Result.{ok, internal}
use scoreplay_media_api.Domain.{Uuid, Time, Tag, Context, tenant_id_from_context}
use scoreplay_media_api.Database.{TagRow, Db, Env, pure, statement, ◌>>=◌}
use scoreplay_media_api.Database.Ensures.{
  Post, Ensures, Ensures-pure, Ensures-raise, Ensures-statement, Ensures-bind,
}
use scoreplay_media_api.Database.Steady.{steady, with_tenant_tx-steady, with_tenant_tx-Post}
use scoreplay_media_api.TagRepo.{
  scan_tag, named, existing, inserted, insert_tag, select_tag, create_or_get_tx, create_or_get,
}

-- The tenant's tag with a name.
abbrev pub IsNamed : Uuid → Text → Tag → Db → Type 0
IsNamed tenant name tag db =
    (row : TagRow) × (find (named tenant name) db.tags ≡ some row) × (scan_tag row ≡ tag)

any→find :
    (tenant : Uuid) (name : Text) (rows : List TagRow) (row : TagRow)
    → find (named tenant name) rows ≡ some row
    → any (named tenant name) rows ≡ true
unfolding find any
any→find tenant name [] row h = absurd (none_ne row h)
  where
    none_ne : (row : TagRow) → ◌≡◌ {A = Option TagRow} none (some row) → ⊥
    none_ne row h = cc
any→find tenant name (x ∷ rows) row h = elim (Bool-cases (named tenant name x)) [
  | inl e ↦ rw (e, any) refl
  | inr e ↦ rw (e, any) (any→find tenant name rows row (rw (e, find) at h))
]

named_self :
    (tenant : Uuid) (name : Text) (id : Uuid) (now : Time)
    → named tenant name (record { id = id; tenant_id = tenant; name = name; created_at = now })
      ≡ true
named_self tenant name id now = ground (arith, text_eq_refl name)

module _ (tenant : Uuid) (name : Text) where
  -- What the first statement leaves.
  Inserted : Option TagRow → Db → Type 0
  Inserted none db = Unit
  Inserted (some row) db = IsNamed tenant name (scan_tag row) db

  insert_tag-Inserted :
      (env : Env) (id : Uuid) (db : Db) → Post Inserted (insert_tag tenant name env id db)
  unfolding insert_tag Inserted find
  insert_tag-Inserted env id db = elim (Bool-cases (any (named tenant name) db.tags)) [
    | inl e ↦ rw e tt
    | inr e ↦ elim (Bool-cases (any (λ r. r.id == id) db.tags)) [
      | inl f ↦ rw (e, f) tt
      | inr f ↦
          rw (e, f)
            (
              record { id = id; tenant_id = tenant; name = name; created_at = env.now },
              rw (named_self tenant name id env.now) refl,
              refl,
            )
    ]
  ]

  existing-IsNamed :
      (found : Option TagRow)
      → Ensures
          (λ db. find (named tenant name) db.tags ≡ found)
          (existing found)
          (λ r db. IsNamed tenant name r.0 db)
  existing-IsNamed none = Ensures-raise _ _ internal
  existing-IsNamed (some row) = Ensures-pure _ _ _ (λ db h. (row, h, refl))

  inserted-IsNamed :
      (row : Option TagRow)
      → Ensures (Inserted row) (inserted tenant name row) (λ r db. IsNamed tenant name r.0 db)
  unfolding Inserted select_tag
  inserted-IsNamed (some row) = Ensures-pure _ _ _ (λ db h. h)
  inserted-IsNamed none =
      Ensures-bind _ (λ found db. find (named tenant name) db.tags ≡ found) _ _ _
        (Ensures-statement _ _ _ (λ env id db h. refl)) existing-IsNamed

  create_or_get_tx-IsNamed :
      (P : Db → Type 0)
      → Ensures P (create_or_get_tx name tenant) (λ r db. IsNamed tenant name r.0 db)
  unfolding create_or_get_tx
  create_or_get_tx-IsNamed P =
      Ensures-bind P Inserted _ _ _
        (Ensures-statement P Inserted _ (λ env id db h. insert_tag-Inserted env id db))
        inserted-IsNamed

  create_or_get-IsNamed :
      (env : Env) (ctx : Context) (db : Db)
      → tenant_id_from_context ctx ≡ ok tenant
      → Post (λ (r : Tag × Bool) d. IsNamed tenant name r.0 d) (create_or_get env ctx name db)
  unfolding create_or_get
  create_or_get-IsNamed env ctx db h =
      with_tenant_tx-Post _ (create_or_get_tx name) env ctx db tenant h (create_or_get_tx-IsNamed _)

  create_or_get_named :
      (env : Env) (ctx : Context) (tag : Tag) (db : Db)
      → tenant_id_from_context ctx ≡ ok tenant
      → IsNamed tenant name tag db
      → create_or_get (steady env) ctx name db ≡ (ok (tag, false), db)
  unfolding create_or_get create_or_get_tx ◌>>=◌ statement insert_tag select_tag pure
  create_or_get_named env ctx tag db h (row, found, same) =
      with_tenant_tx-steady (create_or_get_tx name) env ctx db tenant h
      ∙ rw (any→find tenant name db.tags row found, found, same) refl

-- If CreateOrGet returns a tag, then a second call of the tenant with the same name, none of whose
-- statements fails, returns the same tag, says that it did not create it, and changes no table.
pub create_or_get_idem :
    (env env' : Env) (ctx : Context) (tenant : Uuid) (name : Text) (tag : Tag) (created : Bool)
    (db db' : Db)
    → tenant_id_from_context ctx ≡ ok tenant
    → create_or_get env ctx name db ≡ (ok (tag, created), db')
    → create_or_get (steady env') ctx name db' ≡ (ok (tag, false), db')
create_or_get_idem env env' ctx tenant name tag created db db' h e =
    create_or_get_named tenant name env' ctx tag db' h (
      subst (Post (λ (r : Tag × Bool) d. IsNamed tenant name r.0 d)) e
        (create_or_get-IsNamed tenant name env ctx db h))
