-- ===== src/MediaRepo/Rows.antt =====
-- internal/adapter/postgres: what Create and Delete do to the table of media, and that CreateOrGet
-- leaves it alone.
use scoreplay_media_api.Prelude.{
  ◌≡◌, refl, sym, ap, ◌∙◌, inl, inr, Bool, true, not, List, [], ◌∷◌, Option, none, some, Text, In,
  any, find, filter, Bool-cases, Option-cases, ◌==◌,
}
use mathlib.Core.Path.{subst}
use scoreplay_media_api.Result.{Result, ok, err, err_not_found, internal}
use scoreplay_media_api.Domain.{Uuid, Context}
use scoreplay_media_api.Database.{TagRow, MediaRow, Db, Env, Conn}
use scoreplay_media_api.Database.Ensures.{
  Post, PostConn, Ensures, Ensures-pure, Ensures-raise, Ensures-statement, Ensures-bind, Preserves,
  with_tenant_tx-Preserves,
}
use scoreplay_media_api.Database.Steady.{with_tenant_tx-Post_any}
use scoreplay_media_api.TagRepo
use scoreplay_media_api.TagRepo.{
  named, existing, inserted, insert_tag, select_tag, create_or_get_tx,
}
use scoreplay_media_api.MediaRepo
use scoreplay_media_api.MediaRepo.{
  NewMedia, owned, tag_owned, linked, scan_media, insert_media, insert_link, insert_links,
  query_media_tags, create_tx, delete_media, deleted, delete_tx,
}

-- The table of media is the given one.
abbrev HasRows : List MediaRow → Db → Type 0
HasRows rows db = db.media ≡ rows

module _ (rows : List MediaRow) where
  insert_tag-HasRows :
      (tenant : Uuid) (name : Text) (env : Env) (id : Uuid) (db : Db)
      → HasRows rows db
      → Post (λ _. HasRows rows) (insert_tag tenant name env id db)
  unfolding insert_tag
  insert_tag-HasRows tenant name env id db h = elim (Bool-cases (any (named tenant name) db.tags)) [
    | inl e ↦ rw e h
    | inr e ↦ elim (Bool-cases (any (λ r. r.id == id) db.tags)) [
      | inl f ↦ rw (e, f) tt
      | inr f ↦ rw (e, f) h
    ]
  ]

  existing-HasRows : (found : Option TagRow) → Preserves (HasRows rows) (existing found)
  existing-HasRows none = Ensures-raise _ _ internal
  existing-HasRows (some row) = Ensures-pure _ _ _ (λ db h. h)

  inserted-HasRows :
      (tenant : Uuid) (name : Text) (row : Option TagRow)
      → Preserves (HasRows rows) (inserted tenant name row)
  unfolding select_tag
  inserted-HasRows tenant name (some row) = Ensures-pure _ _ _ (λ db h. h)
  inserted-HasRows tenant name none =
      Ensures-bind _ (λ _. HasRows rows) _ _ _ (Ensures-statement _ _ _ (λ env id db h. h))
        existing-HasRows

  pub create_or_get_media :
      (env : Env) (ctx : Context) (name : Text) (db : Db)
      → db.media ≡ rows
      → (TagRepo.create_or_get env ctx name db).1.media ≡ rows
  unfolding TagRepo.create_or_get create_or_get_tx
  create_or_get_media env ctx name db h =
      with_tenant_tx-Preserves (HasRows rows) (create_or_get_tx name) env ctx db
        (λ t e.
          Ensures-bind _ (λ _. HasRows rows) _ _ _
            (Ensures-statement _ _ _ (insert_tag-HasRows t name)) (inserted-HasRows t name))
        h

  insert_link-HasRows :
      (tenant media tag : Uuid) (env : Env) (id : Uuid) (db : Db)
      → HasRows rows db
      → Post (λ _. HasRows rows) (insert_link tenant media tag env id db)
  unfolding insert_link
  insert_link-HasRows tenant media tag env id db h =
      elim (Bool-cases (any (tag_owned tenant tag) db.tags)) [
        | inl e ↦ elim (Bool-cases (any (linked media tag) db.media_tags)) [
          | inl f ↦ rw (e, f) tt
          | inr f ↦ rw (e, f) h
        ]
        | inr e ↦ rw e h
      ]

  insert_links-HasRows :
      (tenant media : Uuid) (tags : List Uuid)
      → Preserves (HasRows rows) (insert_links tenant media tags)
  unfolding insert_links
  insert_links-HasRows tenant media [] = Ensures-pure _ _ _ (λ db h. h)
  insert_links-HasRows tenant media (tag ∷ tags) =
      Ensures-bind _ (λ _. HasRows rows) _ _ _
        (Ensures-statement _ _ _ (insert_link-HasRows tenant media tag))
        (λ _. insert_links-HasRows tenant media tags)

module _ (m : NewMedia) (db : Db) where
  -- One new row, with the path of the file.
  pub record Added (d : Db) : Type 0 where
    pub row : MediaRow
    pub path : row.file_path ≡ m.file_path
    pub media : d.media ≡ row ∷ db.media

  abbrev IsNew : MediaRow → Db → Type 0
  IsNew row d = (row.file_path ≡ m.file_path) × (d.media ≡ row ∷ db.media)

  cons_media : (row : MediaRow) (d : Db) → d ≡ db → row ∷ d.media ≡ row ∷ db.media
  cons_media row d h = ap (λ (x : Db). row ∷ x.media) h

  with_path :
      {A : Type 0} (row : MediaRow) (r : Result A × Conn)
      → row.file_path ≡ m.file_path
      → PostConn (λ _. HasRows (row ∷ db.media)) r
      → PostConn (λ _. IsNew row) r
  with_path row (ok a, c) e h = (e, h)
  with_path row (err x, c) e h = tt

  insert_media-IsNew :
      (tenant : Uuid) (env : Env) (id : Uuid) (d : Db)
      → d ≡ db
      → Post IsNew (insert_media tenant m env id d)
  unfolding insert_media
  insert_media-IsNew tenant env id d h =
      elim (Bool-cases (any (λ (r : MediaRow). r.id == id) d.media)) [
        | inl e ↦ rw e tt
        | inr e ↦ rw e (refl, cons_media _ d h)
      ]

  links_after :
      (tenant : Uuid) (row : MediaRow) (tags : List Uuid)
      → Ensures (IsNew row) (insert_links tenant row.id tags) (λ _. IsNew row)
  links_after tenant row tags = record {
    at = λ env c h.
        with_path row (insert_links tenant row.id tags env c) h.0
          ((insert_links-HasRows (row ∷ db.media) tenant row.id tags).at env c h.1);
  }

  create_tx-Added :
      (tenant : Uuid) (tags : List Uuid)
      → Ensures (λ d. d ≡ db) (create_tx m tags tenant) (λ _. Added)
  unfolding create_tx query_media_tags
  create_tx-Added tenant tags =
      Ensures-bind _ IsNew _ _ _ (Ensures-statement _ IsNew _ (insert_media-IsNew tenant)) (λ row.
        Ensures-bind _ (λ _. IsNew row) _ _ _ (links_after tenant row tags)
          (λ _.
            Ensures-bind _ (λ _. IsNew row) _ _ _ (Ensures-statement _ _ _ (λ env id d h. h))
              (λ found. Ensures-pure _ _ _ (λ d h. record { row = row; path = h.0; media = h.1 }))))

  -- Create adds one row for the file, if it succeeds.
  pub create-Added :
      (env : Env) (ctx : Context) (tags : List Uuid)
      → Post (λ _. Added) (MediaRepo.create env ctx m tags db)
  unfolding MediaRepo.create
  create-Added env ctx tags =
      with_tenant_tx-Post_any (λ _. Added) (create_tx m tags) env ctx db
        (λ t. create_tx-Added t tags)

module _ (db : Db) where
  -- One row is gone, whose path is returned.
  pub record Removed (path : Text) (d : Db) : Type 0 where
    pub tenant : Uuid
    pub id : Uuid
    pub row : MediaRow
    pub member : In row db.media
    pub chosen : owned tenant id row ≡ true
    pub row_path : row.file_path ≡ path
    pub media : d.media ≡ filter (λ r. not (owned tenant id r)) db.media

  abbrev RemovedIf : Option Text → Db → Type 0
  RemovedIf none d = Unit
  RemovedIf (some path) d = Removed path d

  found_row :
      (p : MediaRow → Bool) (rows : List MediaRow) (row : MediaRow)
      → find p rows ≡ some row
      → In row rows × (p row ≡ true)
  unfolding find
  found_row p [] row h = absurd (clash row h)
    where
      clash : (row : MediaRow) → ◌≡◌ {A = Option MediaRow} none (some row) → ⊥
      clash row h = cc
  found_row p (x ∷ rows) row h = elim (Bool-cases (p x)) [
    | inl e ↦ let q : x ≡ row = same x row (rw (e, find) at h) in (inl (sym q), ap p (sym q) ∙ e)
    | inr e ↦ let (m, k) = found_row p rows row (rw (e, find) at h) in (inr m, k)
  ]
    where
      same : (a b : MediaRow) → ◌≡◌ {A = Option MediaRow} (some a) (some b) → a ≡ b
      same a b h = cc

  delete_media-RemovedIf :
      (tenant id : Uuid) (env : Env) (fresh : Uuid) (d : Db)
      → d ≡ db
      → Post RemovedIf (delete_media tenant id env fresh d)
  unfolding delete_media
  delete_media-RemovedIf tenant id env fresh d h =
      elim (Option-cases (find (owned tenant id) d.media)) [
        | inl e ↦ rw (delete_media, e) tt
        | inr (row, e) ↦ rw (delete_media, e) (gone row (found_row (owned tenant id) d.media row e))
      ]
    where
      gone :
          (row : MediaRow)
          → In row d.media × (owned tenant id row ≡ true)
          → Removed row.file_path (record d {
            media = filter (λ r. not (owned tenant id r)) d.media;
            media_tags = filter (λ l. not (l.media_id == id)) d.media_tags;
          })
      gone row (m, k) = record {
        tenant = tenant;
        id = id;
        row = row;
        member = subst (λ (x : Db). In row x.media) h m;
        chosen = k;
        row_path = refl;
        media = ap (λ (x : Db). filter (λ r. not (owned tenant id r)) x.media) h;
      }

  deleted-Removed : (path : Option Text) → Ensures (RemovedIf path) (deleted path) Removed
  deleted-Removed none = Ensures-raise _ _ err_not_found
  deleted-Removed (some path) = Ensures-pure _ _ _ (λ d h. h)

  -- Delete takes one row out, if it succeeds, and returns its path.
  pub delete-Removed :
      (env : Env) (ctx : Context) (id : Uuid) → Post Removed (MediaRepo.delete env ctx id db)
  unfolding MediaRepo.delete delete_tx
  delete-Removed env ctx id = with_tenant_tx-Post_any Removed (delete_tx id) env ctx db (λ t.
      Ensures-bind _ RemovedIf _ _ _ (Ensures-statement _ RemovedIf _ (delete_media-RemovedIf t id))
        deleted-Removed)
