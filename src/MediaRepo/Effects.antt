-- ===== src/MediaRepo/Effects.antt =====
-- internal/adapter/postgres/media_repo.go: the statements keep the constraints of the schema.
use scoreplay_media_api.Prelude.{
  ◌≡◌, refl, sym, ap, inl, inr, true, false, List, [], ◌∷◌, All, All-map, All-filter, All-of_In,
  In→any, In, any, not-In-map, arith, Bool-cases, ◌==◌,
}
use scoreplay_media_api.Domain.{Uuid}
use scoreplay_media_api.Database.{TagRow, MediaRow, LinkRow, Db, Env}
use scoreplay_media_api.Database.Ensures.{Post}
use scoreplay_media_api.Database.Owned.{of_tenant-foreign}
use scoreplay_media_api.Database.Valid.{
  link_key, HasMedia, IsValid, Change, Change-refl, Change-trans,
}
use scoreplay_media_api.MediaRepo.{
  NewMedia, owned, linked, tag_owned, insert_media, insert_link, tenant_tags, link_all,
  attach_links,
}

-- The tenant has the media item.
abbrev pub OwnsMedia : Uuid → Uuid → Db → Type 0
OwnsMedia tenant media db = any (owned tenant media) db.media ≡ true

HasMedia-cons :
    (r : MediaRow) (media : List MediaRow) (l : LinkRow) → HasMedia media l → HasMedia (r ∷ media) l
unfolding any
HasMedia-cons r media l h = ground arith

-- The new row is the tenant's, under the id that is returned.
pub insert_media-Change :
    (tenant : Uuid) (m : NewMedia) (env : Env) (id : Uuid) (db : Db)
    → IsValid db
    → Post
        (λ row db'. Change tenant db db' × OwnsMedia tenant row.id db')
        (insert_media tenant m env id db)
unfolding insert_media
insert_media-Change tenant m env id db v = elim (Bool-cases (any (λ r. r.id == id) db.media)) [
  | inl f ↦ rw f tt
  | inr f ↦ rw f (
    record {
      valid = record {
        tag_ids = v.tag_ids;
        tag_names = v.tag_names;
        media_ids = (
          not-In-map (λ r. r.id) (λ r. r.id == id) id (λ r q. ground arith) db.media f,
          v.media_ids,
        );
        links = v.links;
        link_media = All-map _ _ (HasMedia-cons _ db.media) db.media_tags v.link_media;
        link_tags = v.link_tags;
      };
      others = λ u ne. record {
        idempotency_keys = refl;
        tags = refl;
        media = sym (of_tenant-foreign (λ r. r.id) (λ r. r.tenant_id) u _ db.media ne);
        media_tags = refl;
      };
    },
    own env id,
  )
]
  where
    own :
        (env : Env) (id : Uuid)
        → any (owned tenant id) (
            record {
              id = id;
              tenant_id = tenant;
              name = m.name;
              media_type = m.media_type;
              file_path = m.file_path;
              original_name = m.original_name;
              file_size = m.file_size;
              created_at = env.now;
            }
            ∷ db.media)
          ≡ true
    own env id = unfold any in ground arith

linked_complete :
    (media tag : Uuid) (l : LinkRow)
    → ◌≡◌ {A = Uuid × Uuid} (media, tag) (link_key l)
    → linked media tag l ≡ true
linked_complete media tag l e =
    ground (arith, ap (λ (p : Uuid × Uuid). p.0) e, ap (λ (p : Uuid × Uuid). p.1) e)

-- A new link between a media item and a tag of the tenant.
link-Change :
    (tenant media tag : Uuid) (links : List LinkRow) (db : Db)
    → IsValid (record db { media_tags = links })
    → OwnsMedia tenant media db
    → any (tag_owned tenant tag) db.tags ≡ true
    → any (linked media tag) links ≡ false
    → Change tenant
        (record db { media_tags = links })
        (record db {
          media_tags = record { tenant_id = tenant; media_id = media; tag_id = tag } ∷ links;
        })
link-Change tenant media tag links db v m t n = record {
  valid = record {
    tag_ids = v.tag_ids;
    tag_names = v.tag_names;
    media_ids = v.media_ids;
    links = (
      not-In-map link_key (linked media tag) (media, tag) (linked_complete media tag) links n,
      v.links,
    );
    link_media = (m, v.link_media);
    link_tags = (t, v.link_tags);
  };
  others = λ u ne. record {
    idempotency_keys = refl;
    tags = refl;
    media = refl;
    media_tags = sym (of_tenant-foreign (λ l. l.tag_id) (λ l. l.tenant_id) u _ links ne);
  };
}

pub insert_link-Change :
    (tenant media tag : Uuid) (env : Env) (id : Uuid) (db : Db)
    → IsValid db
    → OwnsMedia tenant media db
    → Post
        (λ _ db'. Change tenant db db' × OwnsMedia tenant media db')
        (insert_link tenant media tag env id db)
unfolding insert_link
insert_link-Change tenant media tag env id db v m =
    elim (Bool-cases (any (tag_owned tenant tag) db.tags)) [
      | inr e ↦ rw e (Change-refl tenant db v, m)
      | inl e ↦ elim (Bool-cases (any (linked media tag) db.media_tags)) [
        | inl f ↦ rw (e, f) tt
        | inr f ↦ rw (e, f) (link-Change tenant media tag db.media_tags db v m e f, m)
      ]
    ]

-- A bulk insertion of links between a media item and tags of the tenant.
link_all-Change :
    (tenant media : Uuid) (ts : List TagRow) (links : List LinkRow) (db : Db)
    → IsValid (record db { media_tags = links })
    → OwnsMedia tenant media db
    → All (λ t. any (tag_owned tenant t.id) db.tags ≡ true) ts
    → Change tenant
        (record db { media_tags = links })
        (record db { media_tags = (link_all tenant media ts links).1 })
unfolding link_all
link_all-Change tenant media [] links db v m h = Change-refl tenant _ v
link_all-Change tenant media (t ∷ ts) links db v m h =
    let rest = (link_all tenant media ts links).1 in
    let c = link_all-Change tenant media ts links db v m h.1 in
    elim (Bool-cases (any (linked media t.id) rest)) [
      | inl e ↦ rw e c
      | inr e ↦
          rw e (Change-trans tenant _ _ _ c (link-Change tenant media t.id rest db c.valid m h.0 e))
    ]

-- The tags that are selected are the tenant's.
tenant_tags-owned :
    (tenant : Uuid) (ids : List Uuid) (tags : List TagRow)
    → All (λ t. any (tag_owned tenant t.id) tags ≡ true) (tenant_tags tenant ids tags)
unfolding tenant_tags
tenant_tags-owned tenant ids tags =
    All-map _ _ (λ t h. In→any (tag_owned tenant t.id) t tags h.0 (ground (arith, h.1))) _
      (All-filter (λ t. In t tags) _ tags (All-of_In _ tags (λ t m. m)))

pub attach_links-Change :
    (tenant media : Uuid) (ids : List Uuid) (env : Env) (fresh : Uuid) (db : Db)
    → IsValid db
    → OwnsMedia tenant media db
    → Post (λ _. Change tenant db) (attach_links tenant media ids env fresh db)
unfolding attach_links
attach_links-Change tenant media ids env fresh db v m =
    link_all-Change tenant media _ db.media_tags db v m (tenant_tags-owned tenant ids db.tags)
