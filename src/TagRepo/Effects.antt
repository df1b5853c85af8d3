-- ===== src/TagRepo/Effects.antt =====
-- internal/adapter/postgres/tag_repo.go: the statements keep the constraints of the schema.
use scoreplay_media_api.Prelude.{
  ◌≡◌, refl, sym, ap, inl, inr, true, not, List, ◌∷◌, Text, eq→text_eq, All-map, All-filter,
  Distinct-filter, any, any-filter, filter, not-In-map, arith, Bool-cases, ◌==◌,
}
use scoreplay_media_api.Domain.{Uuid}
use scoreplay_media_api.Database.{TagRow, LinkRow, Db, Env}
use scoreplay_media_api.Database.Ensures.{Post}
use scoreplay_media_api.Database.Owned.{
  of_tenant-foreign, of_tenant-delete, of_tenant-cascade, pointer_tenant,
}
use scoreplay_media_api.Database.Valid.{
  tag_name_key, is_tag_of, link_key, HasMedia, HasTag, IsValid, Change, Change-refl,
}
use scoreplay_media_api.TagRepo.{named, owned, insert_tag, delete_tag}

pub name_key→named :
    (tenant : Uuid) (name : Text) (r : TagRow)
    → ◌≡◌ {A = Uuid × Text} (tenant, name) (tag_name_key r)
    → named tenant name r ≡ true
name_key→named tenant name r e = ground (
  arith,
  ap (λ (p : Uuid × Text). p.0) e,
  eq→text_eq r.name name (sym (ap (λ (p : Uuid × Text). p.1) e)),
)

HasTag-cons : (r : TagRow) (tags : List TagRow) (l : LinkRow) → HasTag tags l → HasTag (r ∷ tags) l
HasTag-cons r tags l h = unfold any in ground arith

pub insert_tag-Change :
    (tenant : Uuid) (name : Text) (env : Env) (id : Uuid) (db : Db)
    → IsValid db
    → Post (λ _. Change tenant db) (insert_tag tenant name env id db)
unfolding insert_tag
insert_tag-Change tenant name env id db v = elim (Bool-cases (any (named tenant name) db.tags)) [
  | inl e ↦ rw e (Change-refl tenant db v)
  | inr e ↦ elim (Bool-cases (any (λ r. r.id == id) db.tags)) [
    | inl f ↦ rw (e, f) tt
    | inr f ↦
        rw (e, f)
          (record {
            valid = record {
              tag_ids = (
                not-In-map (λ r. r.id) (λ r. r.id == id) id (λ r q. ground arith) db.tags f,
                v.tag_ids,
              );
              tag_names = (
                not-In-map tag_name_key (named tenant name) (tenant, name)
                    (name_key→named tenant name) db.tags e,
                v.tag_names,
              );
              media_ids = v.media_ids;
              links = v.links;
              link_media = v.link_media;
              link_tags = All-map _ _ (HasTag-cons _ db.tags) db.media_tags v.link_tags;
            };
            others = λ u ne. record {
              idempotency_keys = refl;
              tags = sym (of_tenant-foreign (λ r. r.id) (λ r. r.tenant_id) u _ db.tags ne);
              media = refl;
              media_tags = refl;
            };
          })
  ]
]

HasTag-delete :
    (tenant id : Uuid) (tags : List TagRow) (l : LinkRow)
    → HasTag tags l × (not (l.tag_id == id) ≡ true)
    → HasTag (filter (λ r. not (owned tenant id r)) tags) l
HasTag-delete tenant id tags l h =
    any-filter (λ r. not (owned tenant id r)) (is_tag_of l) (λ r q. ground (arith, h.1)) tags h.0

pub delete_tag-Change :
    (tenant id : Uuid) (env : Env) (fresh : Uuid) (db : Db)
    → IsValid db
    → Post (λ _. Change tenant db) (delete_tag tenant id env fresh db)
unfolding delete_tag
delete_tag-Change tenant id env fresh db v = elim (Bool-cases (any (owned tenant id) db.tags)) [
  | inr e ↦ rw e (Change-refl tenant db v)
  | inl e ↦ rw e (record {
    valid = record {
      tag_ids = Distinct-filter (λ r. r.id) _ db.tags v.tag_ids;
      tag_names = Distinct-filter tag_name_key _ db.tags v.tag_names;
      media_ids = v.media_ids;
      links = Distinct-filter link_key _ db.media_tags v.links;
      link_media =
          All-map _ _ (λ l h. h.0) _ (All-filter (HasMedia db.media) _ db.media_tags v.link_media);
      link_tags =
          All-map _ _ (HasTag-delete tenant id db.tags) _
            (All-filter (HasTag db.tags) _ db.media_tags v.link_tags);
    };
    others = λ u ne. record {
      idempotency_keys = refl;
      tags = sym (of_tenant-delete (λ r. r.id) (λ r. r.tenant_id) tenant u id db.tags ne);
      media = refl;
      media_tags = sym (
          of_tenant-cascade (λ l. l.tenant_id) (λ l. l.tag_id == id) u db.media_tags
            (All-map (HasTag db.tags) _
              (λ l.
                pointer_tenant (λ r. r.id) (λ r. r.tenant_id) tenant u l.tenant_id l.tag_id id
                  db.tags v.tag_ids e ne)
              db.media_tags v.link_tags));
    };
  })
]
