-- ===== src/MediaRepo/Removal.antt =====
-- internal/adapter/postgres/media_repo.go: the deletions keep the constraints of the schema.
use scoreplay_media_api.Prelude.{
  ◌≡◌, refl, sym, inl, inr, Bool, true, not, List, [], ◌∷◌, some, All-map, All-filter, All-of_In,
  Distinct-filter, any, any-filter, find, filter, arith, Bool-cases, Option-cases, ◌==◌,
}
use scoreplay_media_api.Domain.{Uuid}
use scoreplay_media_api.Database.{MediaRow, LinkRow, Db, Env}
use scoreplay_media_api.Database.Ensures.{Post}
use scoreplay_media_api.Database.Owned.{of_tenant-delete, of_tenant-cascade, pointer_tenant}
use scoreplay_media_api.Database.Valid.{
  link_key, is_media_of, HasMedia, HasTag, IsValid, Change, Change-refl,
}
use scoreplay_media_api.MediaRepo.{owned, delete_media, delete_link}

HasMedia-delete :
    (tenant id : Uuid) (media : List MediaRow) (l : LinkRow)
    → HasMedia media l × (not (l.media_id == id) ≡ true)
    → HasMedia (filter (λ r. not (owned tenant id r)) media) l
HasMedia-delete tenant id media l h =
    any-filter (λ r. not (owned tenant id r)) (is_media_of l) (λ r q. ground (arith, h.1)) media h.0

find-any : {A : Type 0} (p : A → Bool) (xs : List A) (a : A) → find p xs ≡ some a → any p xs ≡ true
unfolding find any
find-any p [] a h = cc
find-any p (x ∷ xs) a h = elim (Bool-cases (p x)) [
  | inl e ↦ rw e
  | inr e ↦ rw e (find-any p xs a (rw e at h))
]

pub delete_media-Change :
    (tenant id : Uuid) (env : Env) (fresh : Uuid) (db : Db)
    → IsValid db
    → Post (λ _. Change tenant db) (delete_media tenant id env fresh db)
unfolding delete_media
delete_media-Change tenant id env fresh db v =
    elim (Option-cases (find (owned tenant id) db.media)) [
      | inl e ↦ rw (e, delete_media) (Change-refl tenant db v)
      | inr (row, e) ↦
          rw (e, delete_media)
            (record {
              valid = record {
                tag_ids = v.tag_ids;
                tag_names = v.tag_names;
                media_ids = Distinct-filter (λ r. r.id) _ db.media v.media_ids;
                links = Distinct-filter link_key _ db.media_tags v.links;
                link_media =
                    All-map _ _ (HasMedia-delete tenant id db.media) _
                      (All-filter (HasMedia db.media) _ db.media_tags v.link_media);
                link_tags =
                    All-map _ _ (λ l h. h.0) _
                      (All-filter (HasTag db.tags) _ db.media_tags v.link_tags);
              };
              others = λ u ne. record {
                idempotency_keys = refl;
                tags = refl;
                media =
                    sym (of_tenant-delete (λ r. r.id) (λ r. r.tenant_id) tenant u id db.media ne);
                media_tags = sym (
                    of_tenant-cascade (λ l. l.tenant_id) (λ l. l.media_id == id) u db.media_tags
                      (All-map (HasMedia db.media) _
                        (λ l.
                          pointer_tenant (λ r. r.id) (λ r. r.tenant_id) tenant u l.tenant_id
                            l.media_id id db.media v.media_ids (find-any _ db.media row e) ne)
                        db.media_tags v.link_media));
              };
            })
    ]

pub delete_link-Change :
    (tenant media tag : Uuid) (env : Env) (fresh : Uuid) (db : Db)
    → IsValid db
    → Post (λ _. Change tenant db) (delete_link tenant media tag env fresh db)
unfolding delete_link
delete_link-Change tenant media tag env fresh db v = record {
  valid = record {
    tag_ids = v.tag_ids;
    tag_names = v.tag_names;
    media_ids = v.media_ids;
    links = Distinct-filter link_key _ db.media_tags v.links;
    link_media =
        All-map _ _ (λ l h. h.0) _ (All-filter (HasMedia db.media) _ db.media_tags v.link_media);
    link_tags =
        All-map _ _ (λ l h. h.0) _ (All-filter (HasTag db.tags) _ db.media_tags v.link_tags);
  };
  others = λ u ne. record {
    idempotency_keys = refl;
    tags = refl;
    media = refl;
    media_tags = sym (
        of_tenant-cascade (λ l. l.tenant_id) _ u db.media_tags
          (All-of_In _ db.media_tags (λ l m q k. ne (ground arith))));
  };
}
