-- ===== src/Database/Valid.antt =====
-- The constraints of the schema, as an invariant of the tables (internal/adapter/postgres/migrations,
-- 001 and 005), and the rows of one tenant.
use scoreplay_media_api.Prelude.{
  ◌≡◌, ◌≢◌, refl, ◌∙◌, Bool, true, ◌&&◌, List, map, Text, All, Distinct, any, filter, ◌==◌,
}
use scoreplay_media_api.Domain.{Uuid}
use scoreplay_media_api.Database.{TagRow, MediaRow, LinkRow, Db, empty_db}

abbrev pub tag_name_key : TagRow → Uuid × Text
tag_name_key r = (r.tenant_id, r.name)

abbrev pub link_key : LinkRow → Uuid × Uuid
link_key l = (l.media_id, l.tag_id)

-- The media item of a link, in the link's tenant.
abbrev pub is_media_of : LinkRow → MediaRow → Bool
is_media_of l r = r.id == l.media_id && r.tenant_id == l.tenant_id

abbrev pub is_tag_of : LinkRow → TagRow → Bool
is_tag_of l r = r.id == l.tag_id && r.tenant_id == l.tenant_id

abbrev pub HasMedia : List MediaRow → LinkRow → Type 0
HasMedia media l = any (is_media_of l) media ≡ true

abbrev pub HasTag : List TagRow → LinkRow → Type 0
HasTag tags l = any (is_tag_of l) tags ≡ true

-- The primary keys, the unique tag names of each tenant, and links that join a media item and a tag
-- of their own tenant.
pub record IsValid (db : Db) : Type 0 where
  pub tag_ids : Distinct (map (λ r. r.id) db.tags)
  pub tag_names : Distinct (map tag_name_key db.tags)
  pub media_ids : Distinct (map (λ r. r.id) db.media)
  pub links : Distinct (map link_key db.media_tags)
  pub link_media : All (HasMedia db.media) db.media_tags
  pub link_tags : All (HasTag db.tags) db.media_tags

pub empty-IsValid : IsValid empty_db
empty-IsValid = record {
  tag_ids = tt;
  tag_names = tt;
  media_ids = tt;
  links = tt;
  link_media = tt;
  link_tags = tt;
}

-- What a tenant owns.
pub record SameRows (tenant : Uuid) (a b : Db) : Type 0 where
  pub tags : filter (λ r. r.tenant_id == tenant) a.tags ≡ filter (λ r. r.tenant_id == tenant) b.tags
  pub media :
      filter (λ r. r.tenant_id == tenant) a.media ≡ filter (λ r. r.tenant_id == tenant) b.media
  pub media_tags :
      filter (λ l. l.tenant_id == tenant) a.media_tags
      ≡ filter (λ l. l.tenant_id == tenant) b.media_tags
  pub idempotency_keys :
      filter (λ r. r.tenant_id == tenant) a.idempotency_keys
      ≡ filter (λ r. r.tenant_id == tenant) b.idempotency_keys

pub SameRows-refl : (u : Uuid) (a : Db) → SameRows u a a
SameRows-refl u a = record { tags = refl; media = refl; media_tags = refl; idempotency_keys = refl }

pub SameRows-trans : (u : Uuid) (a b c : Db) → SameRows u a b → SameRows u b c → SameRows u a c
SameRows-trans u a b c h k = record {
  tags = h.tags ∙ k.tags;
  media = h.media ∙ k.media;
  media_tags = h.media_tags ∙ k.media_tags;
  idempotency_keys = h.idempotency_keys ∙ k.idempotency_keys;
}

-- What a tenant's statement does: the constraints hold after it, and the rows of other tenants are
-- as before.
pub record Change (tenant : Uuid) (a b : Db) : Type 0 where
  pub valid : IsValid b
  pub others : (u : Uuid) → u ≢ tenant → SameRows u a b

pub Change-refl : (tenant : Uuid) (a : Db) → IsValid a → Change tenant a a
Change-refl tenant a v = record { valid = v; others = λ u ne. SameRows-refl u a }

pub Change-trans :
    (tenant : Uuid) (a b c : Db) → Change tenant a b → Change tenant b c → Change tenant a c
Change-trans tenant a b c h k = record {
  valid = k.valid;
  others = λ u ne. SameRows-trans u a b c (h.others u ne) (k.others u ne);
}
