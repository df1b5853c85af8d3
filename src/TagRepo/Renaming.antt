-- ===== src/TagRepo/Renaming.antt =====
-- internal/adapter/postgres/tag_repo.go: the UPDATE of Rename keeps the names of a tenant distinct.
use scoreplay_media_api.Prelude.{
  ◌≡◌, ◌≢◌, refl, sym, ap, ◌∙◌, ◌⊎◌, inl, inr, true, false, not, ◌&&◌, List, [], ◌∷◌, map, Text,
  All-map, Distinct, In, any, find, filter, not-In-map, arith, Bool-cases, Option-cases, ◌==◌,
}
use scoreplay_media_api.Domain.{Uuid}
use scoreplay_media_api.Database.{TagRow, LinkRow, Db, Env}
use scoreplay_media_api.Database.Ensures.{Post}
use scoreplay_media_api.Database.Valid.{tag_name_key, HasTag, IsValid, Change, Change-refl}
use scoreplay_media_api.TagRepo.{named, owned, renamed, update_tag}
use scoreplay_media_api.TagRepo.Effects.{name_key→named}

-- Renaming changes neither ids nor tenants.
map-renamed-id :
    (tenant id : Uuid) (name : Text) (tags : List TagRow)
    → map (λ r. r.id) (map (renamed tenant id name) tags) ≡ map (λ r. r.id) tags
map-renamed-id tenant id name [] = refl
map-renamed-id tenant id name (r ∷ tags) = ground (arith, map-renamed-id tenant id name tags)

HasTag-renamed :
    (tenant id : Uuid) (name : Text) (tags : List TagRow) (l : LinkRow)
    → HasTag tags l
    → HasTag (map (renamed tenant id name) tags) l
unfolding any
HasTag-renamed tenant id name [] l h = h
HasTag-renamed tenant id name (r ∷ tags) l h = ground (arith, HasTag-renamed tenant id name tags l)

of_tenant-renamed :
    (tenant id u : Uuid) (name : Text) (tags : List TagRow)
    → u ≢ tenant
    → filter (λ r. r.tenant_id == u) (map (renamed tenant id name) tags)
      ≡ filter (λ r. r.tenant_id == u) tags
unfolding filter
of_tenant-renamed tenant id u name [] ne = refl
of_tenant-renamed tenant id u name (r ∷ tags) ne = elim (Bool-cases (owned tenant id r)) [
  | inl e ↦ rw e (ground (arith, of_tenant-renamed tenant id u name tags ne))
  | inr e ↦ rw e (ground (arith, of_tenant-renamed tenant id u name tags ne))
]

-- No other tag of the tenant has the new name.
abbrev Free : Uuid → Uuid → Text → List TagRow → Type 0
Free tenant id name tags = any (λ r. named tenant name r && not (r.id == id)) tags ≡ false

abbrev new_key : Uuid → Text → Uuid × Text
new_key tenant name = (tenant, name)

module _ (tenant id : Uuid) (name : Text) where
  -- Where the id is absent nothing is renamed.
  renamed_absent :
      (tags : List TagRow)
      → ¬ In id (map (λ r. r.id) tags)
      → map (renamed tenant id name) tags ≡ tags
  renamed_absent [] h = refl
  renamed_absent (r ∷ tags) h = elim (Bool-cases (owned tenant id r)) [
    | inl e ↦ absurd (h (inl (ground arith)))
    | inr e ↦ rw e (ap (λ t. r ∷ t) (renamed_absent tags (λ m. h (inr m))))
  ]

  not_named_absent :
      (tags : List TagRow)
      → ¬ In id (map (λ r. r.id) tags)
      → Free tenant id name tags
      → any (named tenant name) tags ≡ false
  unfolding any
  not_named_absent [] h f = refl
  not_named_absent (r ∷ tags) h f = elim (Bool-cases (r.id == id)) [
    | inl e ↦ absurd (h (inl (ground arith)))
    | inr e ↦ ground (arith, not_named_absent tags (λ m. h (inr m)))
  ]

  In-renamed :
      (k : Uuid × Text) (tags : List TagRow)
      → In k (map tag_name_key (map (renamed tenant id name) tags))
      → (k ≡ new_key tenant name) ⊎ In k (map tag_name_key tags)
  In-renamed k [] m = absurd m
  In-renamed k (r ∷ tags) (inr m) = elim (In-renamed k tags m) [
    | inl e ↦ inl e
    | inr n ↦ inr (inr n)
  ]
  In-renamed k (r ∷ tags) (inl q) = elim (Bool-cases (owned tenant id r)) [
    | inl e ↦ inl (q ∙ target r e)
    | inr e ↦ inr (inl (rw e at q))
  ]
    where
      target :
          (r : TagRow)
          → owned tenant id r ≡ true
          → tag_name_key (renamed tenant id name r) ≡ new_key tenant name
      target r e = rw e (ground arith)

  not_new_key :
      (r : TagRow) (tags : List TagRow)
      → Free tenant id name (r ∷ tags)
      → owned tenant id r ≡ false
      → tag_name_key r ≢ new_key tenant name
  unfolding any
  not_new_key r tags f e q = ground (arith, name_key→named tenant name r (sym q))

  names-renamed :
      (tags : List TagRow)
      → Distinct (map (λ r. r.id) tags)
      → Distinct (map tag_name_key tags)
      → Free tenant id name tags
      → Distinct (map tag_name_key (map (renamed tenant id name) tags))
  names-renamed [] d n f = tt
  names-renamed (r ∷ tags) d n f = elim (Bool-cases (owned tenant id r)) [
    | inl e ↦
        let absent : ¬ In id (map (λ r. r.id) tags) =
          let same : id ≡ r.id = ground arith in rw same d.0 in
        rw (e, renamed_absent tags absent)
          (
            rw (head_tenant r e) (
                not-In-map tag_name_key (named tenant name) (new_key tenant name)
                  (name_key→named tenant name) tags
                  (not_named_absent tags absent (Free-tail r tags f))),
            n.1,
          )
    | inr e ↦ rw e (
      λ m. elim (In-renamed (tag_name_key r) tags m) [
        | inl q ↦ not_new_key r tags f e q
        | inr k ↦ n.0 k
      ],
      names-renamed tags d.1 n.1 (Free-tail r tags f),
    )
  ]
    where
      head_tenant : (r : TagRow) → owned tenant id r ≡ true → r.tenant_id ≡ tenant
      head_tenant r e = ground arith

      Free-tail :
          (r : TagRow) (tags : List TagRow)
          → Free tenant id name (r ∷ tags)
          → Free tenant id name tags
      Free-tail r tags f = unfold any in ground arith

pub update_tag-Change :
    (tenant id : Uuid) (name : Text) (env : Env) (fresh : Uuid) (db : Db)
    → IsValid db
    → Post (λ _. Change tenant db) (update_tag tenant id name env fresh db)
unfolding update_tag
update_tag-Change tenant id name env fresh db v =
    elim (Option-cases (find (owned tenant id) db.tags)) [
      | inl e ↦ rw (e, update_tag) (Change-refl tenant db v)
      | inr (row, e) ↦
          elim (Bool-cases (any (λ r. named tenant name r && not (r.id == id)) db.tags)) [
            | inl f ↦ rw (e, update_tag) (rw f tt)
            | inr f ↦
                rw (e, update_tag)
                  (rw f (record {
                    valid = record {
                      tag_ids = rw (map-renamed-id tenant id name db.tags) v.tag_ids;
                      tag_names = names-renamed tenant id name db.tags v.tag_ids v.tag_names f;
                      media_ids = v.media_ids;
                      links = v.links;
                      link_media = v.link_media;
                      link_tags =
                          All-map _ _ (HasTag-renamed tenant id name db.tags) db.media_tags
                            v.link_tags;
                    };
                    others = λ u ne. record {
                      idempotency_keys = refl;
                      tags = sym (of_tenant-renamed tenant id u name db.tags ne);
                      media = refl;
                      media_tags = refl;
                    };
                  }))
          ]
    ]
