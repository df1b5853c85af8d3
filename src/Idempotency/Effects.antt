-- ===== src/Idempotency/Effects.antt =====
-- internal/adapter/postgres/idempotency_store.go: Get and Set keep the constraints of the schema and leave
-- the rows of other tenants alone.
use scoreplay_media_api.Prelude.{
  ℕ, ◌≡◌, ◌≢◌, refl, false, List, ◌∷◌, Text, any, filter, ◌==◌, Bool-cases, inl, inr, arith,
}
use scoreplay_media_api.Domain.{Uuid}
use scoreplay_media_api.Database.{IdempotencyRow, Db, Env, statement}
use scoreplay_media_api.Database.Ensures.{Post}
use scoreplay_media_api.Database.Valid.{IsValid, Change, Change-refl}
use scoreplay_media_api.Database.Changes.{Changes, Changes-statement, Changes-read}
use scoreplay_media_api.Idempotency.{keyed, select_key, insert_key}

other_row :
    (u tenant : Uuid) (row : IdempotencyRow) (rows : List IdempotencyRow)
    → u ≢ tenant
    → row.tenant_id ≡ tenant
    → filter (λ (r : IdempotencyRow). r.tenant_id == u) rows
      ≡ filter (λ (r : IdempotencyRow). r.tenant_id == u) (row ∷ rows)
unfolding filter
other_row u tenant row rows ne e =
    let foreign : (row.tenant_id == u) ≡ false = ground arith in rw foreign refl

module _ (tenant : Uuid) where
  pub get-Changes : (key : Text) → Changes tenant (statement (select_key tenant key))
  unfolding select_key
  get-Changes key = Changes-read tenant _

  insert_key-Change :
      (key : Text) (status : ℕ) (body : Text) (env : Env) (id : Uuid) (db : Db)
      → IsValid db
      → Post (λ _. Change tenant db) (insert_key tenant key status body env id db)
  unfolding insert_key
  insert_key-Change key status body env id db v =
      elim (Bool-cases (any (keyed tenant key) db.idempotency_keys)) [
        | inl e ↦ rw e (Change-refl tenant db v)
        | inr e ↦ rw e (record {
          valid = record {
            tag_ids = v.tag_ids;
            tag_names = v.tag_names;
            media_ids = v.media_ids;
            links = v.links;
            link_media = v.link_media;
            link_tags = v.link_tags;
          };
          others = λ u ne. record {
            tags = refl;
            media = refl;
            media_tags = refl;
            idempotency_keys = other_row u tenant _ db.idempotency_keys ne refl;
          };
        })
      ]

  pub set-Changes :
      (key : Text) (status : ℕ) (body : Text)
      → Changes tenant (statement (insert_key tenant key status body))
  set-Changes key status body = Changes-statement tenant _ (insert_key-Change key status body)
