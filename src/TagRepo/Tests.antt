-- ===== src/TagRepo/Tests.antt =====
-- Runs of CreateOrGet and Rename.
use scoreplay_media_api.Prelude.{◌≡◌, refl, true, false, [], ◌∷◌, codes, any, text_eq, ◌==◌}
use scoreplay_media_api.Result.{ok}
use scoreplay_media_api.Domain.{Tag, tenant_id_from_context, identity_from_context}
use scoreplay_media_api.Database.{TagRow, Db, pure, statement, no_op, ◌>>=◌, with_tenant_tx}
use scoreplay_media_api.Database.Steady.{steady}
use scoreplay_media_api.TagRepo.{insert_tag, create_or_get_tx, create_or_get}
use scoreplay_media_api.TagRepo.Idempotence.{create_or_get_idem}
use scoreplay_media_api.TagRepo.Refinement.{change, Refines, perform, perform-Refines}
use scoreplay_media_api.Fixtures.{env_at, tenant_ctx, tenant_ctx_id, shared_db, shared_db-IsValid}

abbrev goal_tag : Tag
goal_tag = record { id = 702; name = codes "goal"; created_at = 7 }

abbrev tagged_db : Db
tagged_db = record shared_db {
  tags =
      record { id = 702; tenant_id = 2; name = codes "goal"; created_at = 7 }
      ∷ record { id = 11; tenant_id = 2; name = codes "a"; created_at = 1 }
      ∷ [];
}

create_run :
    create_or_get (env_at 7) (tenant_ctx 2) (codes "goal") shared_db
    ≡ (ok (goal_tag, true), tagged_db)
unfolding create_or_get create_or_get_tx insert_tag any text_eq with_tenant_tx ◌>>=◌ statement no_op
    pure tenant_id_from_context identity_from_context
create_run = refl

create_or_get_idem_example :
    create_or_get (steady (env_at 9)) (tenant_ctx 2) (codes "goal") tagged_db
    ≡ (ok (goal_tag, false), tagged_db)
create_or_get_idem_example =
    create_or_get_idem (env_at 7) (env_at 9) (tenant_ctx 2) 2 (codes "goal") goal_tag true shared_db
      tagged_db (tenant_ctx_id 2) create_run

-- Renaming a tag of tenant 2.
drawn_new : any (λ (r : TagRow). r.id == (env_at 7).draw 2) shared_db.tags ≡ false
unfolding any
drawn_new = refl

perform-Refines_example :
    Refines
      (env_at 7)
      (tenant_ctx 2)
      2
      shared_db
      (tenant_ctx_id 2)
      (change 11 (codes "b"))
      (perform (steady (env_at 7)) (tenant_ctx 2) (change 11 (codes "b")) shared_db)
perform-Refines_example =
    perform-Refines (env_at 7) (tenant_ctx 2) 2 shared_db (tenant_ctx_id 2) (change 11 (codes "b"))
      shared_db-IsValid drawn_new
