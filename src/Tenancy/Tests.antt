-- ===== src/Tenancy/Tests.antt =====
-- Requests of one tenant, and of nobody, on the tables of another.
use scoreplay_media_api.Prelude.{◌≢◌, List, [], ◌∷◌, All, codes, arith}
use scoreplay_media_api.Domain.{Uuid, tenant_id_from_context}
use scoreplay_media_api.Result.{ok}
use scoreplay_media_api.Database.Valid.{IsValid, SameRows}
use scoreplay_media_api.Tenancy.{
  Request, create_tag, delete_tag, delete_media, attach_tags, run_all,
}
use scoreplay_media_api.Tenancy.Isolation.{run_all-IsValid, run_all-SameRows}
use scoreplay_media_api.Fixtures.{
  env_at, tenant_ctx, no_ctx, other_tenant, no_tenant, shared_db, shared_db-IsValid,
}

abbrev intrusions : List Request
intrusions =
    record { env = env_at 7; ctx = tenant_ctx 3; call = create_tag (codes "a") }
    ∷ record { env = env_at 8; ctx = tenant_ctx 3; call = delete_tag 11 }
    ∷ record { env = env_at 9; ctx = tenant_ctx 3; call = attach_tags 21 (701 ∷ []) }
    ∷ record { env = env_at 10; ctx = no_ctx; call = delete_media 21 }
    ∷ []

three_not_two : ◌≢◌ {A = Uuid} 3 2
three_not_two e = omega (arith, e)

intrusions_foreign : All (λ r. tenant_id_from_context r.ctx ≢ ok 2) intrusions
intrusions_foreign =
    let foreign = other_tenant 3 2 three_not_two in
    (foreign, (foreign, (foreign, (no_tenant 2, tt))))

run_all-SameRows_example : SameRows 2 shared_db (run_all intrusions shared_db)
run_all-SameRows_example =
    run_all-SameRows 2 intrusions shared_db shared_db-IsValid intrusions_foreign

run_all-IsValid_example : IsValid (run_all intrusions shared_db)
run_all-IsValid_example = run_all-IsValid intrusions shared_db shared_db-IsValid
