-- ===== src/Tenancy/Isolation.antt =====
-- No sequence of calls breaks the constraints of the schema, and no tenant reaches another's rows.
use scoreplay_media_api.Prelude.{◌≡◌, ◌≢◌, refl, sym, ap, ◌∙◌, inl, inr, List, [], ◌∷◌, All}
use scoreplay_media_api.Result.{Error, ok, err, Result-cases}
use scoreplay_media_api.Domain.{Uuid, Context, tenant_id_from_context}
use scoreplay_media_api.Database.{Db, Env, Tx, with_tenant_tx}
use scoreplay_media_api.Database.Changes.{with_tenant_tx-Change}
use scoreplay_media_api.Database.Valid.{IsValid, SameRows, Change, SameRows-refl, SameRows-trans}
use scoreplay_media_api.Tenancy.{
  create_tag, list_tags, rename_tag, delete_tag, create_media, get_media, delete_media, list_media,
  attach_tags, detach_tag, get_response, set_response, Call, Request, run, run_all,
}
use scoreplay_media_api.TagRepo
use scoreplay_media_api.TagRepo.Methods as TagMethods
use scoreplay_media_api.MediaRepo.Methods as MediaMethods
use scoreplay_media_api.TagRepo.Methods.{
  create_or_get_tx-Changes, list_tx-Changes, rename_tx-Changes,
}
use scoreplay_media_api.Idempotency
use scoreplay_media_api.Idempotency.Effects.{get-Changes, set-Changes}
use scoreplay_media_api.MediaRepo
use scoreplay_media_api.MediaRepo.Listing
use scoreplay_media_api.MediaRepo.Listing.Effects.{list_in_tx-Changes}
use scoreplay_media_api.MediaRepo.Methods.{
  create_tx-Changes, get_by_id_tx-Changes, attach_tags_tx-Changes, detach_tag_tx-Changes,
}

module _ {A : Type 0} (fn : Uuid → Tx A) (env : Env) (ctx : Context) (db : Db) where
  -- Without an identity nothing is sent.
  with_tenant_tx_refused :
      (e : Error) → tenant_id_from_context ctx ≡ err e → (with_tenant_tx fn env ctx db).1 ≡ db
  unfolding with_tenant_tx
  with_tenant_tx_refused e h = rw (h, with_tenant_tx) refl

module _ (env : Env) (ctx : Context) (db : Db) where
  run_refused :
      (e : Error) → tenant_id_from_context ctx ≡ err e → (call : Call) → run env ctx call db ≡ db
  unfolding run TagRepo.create_or_get TagRepo.list TagRepo.rename TagRepo.delete MediaRepo.create
      MediaRepo.get_by_id MediaRepo.delete Listing.list MediaRepo.attach_tags MediaRepo.detach_tag
      Idempotency.get Idempotency.set
  run_refused e h (create_tag name) = with_tenant_tx_refused _ env ctx db e h
  run_refused e h (list_tags limit cursor) = with_tenant_tx_refused _ env ctx db e h
  run_refused e h (rename_tag id name) = with_tenant_tx_refused _ env ctx db e h
  run_refused e h (delete_tag id) = with_tenant_tx_refused _ env ctx db e h
  run_refused e h (create_media m tag_ids) = with_tenant_tx_refused _ env ctx db e h
  run_refused e h (get_media id) = with_tenant_tx_refused _ env ctx db e h
  run_refused e h (delete_media id) = with_tenant_tx_refused _ env ctx db e h
  run_refused e h (list_media limit cursor f) = with_tenant_tx_refused _ env ctx db e h
  run_refused e h (attach_tags media ids) = with_tenant_tx_refused _ env ctx db e h
  run_refused e h (detach_tag media tag) = with_tenant_tx_refused _ env ctx db e h
  run_refused e h (get_response key) = with_tenant_tx_refused _ env ctx db e h
  run_refused e h (set_response key status body) = with_tenant_tx_refused _ env ctx db e h

  pub run-Change :
      (tenant : Uuid)
      → tenant_id_from_context ctx ≡ ok tenant
      → IsValid db
      → (call : Call) → Change tenant db (run env ctx call db)
  unfolding run TagRepo.create_or_get TagRepo.list TagRepo.rename TagRepo.delete MediaRepo.create
      MediaRepo.get_by_id MediaRepo.delete Listing.list MediaRepo.attach_tags MediaRepo.detach_tag
      Idempotency.get Idempotency.set
  run-Change tenant h v (create_tag name) =
      with_tenant_tx-Change _ env ctx db tenant h (λ t. create_or_get_tx-Changes t name) v
  run-Change tenant h v (list_tags limit cursor) =
      with_tenant_tx-Change _ env ctx db tenant h (λ t. list_tx-Changes t limit cursor) v
  run-Change tenant h v (rename_tag id name) =
      with_tenant_tx-Change _ env ctx db tenant h (λ t. rename_tx-Changes t id name) v
  run-Change tenant h v (delete_tag id) =
      with_tenant_tx-Change _ env ctx db tenant h (λ t. TagMethods.delete_tx-Changes t id) v
  run-Change tenant h v (create_media m tag_ids) =
      with_tenant_tx-Change _ env ctx db tenant h (λ t. create_tx-Changes t m tag_ids) v
  run-Change tenant h v (get_media id) =
      with_tenant_tx-Change _ env ctx db tenant h (λ t. get_by_id_tx-Changes t id) v
  run-Change tenant h v (delete_media id) =
      with_tenant_tx-Change _ env ctx db tenant h (λ t. MediaMethods.delete_tx-Changes t id) v
  run-Change tenant h v (list_media limit cursor f) =
      with_tenant_tx-Change _ env ctx db tenant h (λ t. list_in_tx-Changes t limit cursor f) v
  run-Change tenant h v (attach_tags media ids) =
      with_tenant_tx-Change _ env ctx db tenant h (λ t. attach_tags_tx-Changes t media ids) v
  run-Change tenant h v (detach_tag media tag) =
      with_tenant_tx-Change _ env ctx db tenant h (λ t. detach_tag_tx-Changes t media tag) v
  run-Change tenant h v (get_response key) =
      with_tenant_tx-Change _ env ctx db tenant h (λ t. get-Changes t key) v
  run-Change tenant h v (set_response key status body) =
      with_tenant_tx-Change _ env ctx db tenant h (λ t. set-Changes t key status body) v

-- One request, by a tenant or by nobody.
module _ (r : Request) (db : Db) (v : IsValid db) where
  run-IsValid : IsValid (run r.env r.ctx r.call db)
  run-IsValid = elim (Result-cases (tenant_id_from_context r.ctx)) [
    | inl (tenant, e) ↦ (run-Change r.env r.ctx db tenant e v r.call).valid
    | inr (x, e) ↦ rw (run_refused r.env r.ctx db x e r.call) v
  ]

  run-SameRows :
      (u : Uuid) → tenant_id_from_context r.ctx ≢ ok u → SameRows u db (run r.env r.ctx r.call db)
  run-SameRows u ne = elim (Result-cases (tenant_id_from_context r.ctx)) [
    | inl (tenant, e) ↦
        (run-Change r.env r.ctx db tenant e v r.call).others u (λ q. ne (e ∙ ap ok (sym q)))
    | inr (x, e) ↦ rw (run_refused r.env r.ctx db x e r.call) (SameRows-refl u db)
  ]

-- Whatever requests the tenants send, in whatever order, and whichever of their statements fail, the
-- constraints of the schema hold after them if they hold before: primary keys, unique tag names within
-- a tenant, and links that join a media item and a tag of one tenant.
pub run_all-IsValid : (rs : List Request) (db : Db) → IsValid db → IsValid (run_all rs db)
unfolding run_all
run_all-IsValid [] db v = v
run_all-IsValid (r ∷ rs) db v = run_all-IsValid rs _ (run-IsValid r db v)

-- Requests whose contexts do not identify the tenant `u` leave the tags, the media items, the links
-- and the stored responses of `u` as they are, if the constraints of the schema hold before them.
pub run_all-SameRows :
    (u : Uuid) (rs : List Request) (db : Db)
    → IsValid db
    → All (λ r. tenant_id_from_context r.ctx ≢ ok u) rs
    → SameRows u db (run_all rs db)
unfolding run_all
run_all-SameRows u [] db v h = SameRows-refl u db
run_all-SameRows u (r ∷ rs) db v h =
    SameRows-trans u db (run r.env r.ctx r.call db) _ (run-SameRows r db v u h.0)
      (run_all-SameRows u rs _ (run-IsValid r db v) h.1)
