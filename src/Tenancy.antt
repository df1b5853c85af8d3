-- ===== src/Tenancy.antt =====
-- The methods of the two repositories and of the idempotency store (internal/adapter/postgres/tag_repo.go,
-- media_repo.go, idempotency_store.go) as the calls that a client may make, in any order and from any
-- tenant.
pub mod Isolation
mod Tests
use scoreplay_media_api.Prelude.{ℕ, List, [], ◌∷◌, Option, none, some, Text}
use scoreplay_media_api.Result.{Result, ok, err}
use scoreplay_media_api.Domain.{Uuid, Context, Identity}
use scoreplay_media_api.Database.{Db, Env}
use scoreplay_media_api.Idempotency
use scoreplay_media_api.TagRepo
use scoreplay_media_api.MediaRepo
use scoreplay_media_api.MediaRepo.Listing
use scoreplay_media_api.MediaRepo.Listing.{MediaFilter, MediaCursor}

pub data Call : Type 0 where
  create_tag : Text → Call
  list_tags : ℕ → Option TagRepo.TagCursor → Call
  rename_tag : Uuid → Text → Call
  delete_tag : Uuid → Call
  create_media : MediaRepo.NewMedia → List Uuid → Call
  get_media : Uuid → Call
  delete_media : Uuid → Call
  list_media : ℕ → Option MediaCursor → MediaFilter → Call
  attach_tags : Uuid → List Uuid → Call
  detach_tag : Uuid → Uuid → Call
  get_response : Text → Call
  set_response : Text → ℕ → Text → Call

unfoldable pub run : Env → Context → Call → Db → Db
run env ctx (create_tag name) db = (TagRepo.create_or_get env ctx name db).1
run env ctx (list_tags limit cursor) db = (TagRepo.list env ctx limit cursor db).1
run env ctx (rename_tag id name) db = (TagRepo.rename env ctx id name db).1
run env ctx (delete_tag id) db = (TagRepo.delete env ctx id db).1
run env ctx (create_media m tag_ids) db = (MediaRepo.create env ctx m tag_ids db).1
run env ctx (get_media id) db = (MediaRepo.get_by_id env ctx id db).1
run env ctx (delete_media id) db = (MediaRepo.delete env ctx id db).1
run env ctx (list_media limit cursor f) db = (Listing.list env ctx limit cursor f db).1
run env ctx (attach_tags media ids) db = (MediaRepo.attach_tags env ctx media ids db).1
run env ctx (detach_tag media tag) db = (MediaRepo.detach_tag env ctx media tag db).1
run env ctx (get_response key) db = (Idempotency.get env ctx key db).1
run env ctx (set_response key status body) db = (Idempotency.set env ctx key status body db).1

-- A tenant's request, and what the database server adds to it.
pub record Request : Type 0 where
  pub env : Env
  pub ctx : Context
  pub call : Call

unfoldable pub run_all : List Request → Db → Db
run_all [] db = db
run_all (r ∷ rs) db = run_all rs (run r.env r.ctx r.call db)
