-- ===== src/Worker.antt =====
-- internal/service/worker.go: processOne, and job_handlers.go's no-op handler. A handler stands for what
-- Execute returns on a payload in a context: a result, or the message of its error.
use scoreplay_media_api.Prelude.{
  Bool, [], ◌∷◌, ◌++◌, Option, none, some, Text, codes, is_empty, if◌then◌else◌,
}
use scoreplay_media_api.Result.{Result, ok, err}
use scoreplay_media_api.Domain.{Uuid, Job, Context, admin_scope, with_identity}
use scoreplay_media_api.Database.{Db, Env}
use scoreplay_media_api.JobQueue.{dequeue, complete, fail, empty_object}

pub data Outcome : Type 0 where
  done broke : Text → Outcome

abbrev pub Handler : Type 0
Handler = Context → Text → Outcome

unfoldable pub noop_execute : Handler
noop_execute ctx payload = if is_empty payload then done empty_object else done payload

-- What the worker logs and counts.
pub data Report : Type 0 where
  dequeue_failed no_job unknown_type job_failed complete_failed job_completed : Report

-- The handler runs as the tenant that enqueued the job, with every scope; the key is the nil UUID.
unfoldable pub handler_context : Context → Uuid → Context
unfolding with_identity
handler_context ctx tenant =
    with_identity ctx
      (record { tenant_id = tenant; key_id = 0; scopes = admin_scope ∷ []; expires_at = none })

abbrev pub unknown_message : Text → Text
unknown_message job_type = codes "unknown job type: " ++ job_type

abbrev pub settle_complete : Result (Unit {0}) × Db → Report × Db
settle_complete (ok u, db) = (job_completed, db)
settle_complete (err e, db) = (complete_failed, db)

module _ (handlers : Text → Option Handler) (env : Env) (ctx : Context) where
  -- The environment is that of the transaction after the handler.
  unfoldable pub process_job : Job → Db → Report × Db
  process_job job db = elim (handlers job.job_type) [
    | none ↦ (unknown_type, (fail env job.id (unknown_message job.job_type) db).1)
    | some handler ↦ elim (handler (handler_context ctx job.tenant_id) job.payload) [
      | broke message ↦ (job_failed, (fail env job.id message db).1)
      | done result ↦ settle_complete (complete env job.id result db)
    ]
  ]

  abbrev pub process_dequeued : Result (Option Job) × Db → Report × Db
  process_dequeued (err e, db) = (dequeue_failed, db)
  process_dequeued (ok none, db) = (no_job, db)
  process_dequeued (ok (some job), db) = process_job job db

unfoldable pub process_one :
    (Text → Option Handler) → (Uuid → Bool) → Env → Env → Context → Db → Report × Db
process_one handlers locked env env' ctx db =
    process_dequeued handlers env' ctx (dequeue locked env db)
