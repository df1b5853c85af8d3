-- ===== src/JobQueue/Released.antt =====
-- internal/service/worker.go and internal/adapter/postgres/job_queue.go: a worker's turn leaves no job
-- running.
use scoreplay_media_api.Prelude.{
  ◌≡◌, refl, ap, ◌∙◌, inl, inr, Bool, true, false, List, [], ◌∷◌, Option, some, Text, In, leb,
  arith, Bool-cases, Option-cases, ◌==◌,
}
use scoreplay_media_api.Result.{ok}
use scoreplay_media_api.Domain.{Uuid, Job, Context, completed}
use scoreplay_media_api.Database.{JobRow, Db, Env, statement}
use scoreplay_media_api.Database.Steady.{steady, with_system_tx-steady}
use scoreplay_media_api.JobQueue.{
  is_running, next_due, start, update_job, retry, scan_job, complete_job, complete, fail,
}
use scoreplay_media_api.JobQueue.Backoff.{fail-steady, dequeue-none, dequeue_null, dequeue-some}
use scoreplay_media_api.Worker.{
  Outcome, done, broke, Handler, handler_context, unknown_message, settle_complete, process_job,
  process_one,
}

-- Whatever runs afterwards ran before, as the same row.
abbrev pub Untouched : Db → Db → Type 0
Untouched db d = (t : JobRow) → In t d.jobs → is_running t.status ≡ true → In t db.jobs

module _ (id : Uuid) (f g : JobRow → JobRow) (ids : (r : JobRow) → (g r).id ≡ r.id)
    (ends : (r : JobRow) → is_running (f r).status ≡ false) where
  In-update_twice :
      (t : JobRow) (rows : List JobRow)
      → In t (update_job id f (update_job id g rows))
      → is_running t.status ≡ true
      → In t rows
  unfolding update_job
  In-update_twice t [] m h = absurd m
  In-update_twice t (r ∷ rows) m h = elim (Bool-cases (r.id == id)) [
    | inl e ↦ elim (rw (e, update_job, again e) at m) [
      | inl q ↦ absurd (stopped (ap (λ (s : JobRow). is_running s.status) q ∙ ends (g r)))
      | inr n ↦ inr (In-update_twice t rows n h)
    ]
    | inr e ↦ elim (rw (e, update_job, e) at m) [
      | inl q ↦ inl q
      | inr n ↦ inr (In-update_twice t rows n h)
    ]
  ]
    where
      again : (r.id == id) ≡ true → ((g r).id == id) ≡ true
      again e = ap (λ i. i == id) (ids r) ∙ e

      stopped : is_running t.status ≡ false → ⊥
      stopped e = ground arith

retry_ends :
    (env : Env) (message : Text) (r : JobRow) → is_running (retry env.now message r).status ≡ false
unfolding retry
retry_ends env message r = elim (Bool-cases (leb r.max_attempts r.attempts)) [
  | inl e ↦ rw e refl
  | inr e ↦ rw e refl
]

abbrev finished : Env → Text → JobRow → JobRow
finished env result r = record r {
  status = completed;
  result = some result;
  completed_at = some env.now;
}

complete-steady :
    (env : Env) (id : Uuid) (result : Text) (db : Db)
    → complete (steady env) id result db
      ≡ (ok tt, record db { jobs = update_job id (finished env result) db.jobs })
unfolding complete complete_job statement
complete-steady env id result db = with_system_tx-steady (statement (complete_job id result)) env db

module _ (handlers : Text → Option Handler) (env env' : Env) (ctx : Context) (db : Db) (r : JobRow)
    (job : Job) (same : job.id ≡ r.id) where
  abbrev started_db : Db
  started_db = record db { jobs = update_job r.id (start env.now) db.jobs }

  fail-Untouched : (message : Text) → Untouched db (fail (steady env') job.id message started_db).1
  fail-Untouched message =
      rw (fail-steady env' job.id message started_db, same)
        (λ t.
          In-update_twice r.id (retry env'.now message) (start env.now) (λ s. refl)
            (retry_ends env' message) t db.jobs)

  complete-Untouched :
      (result : Text)
      → Untouched db (settle_complete (complete (steady env') job.id result started_db)).1
  complete-Untouched result =
      rw (complete-steady env' job.id result started_db, same)
        (λ t.
          In-update_twice r.id (finished env' result) (start env.now) (λ s. refl) (λ s. refl) t
            db.jobs)

  executed-Untouched :
      (handler : Handler) (o : Outcome)
      → handlers job.job_type ≡ some handler
      → handler (handler_context ctx job.tenant_id) job.payload ≡ o
      → Untouched db (process_job handlers (steady env') ctx job started_db).1
  unfolding process_job
  executed-Untouched handler (done result) e f = rw (process_job, e, f) (complete-Untouched result)
  executed-Untouched handler (broke message) e f = rw (process_job, e, f) (fail-Untouched message)

  process_job-Untouched : Untouched db (process_job handlers (steady env') ctx job started_db).1
  unfolding process_job
  process_job-Untouched = elim (Option-cases (handlers job.job_type)) [
    | inl e ↦ rw (process_job, e) (fail-Untouched (unknown_message job.job_type))
    | inr (handler, e) ↦ executed-Untouched handler _ e refl
  ]

process_one-Untouched :
    (handlers : Text → Option Handler) (locked : Uuid → Bool) (env env' : Env) (ctx : Context)
    (db : Db)
    → Untouched db (process_one handlers locked (steady env) (steady env') ctx db).1
unfolding process_one
process_one-Untouched handlers locked env env' ctx db =
    elim (Option-cases (next_due locked env.now db.jobs)) [
      | inl e ↦ rw (dequeue-none locked env db e) (λ t m h. m)
      | inr (r, e) ↦ elim (Option-cases r.error) [
        | inl f ↦ rw (dequeue_null locked env db r e f) (λ t m h. m)
        | inr (text, f) ↦ rw (dequeue-some locked env db r e text f) (
            process_job-Untouched handlers env env' ctx db r (scan_job (start env.now r) text) refl)
      ]
    ]

pub record StartsNone (db d : Db) : Type 0 where
  pub untouched : Untouched db d

-- When a worker's turn is over and none of its statements failed, each running job was running before
-- the turn and is unchanged: whatever job the worker took, of an unknown type or with a handler that
-- succeeds or fails, is completed, failed or pending again.
pub process_one-StartsNone :
    (handlers : Text → Option Handler) (locked : Uuid → Bool) (env env' : Env) (ctx : Context)
    (db : Db)
    → StartsNone db (process_one handlers locked (steady env) (steady env') ctx db).1
process_one-StartsNone handlers locked env env' ctx db = record {
  untouched = process_one-Untouched handlers locked env env' ctx db;
}
