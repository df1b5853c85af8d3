-- ===== src/JobQueue/Stuck.antt =====
-- internal/adapter/postgres/job_queue.go and internal/service/worker.go: a job whose `error` column is
-- NULL cannot be scanned.
use scoreplay_media_api.Prelude.{
  ◌≡◌, refl, sym, ◌⊎◌, inl, inr, Bool, List, [], ◌∷◌, Option, none, some, Text, All, In, any,
  Bool-cases, Option-cases, ◌==◌,
}
use mathlib.Core.Path.{subst}
use scoreplay_media_api.Result.{Error, Result, ok, err}
use scoreplay_media_api.Domain.{Uuid, Job, Context}
use scoreplay_media_api.Database.{JobRow, Db, Env, raise}
use scoreplay_media_api.Database.Ensures.{
  Post, Ensures, Ensures-pure, Ensures-statement, Ensures-bind, with_tenant_tx-Preserves,
}
use scoreplay_media_api.Database.Steady.{with_system_tx-Post, with_system_tx_atomic}
use scoreplay_media_api.JobQueue.{
  next_due, insert_job, take_job, scanned, taken, payload_or_empty, enqueue, dequeue_tx, dequeue,
}
use scoreplay_media_api.JobQueue.Order.{next_due-In}
use scoreplay_media_api.Worker.{
  Handler, Report, dequeue_failed, no_job, process_dequeued, process_one,
}

abbrev pub HasNoError : JobRow → Type 0
HasNoError r = r.error ≡ none

-- What a worker reports when it got no job.
abbrev pub IsIdle : Report → Type 0
IsIdle r = (r ≡ dequeue_failed) ⊎ (r ≡ no_job)

pub In-All : (P : JobRow → Type 0) (r : JobRow) (rows : List JobRow) → All P rows → In r rows → P r
In-All P r [] h m = absurd m
In-All P r (x ∷ rows) h (inl e) = subst P (sym e) h.0
In-All P r (x ∷ rows) h (inr m) = In-All P r rows h.1 m

module _ (locked : Uuid → Bool) (db : Db) (h : All HasNoError db.jobs) where
  abbrev Unscannable : Option JobRow → Db → Type 0
  Unscannable none d = d ≡ db
  Unscannable (some r) d = HasNoError r

  take_job-Unscannable :
      (env : Env) (id : Uuid) (d : Db) → d ≡ db → Post Unscannable (take_job locked env id d)
  unfolding take_job
  take_job-Unscannable env id d e = elim (Option-cases (next_due locked env.now d.jobs)) [
    | inl f ↦ rw (f, take_job) e
    | inr (r, f) ↦
        rw (f, take_job)
          (In-All HasNoError r d.jobs (rw e h) (next_due-In locked env.now d.jobs r f).0)
  ]

  Quiet : Option Job → Db → Type 0
  Quiet r d = (r ≡ none) × (d ≡ db)

  taken-Quiet : (row : Option JobRow) → Ensures (Unscannable row) (taken row) Quiet
  unfolding Quiet raise
  taken-Quiet none = Ensures-pure _ _ _ (λ d e. (refl, e))
  taken-Quiet (some r) = record { at = λ env c e. rw (e, scanned) tt }

  dequeue-Quiet : (env : Env) → Post Quiet (dequeue locked env db)
  unfolding dequeue dequeue_tx
  dequeue-Quiet env = with_system_tx-Post Quiet (dequeue_tx locked) env db (
      Ensures-bind (λ d. d ≡ db) Unscannable Quiet _ _
        (Ensures-statement _ _ _ take_job-Unscannable) taken-Quiet)

  processed-Idle :
      (handlers : Text → Option Handler) (env : Env) (ctx : Context) (r : Result (Option Job) × Db)
      → r.1 ≡ db
      → Post Quiet r
      → IsIdle (process_dequeued handlers env ctx r).0
        × ((process_dequeued handlers env ctx r).1 ≡ db)
  unfolding Quiet
  processed-Idle handlers env ctx (err e, d) p q = (inl refl, p)
  processed-Idle handlers env ctx (ok none, d) p q = (inr refl, p)
  processed-Idle handlers env ctx (ok (some job), d) p q = absurd (clash job q.0)
    where
      clash : (job : Job) → ◌≡◌ {A = Option Job} (some job) none → ⊥
      clash job e = cc

  stays :
      (r : Result (Option Job) × Db)
      → Post Quiet r
      → ((e : Error) → r.0 ≡ err e → r.1 ≡ db)
      → r.1 ≡ db
  unfolding Quiet
  stays (ok a, d) q k = q.1
  stays (err e, d) q k = k e refl

  dequeue_stays : (env : Env) → (dequeue locked env db).1 ≡ db
  unfolding dequeue
  dequeue_stays env =
      stays (dequeue locked env db) (dequeue-Quiet env)
        (with_system_tx_atomic (dequeue_tx locked) env db)

  pub process_one-Idle :
      (handlers : Text → Option Handler) (env env' : Env) (ctx : Context)
      → IsIdle (process_one handlers locked env env' ctx db).0
        × ((process_one handlers locked env env' ctx db).1 ≡ db)
  unfolding process_one
  process_one-Idle handlers env env' ctx =
      processed-Idle handlers env' ctx (dequeue locked env db) (dequeue_stays env)
        (dequeue-Quiet env)

module _ (tenant : Uuid) (job_type payload : Text) where
  insert_job-NoError :
      (env : Env) (id : Uuid) (db : Db)
      → All HasNoError db.jobs
      → Post (λ _ d. All HasNoError d.jobs) (insert_job tenant job_type payload env id db)
  unfolding insert_job
  insert_job-NoError env id db h = elim (Bool-cases (any (λ r. r.id == id) db.jobs)) [
    | inl e ↦ rw e tt
    | inr e ↦ rw e (refl, h)
  ]

enqueue-NoError :
    (env : Env) (ctx : Context) (job_type : Text) (payload : Option Text) (db : Db)
    → All HasNoError db.jobs
    → All HasNoError (enqueue env ctx job_type payload db).1.jobs
unfolding enqueue
enqueue-NoError env ctx job_type payload db h =
    with_tenant_tx-Preserves (λ d. All HasNoError d.jobs) _ env ctx db
      (λ t e. Ensures-statement _ _ _ (insert_job-NoError t job_type (payload_or_empty payload))) h

-- What producers and workers do: a job is added, or a worker takes its turn.
pub data Turn : Type 0 where
  produce : Env → Context → Text → Option Text → Turn
  work : (Text → Option Handler) → (Uuid → Bool) → Env → Env → Context → Turn

unfoldable pub turns : List Turn → Db → List Report
turns [] db = []
turns (produce env ctx job_type payload ∷ ts) db = turns ts (enqueue env ctx job_type payload db).1
turns (work handlers locked env env' ctx ∷ ts) db =
    let (report, d) = process_one handlers locked env env' ctx db in report ∷ turns ts d

-- No worker ever gets a job out of a queue in which no job has an error text, such as a new one: in
-- every sequence of enqueues and of worker turns, each turn finds no job or fails to dequeue one, since
-- the NULL of the `error` column is scanned into a string.
pub turns-IsIdle : (ts : List Turn) (db : Db) → All HasNoError db.jobs → All IsIdle (turns ts db)
unfolding turns
turns-IsIdle [] db h = tt
turns-IsIdle (produce env ctx job_type payload ∷ ts) db h =
    turns-IsIdle ts _ (enqueue-NoError env ctx job_type payload db h)
turns-IsIdle (work handlers locked env env' ctx ∷ ts) db h =
    let (idle, same) = process_one-Idle locked db h handlers env env' ctx in
    (idle, turns-IsIdle ts _ (subst (λ d. All HasNoError d.jobs) (sym same) h))
