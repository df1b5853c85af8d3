-- ===== src/JobQueue/Attempts.antt =====
-- internal/adapter/postgres/job_queue.go: no sequence of calls takes the attempts of a job past
-- their maximum.
use scoreplay_media_api.Prelude.{
  ℕ, ◌≤◌, ◌<◌, ◌≡◌, refl, sym, inl, inr, Bool, true, not, ◌&&◌, List, [], ◌∷◌, map, Option, none,
  some, Text, All, All-map, All-filter, Distinct, Distinct-filter, In, any, not-In-map, leb, arith,
  Bool-cases, Option-cases, ◌==◌,
}
use mathlib.Core.Path.{subst}
use scoreplay_media_api.Result.{Result, ok, err}
use scoreplay_media_api.Domain.{Uuid, Time, Context}
use scoreplay_media_api.Database.{JobRow, Db, Env}
use scoreplay_media_api.Database.Ensures.{
  Post, Ensures-pure, Ensures-raise, Ensures-statement, Ensures-bind, Preserves,
  with_tenant_tx-Preserves, with_system_tx-Preserves,
}
use scoreplay_media_api.Database.Owned.{same_key}
use scoreplay_media_api.JobQueue.Order.{next_due-In}
use scoreplay_media_api.JobQueue.{
  is_pending, is_due, next_due, start, update_job, insert_job, take_job, scan_error, scanned, taken,
  complete_job, retry, fail_job, delete_stale, payload_or_empty, enqueue, dequeue_tx, dequeue,
  complete, fail, cleanup,
}

-- At most `max_attempts` starts, and a start left for a pending job.
abbrev pub IsCounted : JobRow → Type 0
IsCounted r =
    (r.attempts ≤ r.max_attempts) × (is_pending r.status ≡ true → r.attempts < r.max_attempts)

pub record IsQueue (db : Db) : Type 0 where
  pub ids : Distinct (map (λ r. r.id) db.jobs)
  pub counted : All IsCounted db.jobs

-- The calls of the producers, the workers and the clean-up loop.
pub data QueueCall : Type 0 where
  enqueues : Context → Text → Option Text → QueueCall
  dequeues : (Uuid → Bool) → QueueCall
  completes : Uuid → Text → QueueCall
  fails : Uuid → Text → QueueCall
  cleans : ℕ → QueueCall

unfoldable pub call : Env → QueueCall → Db → Db
call env (enqueues ctx job_type payload) db = (enqueue env ctx job_type payload db).1
call env (dequeues locked) db = (dequeue locked env db).1
call env (completes id result) db = (complete env id result db).1
call env (fails id message) db = (fail env id message db).1
call env (cleans days) db = (cleanup env days db).1

unfoldable pub calls : List (Env × QueueCall) → Db → Db
calls [] db = db
calls ((env, c) ∷ cs) db = calls cs (call env c db)

module _ (P : JobRow → Type 0) (id : Uuid) (f : JobRow → JobRow) where
  pub update_job-All :
      (rows : List JobRow)
      → ((r : JobRow) → In r rows → r.id ≡ id → P r → P (f r))
      → All P rows
      → All P (update_job id f rows)
  unfolding update_job
  update_job-All [] k h = tt
  update_job-All (r ∷ rows) k h = elim (Bool-cases (r.id == id)) [
    | inl e ↦ rw e (k r (inl refl) (ground arith) h.0, update_job-All rows (λ s m. k s (inr m)) h.1)
    | inr e ↦ rw e (h.0, update_job-All rows (λ s m. k s (inr m)) h.1)
  ]

module _ (id : Uuid) (f : JobRow → JobRow) (keeps : (r : JobRow) → (f r).id ≡ r.id) where
  pub update_job_ids :
      (rows : List JobRow) → map (λ r. r.id) (update_job id f rows) ≡ map (λ r. r.id) rows
  unfolding update_job
  update_job_ids [] = refl
  update_job_ids (r ∷ rows) = elim (Bool-cases (r.id == id)) [
    | inl e ↦ rw (e, keeps r, update_job_ids rows) refl
    | inr e ↦ rw (e, update_job_ids rows) refl
  ]

  update_job-IsQueue :
      (db : Db)
      → ((r : JobRow) → In r db.jobs → r.id ≡ id → IsCounted r → IsCounted (f r))
      → IsQueue db
      → IsQueue (record db { jobs = update_job id f db.jobs })
  update_job-IsQueue db k q = record {
    ids = rw (update_job_ids db.jobs) q.ids;
    counted = update_job-All IsCounted id f db.jobs k q.counted;
  }

insert_job-IsQueue :
    (tenant : Uuid) (job_type payload : Text) (env : Env) (id : Uuid) (db : Db)
    → IsQueue db
    → Post (λ _. IsQueue) (insert_job tenant job_type payload env id db)
unfolding insert_job
insert_job-IsQueue tenant job_type payload env id db q =
    elim (Bool-cases (any (λ r. r.id == id) db.jobs)) [
      | inl e ↦ rw e tt
      | inr e ↦ rw e (record {
        ids = (not-In-map (λ r. r.id) (λ r. r.id == id) id (λ r p. ground arith) db.jobs e, q.ids);
        counted = ((omega arith, λ p. omega arith), q.counted);
      })
    ]

take_job-IsQueue :
    (locked : Uuid → Bool) (env : Env) (id : Uuid) (db : Db)
    → IsQueue db
    → Post (λ _. IsQueue) (take_job locked env id db)
unfolding take_job
take_job-IsQueue locked env id db q = elim (Option-cases (next_due locked env.now db.jobs)) [
  | inl e ↦ rw (e, take_job) q
  | inr (s, e) ↦
      rw (e, take_job)
        (update_job-IsQueue s.id (start env.now) (λ r. refl) db
          (λ r m p c.
            started r s (same r s m (next_due-In locked env.now db.jobs s e).0 p)
              (next_due-In locked env.now db.jobs s e).1 c)
          q)
]
  where
    same : (r s : JobRow) → In r db.jobs → In s db.jobs → r.id ≡ s.id → r ≡ s
    same r s m n p = same_key (λ t. t.id) r s db.jobs q.ids m n p

    started :
        (r s : JobRow)
        → r ≡ s
        → (is_due env.now s && not (locked s.id)) ≡ true
        → IsCounted r
        → IsCounted (start env.now r)
    started r s p d c =
        let pend : is_pending s.status ≡ true = ground arith in
        let less : r.attempts < r.max_attempts =
          c.1 (subst (λ t. is_pending t.status ≡ true) (sym p) pend) in
        (omega (arith, less), λ b. ground arith)

-- Complete and Fail are addressed by id alone, and may meet a job in any state.
complete_job-IsQueue :
    (job : Uuid) (result : Text) (env : Env) (id : Uuid) (db : Db)
    → IsQueue db
    → Post (λ _. IsQueue) (complete_job job result env id db)
unfolding complete_job
complete_job-IsQueue job result env id db q =
    update_job-IsQueue job _ (λ r. refl) db (λ r m p c. (c.0, λ b. ground arith)) q

retry-IsCounted :
    (now : Time) (message : Text) (r : JobRow) → IsCounted r → IsCounted (retry now message r)
unfolding retry
retry-IsCounted now message r c = elim (Bool-cases (leb r.max_attempts r.attempts)) [
  | inl e ↦ rw e (c.0, λ b. ground arith)
  | inr e ↦ rw e (c.0, λ b. ground arith)
]

retry_id : (now : Time) (message : Text) (r : JobRow) → (retry now message r).id ≡ r.id
unfolding retry
retry_id now message r = elim (Bool-cases (leb r.max_attempts r.attempts)) [
  | inl e ↦ rw e refl
  | inr e ↦ rw e refl
]

fail_job-IsQueue :
    (job : Uuid) (message : Text) (env : Env) (id : Uuid) (db : Db)
    → IsQueue db
    → Post (λ _. IsQueue) (fail_job job message env id db)
unfolding fail_job
fail_job-IsQueue job message env id db q =
    update_job-IsQueue job (retry env.now message) (retry_id env.now message) db
      (λ r m p c. retry-IsCounted env.now message r c) q

delete_stale-IsQueue :
    (days : ℕ) (env : Env) (id : Uuid) (db : Db)
    → IsQueue db
    → Post (λ _. IsQueue) (delete_stale days env id db)
unfolding delete_stale
delete_stale-IsQueue days env id db q = record {
  ids = Distinct-filter (λ r. r.id) _ db.jobs q.ids;
  counted = All-map _ _ (λ r h. h.0) _ (All-filter IsCounted _ db.jobs q.counted);
}

taken-IsQueue : (row : Option JobRow) → Preserves IsQueue (taken row)
taken-IsQueue none = Ensures-pure _ _ _ (λ db q. q)
taken-IsQueue (some r) = scanned-IsQueue (scan_error r.error)
  where
    scanned-IsQueue : (e : Result Text) → Preserves IsQueue (scanned r e)
    scanned-IsQueue (err e) = Ensures-raise _ _ e
    scanned-IsQueue (ok e) = Ensures-pure _ _ _ (λ db q. q)

dequeue_tx-IsQueue : (locked : Uuid → Bool) → Preserves IsQueue (dequeue_tx locked)
unfolding dequeue_tx
dequeue_tx-IsQueue locked =
    Ensures-bind IsQueue (λ _. IsQueue) _ _ _ (Ensures-statement _ _ _ (take_job-IsQueue locked))
      taken-IsQueue

pub call-IsQueue : (env : Env) (c : QueueCall) (db : Db) → IsQueue db → IsQueue (call env c db)
unfolding call enqueue dequeue complete fail cleanup
call-IsQueue env (enqueues ctx job_type payload) db q =
    with_tenant_tx-Preserves IsQueue _ env ctx db
      (λ t e. Ensures-statement _ _ _ (insert_job-IsQueue t job_type (payload_or_empty payload))) q
call-IsQueue env (dequeues locked) db q =
    with_system_tx-Preserves IsQueue _ env db (dequeue_tx-IsQueue locked) q
call-IsQueue env (completes id result) db q =
    with_system_tx-Preserves IsQueue _ env db
      (Ensures-statement _ _ _ (complete_job-IsQueue id result)) q
call-IsQueue env (fails id message) db q =
    with_system_tx-Preserves IsQueue _ env db
      (Ensures-statement _ _ _ (fail_job-IsQueue id message)) q
call-IsQueue env (cleans days) db q =
    with_system_tx-Preserves IsQueue _ env db (Ensures-statement _ _ _ (delete_stale-IsQueue days))
      q

-- Whatever calls of the queue are made, in whatever order and with whatever ids, the job ids stay
-- distinct, no job has more attempts than its maximum, and a pending one has fewer, if all this holds
-- before.
pub calls-IsQueue : (cs : List (Env × QueueCall)) (db : Db) → IsQueue db → IsQueue (calls cs db)
unfolding calls
calls-IsQueue [] db q = q
calls-IsQueue ((env, c) ∷ cs) db q = calls-IsQueue cs _ (call-IsQueue env c db q)
