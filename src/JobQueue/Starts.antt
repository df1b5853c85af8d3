-- ===== src/JobQueue/Starts.antt =====
-- internal/adapter/postgres/job_queue.go: how often Dequeue hands out a job.
use scoreplay_media_api.Prelude.{
  ℕ, ◌+◌, ◌≤◌, ◌<◌, ◌≡◌, refl, sym, ◌∙◌, inl, inr, Bool, true, false, List, [], ◌∷◌, Option, none,
  some, Text, All-filter, All-map, All-of_In, In, any, arith, Bool-cases, Option-cases, ◌==◌,
}
use mathlib.Core.Path.{subst}
use scoreplay_media_api.Result.{Error, Result, ok, err}
use scoreplay_media_api.Domain.{Uuid, Time, Job, Context}
use scoreplay_media_api.Database.{JobRow, Db, Env}
use scoreplay_media_api.Database.Ensures.{
  Post, Ensures, Ensures-pure, Ensures-raise, Ensures-statement, Ensures-bind,
  with_system_tx-Preserves, with_tenant_tx_atomic,
}
use scoreplay_media_api.Database.Steady.{
  with_system_tx-Post, with_system_tx_atomic, with_tenant_tx-Post_any,
}
use scoreplay_media_api.Database.Owned.{same_key}
use scoreplay_media_api.JobQueue.{
  is_pending, next_due, start, update_job, insert_job, take_job, scan_error, scanned, taken,
  complete_job, fail_job, delete_stale, payload_or_empty, enqueue, dequeue_tx, dequeue, complete,
  fail, cleanup,
}
use scoreplay_media_api.JobQueue.Order.{next_due-In}
use scoreplay_media_api.JobQueue.Attempts.{
  IsCounted, IsQueue, QueueCall, enqueues, dequeues, completes, fails, cleans, call, call-IsQueue,
}
use scoreplay_media_api.JobQueue.Stuck.{In-All}
use scoreplay_media_api.JobQueue.Spent.{
  bit, after, is_start, is_made, started_by, made_by, starts, makes_none, update_job-All_to,
  SpentRow, Spent, update-Spent, retry-SpentRow,
}

module _ (id : Uuid) (max : ℕ) where
  module _ (n : ℕ) (db : Db) (q : IsQueue db) (low : n ≤ max) (s : Spent id max n db) where
    -- What holds after a call that starts the job or not.
    abbrev Counts : Bool → Db → Type 0
    Counts b d = Spent id max (after b n) d × (after b n ≤ max)

    stays : (d : Db) → d ≡ db → Counts false d
    stays d e = (subst (Spent id max n) (sym e) s, low)

    abbrev CountsRow : Option JobRow → Db → Type 0
    CountsRow none d = Counts false d
    CountsRow (some r) d = Counts (r.id == id) d

    abbrev CountsJob : Option Job → Db → Type 0
    CountsJob o d = Counts (is_start id (ok o)) d

    started :
        (locked : Uuid → Bool) (now : Time) (r : JobRow)
        → next_due locked now db.jobs ≡ some r
        → Counts (r.id == id) (record db { jobs = update_job r.id (start now) db.jobs })
    started locked now r e = elim (Bool-cases (r.id == id)) [
      | inl same ↦
          let (m, free) = next_due-In locked now db.jobs r e in
          let (enough, left) = In-All IsCounted r db.jobs q.counted m in
          let (top, spent) = In-All (SpentRow id max n) r db.jobs s m (ground arith) in
          let waits : is_pending r.status ≡ true = ground arith in
          let fewer : r.attempts < r.max_attempts = left waits in
          rw same (
            update_job-All_to (SpentRow id max n) (SpentRow id max (n + 1)) r.id (start now)
                (λ t p h i. let (a, b) = h i in (a, omega (arith, b)))
                (λ t ne h i. absurd (ne (i ∙ back same))) db.jobs s,
            omega (arith, top, spent, fewer),
          )
      | inr other ↦ rw other (
        update_job-All_to (SpentRow id max n) (SpentRow id max n) r.id (start now)
            (λ t p h i. absurd (apart other (sym p ∙ i))) (λ t ne h. h) db.jobs s,
        low,
      )
    ]
      where
        back : (r.id == id) ≡ true → id ≡ r.id
        back h = ground arith

        apart : (r.id == id) ≡ false → r.id ≡ id → ⊥
        apart h p = ground arith

    take_job-Counts :
        (locked : Uuid → Bool) (env : Env) (fresh : Uuid) (d : Db)
        → d ≡ db
        → Post CountsRow (take_job locked env fresh d)
    unfolding take_job
    take_job-Counts locked env fresh d same =
        rw same (elim (Option-cases (next_due locked env.now db.jobs)) [
          | inl e ↦ rw (take_job, e) (s, low)
          | inr (r, e) ↦ rw (take_job, e) (started locked env.now r e)
        ])

    taken-Counts : (row : Option JobRow) → Ensures (CountsRow row) (taken row) CountsJob
    taken-Counts none = Ensures-pure _ _ _ (λ d h. h)
    taken-Counts (some r) = scanned-Counts (scan_error r.error)
      where
        scanned-Counts : (e : Result Text) → Ensures (CountsRow (some r)) (scanned r e) CountsJob
        scanned-Counts (err e) = Ensures-raise _ _ e
        scanned-Counts (ok e) = Ensures-pure _ _ _ (λ d h. h)

    dequeued :
        (r : Result (Option Job) × Db)
        → Post CountsJob r
        → ((e : Error) → r.0 ≡ err e → r.1 ≡ db)
        → Counts (is_start id r.0) r.1
    dequeued (ok o, d) h k = h
    dequeued (err e, d) h k = stays d (k e refl)

    dequeue-Counts :
        (locked : Uuid → Bool) (env : Env)
        → Counts (is_start id (dequeue locked env db).0) (dequeue locked env db).1
    unfolding dequeue dequeue_tx
    dequeue-Counts locked env =
        dequeued (dequeue locked env db)
          (with_system_tx-Post CountsJob (dequeue_tx locked) env db (
            Ensures-bind (λ d. d ≡ db) CountsRow CountsJob _ _
              (Ensures-statement _ _ _ (take_job-Counts locked)) taken-Counts))
          (with_system_tx_atomic (dequeue_tx locked) env db)

    abbrev MadeOther : Uuid → Db → Type 0
    MadeOther i d = (i == id) ≡ false → Spent id max n d

    insert_job-MadeOther :
        (tenant : Uuid) (job_type payload : Text) (env : Env) (i : Uuid) (d : Db)
        → d ≡ db
        → Post MadeOther (insert_job tenant job_type payload env i d)
    unfolding insert_job
    insert_job-MadeOther tenant job_type payload env i d same =
        elim (Bool-cases (any (λ r. r.id == i) d.jobs)) [
          | inl e ↦ rw e tt
          | inr e ↦ rw e (λ other. ((λ h. absurd (apart i other h)), (stays d same).0))
        ]
      where
        apart : (i : Uuid) → (i == id) ≡ false → i ≡ id → ⊥
        apart i h p = ground arith

    enqueued :
        (r : Result Uuid × Db)
        → Post MadeOther r
        → ((e : Error) → r.0 ≡ err e → r.1 ≡ db)
        → is_made id r.0 ≡ false
        → Counts false r.1
    enqueued (ok i, d) h k m = (h m, low)
    enqueued (err e, d) h k m = stays d (k e refl)

    enqueue-Counts :
        (env : Env) (ctx : Context) (job_type : Text) (payload : Option Text)
        → is_made id (enqueue env ctx job_type payload db).0 ≡ false
        → Counts false (enqueue env ctx job_type payload db).1
    unfolding enqueue
    enqueue-Counts env ctx job_type payload =
        enqueued (enqueue env ctx job_type payload db)
          (with_tenant_tx-Post_any MadeOther _ env ctx db (λ t.
            Ensures-statement _ _ _ (insert_job-MadeOther t job_type (payload_or_empty payload))))
          (with_tenant_tx_atomic _ env ctx db)

    complete-Counts :
        (env : Env) (i : Uuid) (result : Text) → Counts false (complete env i result db).1
    unfolding complete complete_job
    complete-Counts env i result = (
      with_system_tx-Preserves (Spent id max n) _ env db
          (Ensures-statement _ _ _ (λ e fresh d h. update-Spent id max n i _ d (λ r k. k) h)) s,
      low,
    )

    fail-Counts : (env : Env) (i : Uuid) (message : Text) → Counts false (fail env i message db).1
    unfolding fail fail_job
    fail-Counts env i message = (
      with_system_tx-Preserves (Spent id max n) _ env db
          (Ensures-statement _ _ _
            (λ e fresh d h. update-Spent id max n i _ d (retry-SpentRow id max n e.now message) h))
          s,
      low,
    )

    cleanup-Counts : (env : Env) (days : ℕ) → Counts false (cleanup env days db).1
    unfolding cleanup delete_stale
    cleanup-Counts env days = (
      with_system_tx-Preserves (Spent id max n) _ env db
          (Ensures-statement _ _ _
            (λ e fresh d h. All-map _ _ (λ r k. k.0) _ (All-filter (SpentRow id max n) _ d.jobs h)))
          s,
      low,
    )

    abbrev CountsUp : ℕ → Db → Type 0
    CountsUp k d = Spent id max (n + k) d × (n + k ≤ max)

    up : (b : Bool) (d : Db) → Counts b d → CountsUp (bit b) d
    up true d h = h
    up false d h = let e : n + 0 ≡ n = omega arith in rw e h

    call-CountsUp :
        (env : Env) (c : QueueCall)
        → made_by id env c db ≡ false
        → CountsUp (started_by id env c db) (call env c db)
    unfolding call made_by started_by
    call-CountsUp env (enqueues ctx job_type payload) m =
        up false (enqueue env ctx job_type payload db).1 (enqueue-Counts env ctx job_type payload m)
    call-CountsUp env (dequeues locked) m =
        up _ (dequeue locked env db).1 (dequeue-Counts locked env)
    call-CountsUp env (completes i result) m =
        up false (complete env i result db).1 (complete-Counts env i result)
    call-CountsUp env (fails i message) m =
        up false (fail env i message db).1 (fail-Counts env i message)
    call-CountsUp env (cleans days) m = up false (cleanup env days db).1 (cleanup-Counts env days)

  starts_below :
      (cs : List (Env × QueueCall)) (n : ℕ) (db : Db)
      → IsQueue db
      → n ≤ max
      → Spent id max n db
      → makes_none id cs db ≡ true
      → n + starts id cs db ≤ max
  unfolding starts makes_none
  starts_below [] n db q low s m = omega arith
  starts_below ((env, c) ∷ cs) n db q low s m =
      let (spent, below) = call-CountsUp n db q low s env c (ground arith) in
      let rest =
        starts_below cs (n + started_by id env c db) (call env c db) (call-IsQueue env c db q) below
          spent (ground arith) in
      omega (arith, rest)

-- Whatever calls of the queue are made, in whatever order, with whatever ids and faults, Dequeue hands
-- out a job of the table at most as often as `max_attempts` of its row exceeds its attempts: in all at
-- most `max_attempts` times for one with no attempts yet. Before the calls the job ids are distinct, no
-- job has more attempts than its maximum and a pending one has fewer; no Enqueue draws the id again.
pub starts_bounded :
    (cs : List (Env × QueueCall)) (db : Db) (r : JobRow)
    → IsQueue db
    → In r db.jobs
    → makes_none r.id cs db ≡ true
    → r.attempts + starts r.id cs db ≤ r.max_attempts
starts_bounded cs db r q m none_made =
    starts_below r.id r.max_attempts cs r.attempts db q (In-All IsCounted r db.jobs q.counted m).0
      (All-of_In _ db.jobs (λ t k e. same t (same_key (λ j. j.id) t r db.jobs q.ids k m e)))
      none_made
  where
    same : (t : JobRow) → t ≡ r → (t.max_attempts ≡ r.max_attempts) × (r.attempts ≤ t.attempts)
    same t e = rw e (refl, omega arith)
