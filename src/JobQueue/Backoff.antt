-- ===== src/JobQueue/Backoff.antt =====
-- internal/adapter/postgres/job_queue.go: which job Dequeue takes, and how long a failed one waits.
use scoreplay_media_api.Prelude.{
  ◌+◌, ◌*◌, ◌/◌, ◌^◌, ◌≤◌, ◌<◌, ◌≡◌, ◌≢◌, refl, sym, ap, ◌∙◌, ◌⊎◌, inl, inr, Bool, true, false,
  List, [], ◌∷◌, map, Option, none, some, Text, All, Distinct, In, leb, arith, Bool-cases,
  Option-cases, ◌==◌,
}
use mathlib.Core.Path.{subst}
use scoreplay_media_api.Result.{Error, Result, ok, err, internal}
use scoreplay_media_api.Domain.{Uuid, Time, second, Job}
use scoreplay_media_api.Database.{JobRow, Db, Env, pure, raise, statement, ◌>>=◌}
use scoreplay_media_api.Database.Owned.{same_key}
use scoreplay_media_api.Database.Steady.{steady, with_system_tx-steady}
use scoreplay_media_api.JobQueue.{
  next_due, start, update_job, take_job, scan_job, backoff, retry, fail_job, dequeue_tx, dequeue,
  fail,
}
use scoreplay_media_api.JobQueue.Order.{due_time, is_free, next_due_first, next_due-In}

-- The job that Dequeue returned, as a row of the tables before, and the tables after.
pub record Taken (locked : Uuid → Bool) (now : Time) (db : Db) (job : Job) (db' : Db) : Type 0 where
  pub row : JobRow
  pub member : In row db.jobs
  pub free : is_free locked now row ≡ true
  pub earliest : All (λ r. is_free locked now r ≡ true → row.scheduled_at ≤ r.scheduled_at) db.jobs
  pub scans : scan_job (start now row) job.error ≡ job
  pub marked : record db { jobs = update_job row.id (start now) db.jobs } ≡ db'

module _ (locked : Uuid → Bool) (env : Env) (db : Db) where
  pub dequeue-none :
      next_due locked env.now db.jobs ≡ none → dequeue locked (steady env) db ≡ (ok none, db)
  unfolding dequeue dequeue_tx ◌>>=◌ statement pure take_job
  dequeue-none e = with_system_tx-steady (dequeue_tx locked) env db ∙ rw (take_job, e) refl

  module _ (r : JobRow) (e : next_due locked env.now db.jobs ≡ some r) where
    pub dequeue_null : r.error ≡ none → dequeue locked (steady env) db ≡ (err internal, db)
    unfolding dequeue dequeue_tx ◌>>=◌ statement pure raise take_job
    dequeue_null f = with_system_tx-steady (dequeue_tx locked) env db ∙ rw (take_job, e, f) refl

    pub dequeue-some :
        (t : Text)
        → r.error ≡ some t
        → dequeue locked (steady env) db ≡ (
          ok (some (scan_job (start env.now r) t)),
          record db { jobs = update_job r.id (start env.now) db.jobs },
        )
    unfolding dequeue dequeue_tx ◌>>=◌ statement pure take_job
    dequeue-some t f = with_system_tx-steady (dequeue_tx locked) env db ∙ rw (take_job, e, f) refl

abbrev Outcome : Type 0
Outcome = Result (Option Job) × Db

no_none : (job : Job) (d d' : Db) → ◌≡◌ {A = Outcome} (ok none, d) (ok (some job), d') → ⊥
no_none job d d' h = cc

no_err : (e : Error) (job : Job) (d d' : Db) → ◌≡◌ {A = Outcome} (err e, d) (ok (some job), d') → ⊥
no_err e job d d' h = cc

same_job : (a b : Job) (d d' : Db) → ◌≡◌ {A = Outcome} (ok (some a), d) (ok (some b), d') → a ≡ b
same_job a b d d' h = cc

-- If Dequeue returns a job, none of its statements failing, then the job is that of a row which was
-- pending, due, not locked by another transaction, and scheduled no later than any such row; the job
-- that is returned is that row as running with one more attempt, and the tables have the same change.
pub dequeue-Taken :
    (locked : Uuid → Bool) (env : Env) (db db' : Db) (job : Job)
    → dequeue locked (steady env) db ≡ (ok (some job), db')
    → Taken locked env.now db job db'
dequeue-Taken locked env db db' job h = elim (Option-cases (next_due locked env.now db.jobs)) [
  | inl e ↦ absurd (no_none job db db' (sym (dequeue-none locked env db e) ∙ h))
  | inr (r, e) ↦ elim (Option-cases r.error) [
    | inl f ↦ absurd (no_err internal job db db' (sym (dequeue_null locked env db r e f) ∙ h))
    | inr (t, f) ↦
        let q = sym (dequeue-some locked env db r e t f) ∙ h in
        let same = same_job _ job _ db' q in
        let (m, free) = next_due-In locked env.now db.jobs r e in
        record {
          row = r;
          member = m;
          free = free;
          earliest = next_due_first locked env.now db.jobs r e;
          scans =
              subst (λ (x : Text). scan_job (start env.now r) x ≡ job)
                (ap (λ (x : Job). x.error) same) same;
          marked = ap (λ (x : Outcome). x.1) q;
        }
  ]
]

-- A row after an update is one with another id, or an updated one.
module _ (id : Uuid) (f : JobRow → JobRow) where
  In-update_job :
      (t : JobRow) (rows : List JobRow)
      → In t (update_job id f rows)
      → (t.id ≢ id) ⊎ ((s : JobRow) × In s rows × (s.id ≡ id) × (t ≡ f s))
  unfolding update_job
  In-update_job t [] m = absurd m
  In-update_job t (x ∷ rows) m = elim (Bool-cases (x.id == id)) [
    | inl e ↦ elim (rw (e, update_job) at m) [
      | inl q ↦ inr (x, inl refl, ground arith, q)
      | inr n ↦ later (In-update_job t rows n)
    ]
    | inr e ↦ elim (rw (e, update_job) at m) [
      | inl q ↦ inl (λ p. other e (ap (λ (r : JobRow). r.id) (sym q) ∙ p))
      | inr n ↦ later (In-update_job t rows n)
    ]
  ]
    where
      other : (x.id == id) ≡ false → x.id ≡ id → ⊥
      other e p = ground arith

      later :
          (t.id ≢ id) ⊎ ((s : JobRow) × In s rows × (s.id ≡ id) × (t ≡ f s))
          → (t.id ≢ id) ⊎ ((s : JobRow) × In s (x ∷ rows) × (s.id ≡ id) × (t ≡ f s))
      later (inl ne) = inl ne
      later (inr (s, k, p, q)) = inr (s, inr k, p, q)

pub fail-steady :
    (env : Env) (id : Uuid) (message : Text) (db : Db)
    → fail (steady env) id message db
      ≡ (ok tt, record db { jobs = update_job id (retry env.now message) db.jobs })
unfolding fail fail_job statement
fail-steady env id message db = with_system_tx-steady (statement (fail_job id message)) env db

retry_later :
    (now : Time) (message : Text) (r : JobRow)
    → r.attempts < r.max_attempts
    → (retry now message r).scheduled_at ≡ now + backoff r.attempts
unfolding retry
retry_later now message r h = elim (Bool-cases (leb r.max_attempts r.attempts)) [
  | inl e ↦ ground arith
  | inr e ↦ rw e refl
]

free_due :
    (locked : Uuid → Bool) (now : Time) (r : JobRow)
    → is_free locked now r ≡ true
    → r.scheduled_at ≤ now
free_due locked now r h = ground arith

-- After Fail at a time t of a job that is in the table and has a start left, no Dequeue before
-- t + 30 * 2^(attempts - 1) seconds returns the job, whatever rows others lock. The job ids are
-- distinct, and no statement of the two calls fails.
pub fail_waits :
    (locked : Uuid → Bool) (env env' : Env) (db db' : Db) (r : JobRow) (message : Text) (job : Job)
    → Distinct (map (λ s. s.id) db.jobs)
    → In r db.jobs
    → r.attempts < r.max_attempts
    → env'.now < env.now + 30 * second * 2 ^ r.attempts / 2
    → dequeue locked (steady env') (fail (steady env) r.id message db).1 ≡ (ok (some job), db')
    → job.id ≢ r.id
unfolding backoff
fail_waits locked env env' db db' r message job d m left early h same =
    let failed_db : Db = record db { jobs = update_job r.id (retry env.now message) db.jobs } in
    let failed = ap (λ (x : Result (Unit {0}) × Db). x.1) (fail-steady env r.id message db) in
    let t = dequeue-Taken locked env' failed_db db' job (rw failed at h) in
    elim (In-update_job r.id (retry env.now message) t.row db.jobs t.member) [
      | inl ne ↦ ne (ap (λ (x : Job). x.id) t.scans ∙ same)
      | inr (s, k, p, q) ↦
          let one = same_key (λ x. x.id) s r db.jobs d k m p in
          let at : t.row.scheduled_at ≡ env.now + 30 * second * 2 ^ r.attempts / 2 =
            ap due_time q
            ∙ ap (λ x. (retry env.now message x).scheduled_at) one
            ∙ retry_later env.now message r left in
          let due : t.row.scheduled_at ≤ env'.now = free_due locked env'.now t.row t.free in
          omega (arith, at, due, early)
    ]
