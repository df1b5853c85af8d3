-- ===== src/JobQueue/Spent.antt =====
-- internal/adapter/postgres/job_queue.go: the calls that hand out or make a job, and rows that count at
-- least so many starts.
use scoreplay_media_api.Prelude.{
  ℕ, ◌+◌, ◌≤◌, ◌≡◌, ◌≢◌, inl, inr, Bool, true, false, not, ◌&&◌, List, [], ◌∷◌, Option, none, some,
  Text, All, leb, arith, Bool-cases, ◌==◌,
}
use scoreplay_media_api.Result.{Result, ok, err}
use scoreplay_media_api.Domain.{Uuid, Time, Job}
use scoreplay_media_api.Database.{JobRow, Db, Env}
use scoreplay_media_api.JobQueue.{update_job, retry, enqueue, dequeue}
use scoreplay_media_api.JobQueue.Attempts.{
  QueueCall, enqueues, dequeues, completes, fails, cleans, call,
}

abbrev pub bit : Bool → ℕ
bit true = 1
bit false = 0

abbrev pub after : Bool → ℕ → ℕ
after true n = n + 1
after false n = n

-- Whether Dequeue hands out the job, and whether Enqueue makes it.
abbrev pub is_start : Uuid → Result (Option Job) → Bool
is_start id (err e) = false
is_start id (ok none) = false
is_start id (ok (some job)) = job.id == id

abbrev pub is_made : Uuid → Result Uuid → Bool
is_made id (err e) = false
is_made id (ok i) = i == id

unfoldable pub started_by : Uuid → Env → QueueCall → Db → ℕ
started_by id env (enqueues ctx job_type payload) db = 0
started_by id env (dequeues locked) db = bit (is_start id (dequeue locked env db).0)
started_by id env (completes i result) db = 0
started_by id env (fails i message) db = 0
started_by id env (cleans days) db = 0

unfoldable pub made_by : Uuid → Env → QueueCall → Db → Bool
made_by id env (enqueues ctx job_type payload) db =
    is_made id (enqueue env ctx job_type payload db).0
made_by id env (dequeues locked) db = false
made_by id env (completes i result) db = false
made_by id env (fails i message) db = false
made_by id env (cleans days) db = false

-- How many of the calls hand out the job.
unfoldable pub starts : Uuid → List (Env × QueueCall) → Db → ℕ
starts id [] db = 0
starts id ((env, c) ∷ cs) db =
    let rest = starts id cs (call env c db) in started_by id env c db + rest

-- No call makes a job with the id.
unfoldable pub makes_none : Uuid → List (Env × QueueCall) → Db → Bool
makes_none id [] db = true
makes_none id ((env, c) ∷ cs) db =
    let rest = makes_none id cs (call env c db) in not (made_by id env c db) && rest

module _ (P Q : JobRow → Type 0) (id : Uuid) (f : JobRow → JobRow)
    (changed : (r : JobRow) → r.id ≡ id → P r → Q (f r))
    (kept : (r : JobRow) → r.id ≢ id → P r → Q r) where
  pub update_job-All_to : (rows : List JobRow) → All P rows → All Q (update_job id f rows)
  unfolding update_job
  update_job-All_to [] h = tt
  update_job-All_to (r ∷ rows) h = elim (Bool-cases (r.id == id)) [
    | inl e ↦ rw e (changed r (ground arith) h.0, update_job-All_to rows h.1)
    | inr e ↦ rw e (kept r (λ q. apart q e) h.0, update_job-All_to rows h.1)
  ]
    where
      apart : r.id ≡ id → (r.id == id) ≡ false → ⊥
      apart q e = ground arith

module _ (id : Uuid) (max : ℕ) where
  -- A row of the job counts at least `n` starts.
  abbrev pub SpentRow : ℕ → JobRow → Type 0
  SpentRow n r = r.id ≡ id → (r.max_attempts ≡ max) × (n ≤ r.attempts)

  abbrev pub Spent : ℕ → Db → Type 0
  Spent n db = All (SpentRow n) db.jobs

  pub update-Spent :
      (n : ℕ) (i : Uuid) (f : JobRow → JobRow) (db : Db)
      → ((r : JobRow) → SpentRow n r → SpentRow n (f r))
      → Spent n db
      → Spent n (record db { jobs = update_job i f db.jobs })
  update-Spent n i f db k h =
      update_job-All_to (SpentRow n) (SpentRow n) i f (λ r e s. k r s) (λ r e s. s) db.jobs h

  pub retry-SpentRow :
      (n : ℕ) (now : Time) (message : Text) (r : JobRow)
      → SpentRow n r
      → SpentRow n (retry now message r)
  unfolding retry
  retry-SpentRow n now message r h = elim (Bool-cases (leb r.max_attempts r.attempts)) [
    | inl e ↦ rw e h
    | inr e ↦ rw e h
  ]
