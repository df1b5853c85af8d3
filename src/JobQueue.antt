-- ===== src/JobQueue.antt =====
-- internal/adapter/postgres/job_queue.go: the job queue, each SQL statement and each method as it
-- sends them. The rows that other transactions lock, which SKIP LOCKED passes over, are an argument of
-- Dequeue. Two jobs of one scheduled time are taken in the order of the table.
pub mod Attempts
pub mod Backoff
pub mod Depth
pub mod Order
pub mod Released
pub mod Spent
pub mod Starts
pub mod Stuck
mod Tests
use scoreplay_media_api.Prelude.{
  ℕ, ◌+◌, ◌*◌, ◌-◌, ◌/◌, ◌^◌, Bool, true, false, not, ◌&&◌, ◌||◌, List, [], ◌∷◌, ◌++◌, map, Option,
  none, some, Text, codes, text_eq, is_empty, any, find, filter, length, ltb, leb, ◌==◌,
  if◌then◌else◌,
}
use scoreplay_media_api.Result.{Error, Result, ok, err, unique_violation, internal}
use scoreplay_media_api.Domain.{
  Uuid, Time, second, Job, JobStatus, pending, running, completed, failed, Context, Identity,
  admin_scope, with_identity,
}
use scoreplay_media_api.Database.{
  JobRow, Db, Env, Tx, pure, raise, statement, ◌>>=◌, ◌>>◌, with_tenant_tx, with_system_tx,
}
use scoreplay_media_api.Paging.{sort_by}

abbrev pub is_pending : JobStatus → Bool
is_pending pending = true
is_pending _ = false

abbrev pub is_running : JobStatus → Bool
is_running running = true
is_running _ = false

-- status IN ('completed', 'failed')
abbrev pub is_over : JobStatus → Bool
is_over completed = true
is_over failed = true
is_over _ = false

abbrev pub empty_object : Text
empty_object = codes "{}"

-- INSERT INTO jobs (tenant_id, type, payload) … RETURNING id, with the defaults of migration 003.
unfoldable pub insert_job : Uuid → Text → Text → Env → Uuid → Db → Result Uuid × Db
insert_job tenant job_type payload env id db =
    let row : JobRow = record {
      id = id;
      tenant_id = tenant;
      job_type = job_type;
      payload = payload;
      status = pending;
      result = none;
      error = none;
      attempts = 0;
      max_attempts = 3;
      scheduled_at = env.now;
      started_at = none;
      completed_at = none;
      created_at = env.now;
    } in
    if any (λ r. r.id == id) db.jobs
    then (err unique_violation, db)
    else (ok id, record db { jobs = row ∷ db.jobs })

abbrev pub payload_or_empty : Option Text → Text
payload_or_empty none = empty_object
payload_or_empty (some p) = p

unfoldable pub enqueue : Env → Context → Text → Option Text → Db → Result Uuid × Db
enqueue env ctx job_type payload db =
    with_tenant_tx (λ tenant. statement (insert_job tenant job_type (payload_or_empty payload))) env
      ctx db

-- WHERE status = 'pending' AND scheduled_at <= now()
abbrev pub is_due : Time → JobRow → Bool
is_due now r = is_pending r.status && leb r.scheduled_at now

abbrev pub first : List JobRow → Option JobRow
first [] = none
first (r ∷ rs) = some r

-- The SELECT … ORDER BY scheduled_at FOR UPDATE SKIP LOCKED LIMIT 1.
unfoldable pub next_due : (Uuid → Bool) → Time → List JobRow → Option JobRow
next_due locked now rows =
    first (sort_by (λ r. r.scheduled_at) ltb (filter (λ r. is_due now r && not (locked r.id)) rows))

abbrev pub start : Time → JobRow → JobRow
start now r = record r { status = running; started_at = some now; attempts = r.attempts + 1 }

-- UPDATE … WHERE id = …
unfoldable pub update_job : Uuid → (JobRow → JobRow) → List JobRow → List JobRow
update_job id f [] = []
update_job id f (r ∷ rs) =
    let rest = update_job id f rs in if r.id == id then f r ∷ rest else r ∷ rest

unfoldable pub take_job : (Uuid → Bool) → Env → Uuid → Db → Result (Option JobRow) × Db
take_job locked env fresh db = elim (next_due locked env.now db.jobs) [
  | none ↦ (ok none, db)
  | some r ↦
      (ok (some (start env.now r)), record db { jobs = update_job r.id (start env.now) db.jobs })
]

-- Scan: the column `error` goes into a Go string, which a NULL cannot be converted to.
abbrev pub scan_error : Option Text → Result Text
scan_error none = err internal
scan_error (some e) = ok e

abbrev pub scan_job : JobRow → Text → Job
scan_job r e = record {
  id = r.id;
  tenant_id = r.tenant_id;
  job_type = r.job_type;
  payload = r.payload;
  status = r.status;
  result = r.result;
  error = e;
  attempts = r.attempts;
  max_attempts = r.max_attempts;
  scheduled_at = r.scheduled_at;
  started_at = r.started_at;
  completed_at = r.completed_at;
  created_at = r.created_at;
}

abbrev pub scanned : JobRow → Result Text → Tx (Option Job)
scanned r (err e) = raise e
scanned r (ok e) = pure (some (scan_job r e))

abbrev pub taken : Option JobRow → Tx (Option Job)
taken none = pure none
taken (some r) = scanned r (scan_error r.error)

unfoldable pub dequeue_tx : (Uuid → Bool) → Tx (Option Job)
dequeue_tx locked = do row ← statement (take_job locked); taken row

unfoldable pub dequeue : (Uuid → Bool) → Env → Db → Result (Option Job) × Db
unfolding dequeue_tx
dequeue locked env db = with_system_tx (dequeue_tx locked) env db

unfoldable pub complete_job : Uuid → Text → Env → Uuid → Db → Result (Unit {0}) × Db
complete_job id result env fresh db = (
  ok tt,
  record db {
    jobs =
        update_job id
          (λ r. record r { status = completed; result = some result; completed_at = some env.now })
          db.jobs;
  },
)

unfoldable pub complete : Env → Uuid → Text → Db → Result (Unit {0}) × Db
complete env id result db = with_system_tx (statement (complete_job id result)) env db

-- 30 * power(2, attempts - 1) seconds, which PostgreSQL computes without truncation: half of 30
-- seconds for no attempt.
unfoldable pub backoff : ℕ → ℕ
backoff attempts = 30 * second * 2 ^ attempts / 2

-- The three CASE expressions on attempts >= max_attempts.
unfoldable pub retry : Time → Text → JobRow → JobRow
retry now message r =
    if leb r.max_attempts r.attempts
    then record r { error = some message; status = failed; completed_at = some now }
    else record r {
      error = some message;
      status = pending;
      scheduled_at = now + backoff r.attempts;
      completed_at = none;
    }

unfoldable pub fail_job : Uuid → Text → Env → Uuid → Db → Result (Unit {0}) × Db
fail_job id message env fresh db =
    (ok tt, record db { jobs = update_job id (retry env.now message) db.jobs })

unfoldable pub fail : Env → Uuid → Text → Db → Result (Unit {0}) × Db
fail env id message db = with_system_tx (statement (fail_job id message)) env db

abbrev pub day : ℕ
day = 86_400 * second

abbrev pub before_time : Option Time → ℕ → Time → Bool
before_time none age now = false
before_time (some t) age now = ltb (t + age) now

-- DELETE … WHERE status IN ('completed', 'failed') AND completed_at < now() - n days
abbrev pub is_stale : ℕ → Time → JobRow → Bool
is_stale days now r = is_over r.status && before_time r.completed_at (days * day) now

unfoldable pub delete_stale : ℕ → Env → Uuid → Db → Result ℕ × Db
delete_stale days env fresh db = (
  ok (length (filter (is_stale days env.now) db.jobs)),
  record db { jobs = filter (λ r. not (is_stale days env.now r)) db.jobs },
)

unfoldable pub cleanup : Env → ℕ → Db → Result ℕ × Db
cleanup env days db = with_system_tx (statement (delete_stale days)) env db
