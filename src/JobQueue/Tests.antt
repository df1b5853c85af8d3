-- ===== src/JobQueue/Tests.antt =====
-- Runs of the job queue and of its worker.
use scoreplay_media_api.Prelude.{
  ◌+◌, ◌≤◌, true, List, ◌≡◌, ◌≢◌, refl, [], ◌∷◌, none, some, codes, any, All, filter, inl, inr,
  arith, Text, Option,
}
use scoreplay_media_api.Result.{ok}
use scoreplay_media_api.Domain.{Uuid, pending, tenant_id_from_context, identity_from_context}
use scoreplay_media_api.Database.{
  JobRow, Db, Env, empty_db, pure, raise, statement, no_op, ◌>>=◌, with_tenant_tx, with_system_tx,
}
use scoreplay_media_api.Database.Steady.{steady}
use scoreplay_media_api.Paging.{insert_by, sort_by}
use scoreplay_media_api.JobQueue.{
  next_due, start, update_job, take_job, scan_job, backoff, retry, fail_job, dequeue_tx, dequeue,
  enqueue, insert_job, cleanup, complete, complete_job, delete_stale, fail,
}
use scoreplay_media_api.JobQueue.Attempts.{
  enqueues, dequeues, fails, completes, cleans, IsQueue, QueueCall, call,
}
use scoreplay_media_api.JobQueue.Backoff.{Taken, dequeue-Taken, fail_waits}
use scoreplay_media_api.JobQueue.Depth.{unlocked, QueueStats, IsDepth, stats, stats-IsDepth}
use scoreplay_media_api.JobQueue.Released.{StartsNone, process_one-StartsNone}
use scoreplay_media_api.JobQueue.Spent.{started_by, made_by, starts, makes_none}
use scoreplay_media_api.JobQueue.Starts.{starts_bounded}
use scoreplay_media_api.JobQueue.Stuck.{produce, work, turns, IsIdle, turns-IsIdle}
use scoreplay_media_api.Worker.{Handler, noop_execute, process_one}
use scoreplay_media_api.Fixtures.{env_at, tenant_ctx}

-- A job that failed once and waits for its second attempt.
abbrev retried : JobRow
retried = record {
  id = 31;
  tenant_id = 2;
  job_type = codes "noop";
  payload = codes "{}";
  status = pending;
  result = none;
  error = some (codes "boom");
  attempts = 1;
  max_attempts = 3;
  scheduled_at = 40;
  started_at = none;
  completed_at = none;
  created_at = 1;
}

abbrev retried_db : Db
retried_db = record empty_db { jobs = retried ∷ [] }

retried_db-IsQueue : IsQueue retried_db
retried_db-IsQueue = record { ids = (λ m. m, tt); counted = ((omega arith, λ e. omega arith), tt) }

abbrev later_calls : List (Env × QueueCall)
later_calls =
    (env_at 50, enqueues (tenant_ctx 2) (codes "noop") none)
    ∷ (env_at 51, dequeues unlocked)
    ∷ (env_at 52, fails 31 (codes "again"))
    ∷ (env_at 53, completes 5002 (codes "{}"))
    ∷ (env_at 54, cleans 1)
    ∷ []

-- The calls hand out the job once.
handed_out : (starts 31 later_calls retried_db ≡ 1) × (makes_none 31 later_calls retried_db ≡ true)
unfolding starts started_by makes_none made_by call enqueue dequeue dequeue_tx fail fail_job retry
    backoff cleanup complete complete_job delete_stale insert_job take_job next_due update_job
    filter sort_by insert_by any with_system_tx with_tenant_tx tenant_id_from_context
    identity_from_context no_op ◌>>=◌ pure raise statement
handed_out = (refl, refl)

starts_bounded_example : 1 + starts 31 later_calls retried_db ≤ 3
starts_bounded_example =
    starts_bounded later_calls retried_db retried retried_db-IsQueue (inl refl) handed_out.1

dequeue_run : dequeue unlocked (steady (env_at 50)) retried_db ≡ (
  ok (some (scan_job (start 50 retried) (codes "boom"))),
  record retried_db { jobs = start 50 retried ∷ [] },
)
unfolding dequeue dequeue_tx take_job next_due update_job filter sort_by insert_by with_system_tx
    no_op ◌>>=◌ pure statement
dequeue_run = refl

dequeue-Taken_example :
    Taken unlocked 50 retried_db
      (scan_job (start 50 retried) (codes "boom"))
      (record retried_db { jobs = start 50 retried ∷ [] })
dequeue-Taken_example =
    dequeue-Taken unlocked (env_at 50) retried_db
      (record retried_db { jobs = start 50 retried ∷ [] })
      (scan_job (start 50 retried) (codes "boom")) dequeue_run

-- A second job is due when the first one fails.
abbrev other : JobRow
other = record retried { id = 32; scheduled_at = 45 }

abbrev two_jobs : Db
two_jobs = record empty_db { jobs = retried ∷ other ∷ [] }

abbrev after_failure : Db
after_failure = (fail (steady (env_at 60)) 31 (codes "again") two_jobs).1

other_run : dequeue unlocked (steady (env_at 100)) after_failure ≡ (
  ok (some (scan_job (start 100 other) (codes "boom"))),
  record empty_db { jobs = retry 60 (codes "again") retried ∷ start 100 other ∷ [] },
)
unfolding dequeue dequeue_tx take_job next_due update_job filter sort_by insert_by with_system_tx
    no_op ◌>>=◌ pure statement fail fail_job retry backoff
other_run = refl

fail_waits_example : ◌≢◌ {A = Uuid} 32 31
fail_waits_example =
    fail_waits unlocked (env_at 60) (env_at 100) two_jobs
      (record empty_db { jobs = retry 60 (codes "again") retried ∷ start 100 other ∷ [] }) retried
      (codes "again") (scan_job (start 100 other) (codes "boom"))
      (λ m. elim m [ inl e ↦ omega (arith, e) | inr n ↦ n ], (λ m. m, tt)) (inl refl) (omega arith)
      (omega arith) other_run

abbrev noop_only : Text → Option Handler
noop_only job_type = some noop_execute

turns-IsIdle_example : All IsIdle (
    turns
      (produce (env_at 5) (tenant_ctx 2) (codes "noop") none
        ∷ work noop_only unlocked (env_at 6) (env_at 7) (tenant_ctx 2)
        ∷ [])
      empty_db)
turns-IsIdle_example = turns-IsIdle _ empty_db tt

process_one-StartsNone_example :
    StartsNone retried_db
      (process_one noop_only unlocked
        (steady (env_at 50))
        (steady (env_at 51))
        (tenant_ctx 2)
        retried_db).1
process_one-StartsNone_example =
    process_one-StartsNone noop_only unlocked (env_at 50) (env_at 51) (tenant_ctx 2) retried_db

stats-IsDepth_example :
    (s : QueueStats) × (stats (steady (env_at 50)) retried_db ≡ (ok s, retried_db))
    × IsDepth 50 (next_due unlocked 50 retried_db.jobs) s
stats-IsDepth_example = stats-IsDepth (env_at 50) retried_db
