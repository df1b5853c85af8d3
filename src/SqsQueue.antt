-- ===== src/SqsQueue.antt =====
-- internal/adapter/sqs/sqs_queue.go: the stub of a queue on SQS, whose methods fail or do nothing.
use scoreplay_media_api.Prelude.{
  ℕ, ◌≡◌, refl, inl, inr, Bool, true, false, ◌||◌, Option, none, Text, codes, text_eq, text_eq→eq,
  is_empty, Bool-cases, if◌then◌else◌,
}
use scoreplay_media_api.Result.{Result, ok, err, internal}
use scoreplay_media_api.Domain.{Uuid, Job}
use scoreplay_media_api.Config.{Config}
use scoreplay_media_api.Program.{postgres, sqs, new_job_queue, starts_worker}

record QueueConfig : Type 0 where
  pub queue_url : Text
  pub region : Text

record JobQueue : Type 0 where
  pub config : QueueConfig

unfoldable enqueue : JobQueue → Text → Option Text → Result Uuid
enqueue q job_type payload = err internal

unfoldable dequeue : JobQueue → Result (Option Job)
dequeue q = ok none

unfoldable complete : JobQueue → Uuid → Text → Result (Unit {0})
complete q id result = err internal

unfoldable fail : JobQueue → Uuid → Text → Result (Unit {0})
fail q id message = err internal

unfoldable cleanup : JobQueue → ℕ → Result ℕ
cleanup q days = ok 0

sqs_named :
    (cfg : Config) → new_job_queue cfg ≡ ok sqs → text_eq cfg.job_queue_backend (codes "sqs") ≡ true
unfolding new_job_queue
sqs_named cfg h = elim (Bool-cases (text_eq cfg.job_queue_backend (codes "sqs"))) [
  | inl e ↦ e
  | inr e ↦ absurd (
      otherwise (text_eq cfg.job_queue_backend (codes "postgres") || is_empty cfg.job_queue_backend)
        (rw (e, new_job_queue) at h))
]
  where
    otherwise : (b : Bool) → (if b then ok postgres else err internal) ≡ ok sqs → ⊥
    otherwise true p = cc
    otherwise false p = cc

-- No worker polls a queue on SQS, whatever the configuration says of the worker.
sqs_no_worker : (cfg : Config) → new_job_queue cfg ≡ ok sqs → starts_worker cfg ≡ false
unfolding starts_worker text_eq
sqs_no_worker cfg h =
    let named = text_eq→eq cfg.job_queue_backend (codes "sqs") (sqs_named cfg h) in
    rw (starts_worker, named) refl
