-- ===== src/Program.antt =====
-- cmd/api/main.go: run, from the configuration to the shutdown, as the sequence of what it does. The
-- outcomes of calls (of the database, the storage, the server and the signal) are a parameter.
pub mod Lifecycle
mod Tests
use scoreplay_media_api.Prelude.{
  ℕ, Bool, true, false, not, ◌&&◌, ◌||◌, List, [], ◌∷◌, ◌++◌, Option, none, some, Text, codes,
  text_eq, is_empty, if◌then◌else◌, ◌==◌,
}
use scoreplay_media_api.Result.{Error, Result, ok, err, internal}
use scoreplay_media_api.Domain.{Uuid, legacy_tenant_id}
use scoreplay_media_api.Config.{Config}

pub data Event : Type 0 where
  database_opened database_migrated storage_ready cleanup_started loops_started : Event
  queue_ready worker_started : Event
  tenant_ensured server_started server_drained background_cancelled worker_awaited : Event
  database_closed : Event

-- How the server ends: by a signal, because it was closed, or with another error.
pub data Ending : Type 0 where
  by_signal closed crashed : Ending

pub record World : Type 0 where
  pub open_fails : Bool
  pub ping_fails : Bool
  pub migrate_fails : Bool
  pub storage_fails : Bool
  pub ensure_fails : Bool
  pub ending : Ending
  pub drain_fails : Bool

pub data Backend : Type 0 where
  postgres sqs : Backend

unfoldable pub new_job_queue : Config → Result Backend
new_job_queue cfg =
    if text_eq cfg.job_queue_backend (codes "sqs")
    then if is_empty cfg.sqs_queue_url then err internal else ok sqs
    else if text_eq cfg.job_queue_backend (codes "postgres") || is_empty cfg.job_queue_backend
    then ok postgres
    else err internal

unfoldable pub starts_worker : Config → Bool
starts_worker cfg = text_eq cfg.job_queue_backend (codes "postgres") && cfg.job_worker_enabled

-- Without an API key every request without a credential is the legacy tenant's.
unfoldable pub dev_tenant_id : Config → Option Uuid
dev_tenant_id cfg = if is_empty cfg.api_key then some legacy_tenant_id else none

unfoldable pub serves_tls : Config → Bool
serves_tls cfg = not (is_empty cfg.tls_cert_file) && not (is_empty cfg.tls_key_file)

-- The result, and what was done.
abbrev pub Run : Type 0
Run = Bool × List Event

-- `if err != nil { return err }`, and what is done otherwise.
abbrev pub step : Bool → Event → Run → Run
step fails e rest = if fails then (false, []) else (rest.0, e ∷ rest.1)

abbrev pub does : Event → Run → Run
does e rest = (rest.0, e ∷ rest.1)

abbrev pub does_if : Bool → Event → Run → Run
does_if b e rest = if b then does e rest else rest

-- `defer`
abbrev pub deferred : Event → Run → Run
deferred e m = (m.0, m.1 ++ e ∷ [])

abbrev pub is_crash : Ending → Bool
is_crash crashed = true
is_crash _ = false

abbrev pub returned : Run
returned = (true, [])

-- Steps 6 to 8: the server, its end, and the shutdown. The wait for the worker may time out.
unfoldable pub serve : World → Config → Run
serve w cfg = does server_started (
    if is_crash w.ending
    then (false, [])
    else step w.drain_fails server_drained
        (does background_cancelled (does worker_awaited returned)))

-- newJobQueue's own effects: the loops that only the queue in the database has, and their error.
abbrev pub queued : Result Backend → Run → Run
queued (err e) rest = (false, [])
queued (ok postgres) rest = does loops_started (does queue_ready rest)
queued (ok sqs) rest = does queue_ready rest

-- Step 5: what runs in the background, first the clean-up of idempotency keys, then the tenants.
unfoldable pub wire : World → Config → Run
wire w cfg = does cleanup_started (
    queued (new_job_queue cfg) (
      does_if (starts_worker cfg) worker_started
        (step w.ensure_fails tenant_ensured (serve w cfg))))

unfoldable pub run : World → Config → Run
run w cfg = step w.open_fails database_opened (
    deferred database_closed (
      if w.ping_fails
      then (false, [])
      else step w.migrate_fails database_migrated
          (step w.storage_fails storage_ready (deferred background_cancelled (wire w cfg)))))
