-- ===== src/Program/Tests.antt =====
-- A run of the program in an empty environment that ends by a signal.
use scoreplay_media_api.Prelude.{◌≡◌, refl, true, false, [], ◌∷◌, Text, text_eq}
use scoreplay_media_api.Config.{Config, load, get_env, get_env_bool}
use scoreplay_media_api.Program.{
  World, by_signal, new_job_queue, starts_worker, serve, wire, run, database_opened,
  database_migrated, storage_ready, cleanup_started, queue_ready, loops_started, worker_started,
  tenant_ensured, server_started, server_drained, background_cancelled, worker_awaited,
  database_closed,
}
use scoreplay_media_api.Program.Lifecycle.{IsOrderly, run-IsOrderly}

abbrev unset : Text → Text
unset key = []

abbrev defaults : Config
defaults = load unset

abbrev fine : World
fine = record {
  open_fails = false;
  ping_fails = false;
  migrate_fails = false;
  storage_fails = false;
  ensure_fails = false;
  ending = by_signal;
  drain_fails = false;
}

run-IsOrderly_example : IsOrderly (run fine defaults).0 (run fine defaults).1
run-IsOrderly_example = run-IsOrderly fine defaults

full_run : run fine defaults ≡ (
  true,
  database_opened ∷ database_migrated ∷ storage_ready ∷ cleanup_started ∷ loops_started
      ∷ queue_ready ∷ worker_started ∷ tenant_ensured ∷ server_started ∷ server_drained
      ∷ background_cancelled ∷ worker_awaited ∷ background_cancelled ∷ database_closed ∷ [],
)
unfolding run wire serve new_job_queue starts_worker load get_env get_env_bool text_eq
full_run = refl
