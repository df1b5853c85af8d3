-- ===== src/Program/Lifecycle.antt =====
-- cmd/api/main.go: the order of start-up and shutdown.
use scoreplay_media_api.Prelude.{
  ℕ, ◌≡◌, Bool, true, false, List, [], ◌∷◌, ◌==◌, if◌then◌else◌, arith,
}
use scoreplay_media_api.Config.{Config}
use scoreplay_media_api.Program.{
  Event, database_opened, database_migrated, storage_ready, cleanup_started, queue_ready,
  loops_started, worker_started, tenant_ensured, server_started, server_drained,
  background_cancelled, worker_awaited, database_closed, World, serve, wire, run,
}

abbrev number : Event → ℕ
number database_opened = 0
number database_migrated = 1
number storage_ready = 2
number cleanup_started = 3
number loops_started = 4
number queue_ready = 5
number worker_started = 6
number tenant_ensured = 7
number server_started = 8
number server_drained = 9
number background_cancelled = 10
number worker_awaited = 11
number database_closed = 12

unfoldable pub happens : Event → List Event → Bool
happens a [] = false
happens a (e ∷ es) = let later = happens a es in if number e == number a then true else later

-- Whether the first event, if the second ever happens, happens before it.
unfoldable pub precedes : Event → Event → List Event → Bool
precedes a b [] = true
precedes a b (e ∷ es) =
    let later = precedes a b es in
    if number e == number a then true else if number e == number b then false else later

-- Whether the events all happen, in the order of the first list.
unfoldable pub in_order : List Event → List Event → Bool
in_order [] es = true
in_order (a ∷ rest) [] = false
in_order (a ∷ rest) (e ∷ es) =
    let found = in_order rest es in
    let later = in_order (a ∷ rest) es in if number e == number a then found else later

-- Whether the event happens exactly once, and nothing happens after it.
unfoldable pub is_last : Event → List Event → Bool
is_last a [] = false
is_last a (e ∷ []) = number e == number a
is_last a (e ∷ (f ∷ es)) =
    let later = is_last a (f ∷ es) in if number e == number a then false else later

pub record IsOrderly (succeeds : Bool) (es : List Event) : Type 0 where
  pub ready :
      happens server_started es ≡ true
      → in_order
          (database_opened ∷ database_migrated ∷ storage_ready ∷ cleanup_started ∷ queue_ready
            ∷ tenant_ensured ∷ server_started ∷ [])
          es
        ≡ true
  pub queued : precedes queue_ready worker_started es ≡ true
  pub released :
      happens cleanup_started es ≡ true
      → in_order (cleanup_started ∷ background_cancelled ∷ database_closed ∷ []) es ≡ true
  pub drained :
      succeeds ≡ true
      → in_order
          (server_started ∷ server_drained ∷ background_cancelled ∷ worker_awaited ∷ database_closed
            ∷ [])
          es
        ≡ true
  pub stopped : succeeds ≡ true → precedes server_drained background_cancelled es ≡ true
  pub closed : happens database_opened es ≡ true → is_last database_closed es ≡ true

module _ (w : World) (cfg : Config) where
  -- Whatever fails, the server listens only when the database was opened and migrated and the storage,
  -- the queue and the tenants are ready, and a worker starts only after the queue. If the background
  -- loops were started, they are cancelled and the database is closed after that. A run that succeeds
  -- has drained the server before the loops are cancelled, then waited for the worker, and then closed
  -- the database. A database that was opened is closed once, as the last thing that is done.
  pub run-IsOrderly : IsOrderly (run w cfg).0 (run w cfg).1
  unfolding run wire serve precedes happens in_order is_last
  run-IsOrderly = record {
    ready = λ h. ground arith;
    queued = ground arith;
    released = λ h. ground arith;
    drained = λ h. ground arith;
    stopped = λ h. ground arith;
    closed = λ h. ground arith;
  }
