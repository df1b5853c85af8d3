-- ===== src/Middleware/Panics.antt =====
-- internal/adapter/http/middleware/recovery.go and logger.go: what a client gets from a handler that
-- panics, and the status that is logged.
use scoreplay_media_api.Prelude.{ℕ, zero, suc, ◌≡◌, ◌≢◌, refl, true, List, [], ◌∷◌, ◌++◌, arith}
use scoreplay_media_api.Http.{HttpRequest, Response}
use scoreplay_media_api.Middleware.{
  Outcome, returned, panicked, RawHandler, panic_body, http_error_on, recovered, recovery,
  new_status_writer, Write, write_header, write_body, written, logged_status, sent_status,
}

-- The status and body of a response to a handler's outcome.
pub data IsAnswer : Outcome → Response → Type 0 where
  as_returned : (w : Response) → IsAnswer (returned w) w
  -- Nothing was sent yet.
  as_500 :
      (w v : Response)
      → w.status ≡ 0
      → v.status ≡ 500
      → v.body ≡ w.body ++ panic_body
      → IsAnswer (panicked w) v
  -- It is too late for a status.
  as_cut :
      (w v : Response)
      → w.status ≢ 0
      → v.status ≡ w.status
      → v.headers ≡ w.headers
      → IsAnswer (panicked w) v

http_error-IsAnswer :
    (w : Response) (n : ℕ) → w.status ≡ n → IsAnswer (panicked w) (http_error_on n w)
http_error-IsAnswer w zero e = as_500 w _ e refl refl
http_error-IsAnswer w (suc n) e = as_cut w _ (λ z. ground arith) refl refl

recovered-IsAnswer : (o : Outcome) → IsAnswer o (recovered o)
unfolding recovered
recovered-IsAnswer (returned w) = as_returned w
recovered-IsAnswer (panicked w) = http_error-IsAnswer w w.status refl

-- A handler that returns has its response sent as it is. One that panics before it wrote the headers
-- is answered 500 with the fixed body after what it wrote; if it panics later, the status and the
-- headers are those that were sent. The state is the one that the handler left.
pub recovery-IsAnswer :
    {S : Type 0} (next : RawHandler S) (r : HttpRequest) (s : S)
    → IsAnswer (next r s).0 (recovery next r s).0 × ((recovery next r s).1 ≡ (next r s).1)
unfolding recovery
recovery-IsAnswer next r s = (recovered-IsAnswer (next r s).0, refl)

logged_once :
    (n : ℕ) (cs : List Write) → logged_status (record { status = n; wrote_header = true }) cs ≡ n
unfolding logged_status written
logged_once n [] = refl
logged_once n (write_header code ∷ cs) = logged_once n cs
logged_once n (write_body b ∷ cs) = logged_once n cs

-- Whatever a handler calls on its writer, the status that the log and the metrics name is the one that
-- net/http sends.
pub logged_status-sent_status :
    (cs : List Write) → logged_status new_status_writer cs ≡ sent_status cs
unfolding logged_status written sent_status
logged_status-sent_status [] = refl
logged_status-sent_status (write_header code ∷ cs) = logged_once _ cs
logged_status-sent_status (write_body b ∷ cs) = logged_once _ cs
