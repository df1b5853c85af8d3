-- ===== src/Metrics.antt =====
-- internal/adapter/http/middleware/metrics.go: Handler. The route pattern of chi is a parameter, and the
-- durations are left out. A deferred call runs when a panic passes, and what follows the handler does
-- not.
pub mod Counted
use scoreplay_media_api.Prelude.{
  ℕ, zero, suc, ◌+◌, ◌-◌, List, [], ◌∷◌, Text, codes, is_empty, if◌then◌else◌,
}
use scoreplay_media_api.Http.{HttpRequest, Response}
use scoreplay_media_api.Middleware.{Outcome, returned, panicked, RawHandler}

-- The labels of a request that was counted.
pub record Sample : Type 0 where
  pub method : Text
  pub route : Text
  pub status : ℕ

pub record Metrics : Type 0 where
  pub in_flight : ℕ
  pub requests : List Sample

-- The status of a statusWriter: 200 if no other was written.
abbrev pub status_of : ℕ → ℕ
status_of zero = 200
status_of (suc n) = suc n

abbrev pub entered : Metrics → Metrics
entered m = record m { in_flight = m.in_flight + 1 }

module _ (route_pattern : HttpRequest → Text) where
  abbrev pub route_label : HttpRequest → Text
  route_label r = let route = route_pattern r in if is_empty route then codes "unknown" else route

  abbrev pub sample_of : HttpRequest → Response → Sample
  sample_of r w = record { method = r.method; route = route_label r; status = status_of w.status }

  abbrev pub left : HttpRequest → Metrics → Outcome → Metrics
  left r m (returned w) = record {
    in_flight = m.in_flight - 1;
    requests = sample_of r w ∷ m.requests;
  }
  left r m (panicked w) = record m { in_flight = m.in_flight - 1 }

  -- The gauge is a state of the middleware, beside that of the handler.
  unfoldable pub metrics_handler : {S : Type 0} → RawHandler S → RawHandler (Metrics × S)
  metrics_handler next r (m, s) = let (o, s') = next r s in (o, (left r (entered m) o, s'))
