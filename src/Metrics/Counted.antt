-- ===== src/Metrics/Counted.antt =====
-- internal/adapter/http/middleware/metrics.go: what is counted of a sequence of requests.
use scoreplay_media_api.Prelude.{
  ℕ, ◌+◌, ◌≡◌, refl, ◌∙◌, Bool, true, false, List, [], ◌∷◌, length, arith, if◌then◌else◌, Text,
}
use scoreplay_media_api.Http.{HttpRequest}
use scoreplay_media_api.Middleware.{Outcome, returned, panicked, RawHandler}
use scoreplay_media_api.Metrics.{Metrics, entered, left, metrics_handler}

abbrev pub has_returned : Outcome → Bool
has_returned (returned w) = true
has_returned (panicked w) = false

module _ (route_pattern : HttpRequest → Text) where
  left-counts :
      (r : HttpRequest) (m : Metrics) (o : Outcome)
      → ((left route_pattern r (entered m) o).in_flight ≡ m.in_flight)
        × (length (left route_pattern r (entered m) o).requests
            ≡ length m.requests + (if has_returned o then 1 else 0))
  left-counts r m (returned w) = (omega arith, omega arith)
  left-counts r m (panicked w) = (omega arith, omega arith)

module _ {S : Type 0} (next : RawHandler S) where
  -- The requests of the sequence that return.
  unfoldable pub returning : List HttpRequest → S → ℕ
  returning [] s = 0
  returning (r ∷ rs) s =
      let (o, s') = next r s in
      let rest = returning rs s' in if has_returned o then rest + 1 else rest

  module _ (route_pattern : HttpRequest → Text) where
    -- One request after another.
    unfoldable pub served : List HttpRequest → Metrics × S → Metrics × S
    served [] s = s
    served (r ∷ rs) s = served rs (metrics_handler route_pattern next r s).1

    -- After any sequence of requests the gauge of those in flight is where it was, and as many samples
    -- were added as requests returned: a request whose handler panics is not counted.
    pub served-counts :
        (rs : List HttpRequest) (m : Metrics) (s : S)
        → ((served rs (m, s)).0.in_flight ≡ m.in_flight)
          × (length (served rs (m, s)).0.requests ≡ length m.requests + returning rs s)
    unfolding served metrics_handler returning
    served-counts [] m s = (refl, omega arith)
    served-counts (r ∷ rs) m s =
        let (o, s') = next r s in
        let (a, b) = left-counts route_pattern r m o in
        let (c, d) = served-counts rs (left route_pattern r (entered m) o) s' in
        (c ∙ a, ground arith)
