-- ===== src/Handler/Health.antt =====
-- internal/adapter/http/handler/health_handler.go: HealthHandler. Whether the ping of the database fails
-- within its two seconds is a parameter.
use scoreplay_media_api.Prelude.{codes, if◌then◌else◌}
use scoreplay_media_api.Http.{HttpRequest, Response}
use scoreplay_media_api.Dto.{status_data, status_details_data}
use scoreplay_media_api.Handler.{Host, write_json}

module _ (host : Host) where
  unfoldable pub liveness : HttpRequest → Response
  liveness r = write_json host 200 (status_data (codes "ok"))

  unfoldable pub readiness : HttpRequest → Response
  readiness r =
      if host.ping_fails r
      then write_json host 503 (status_details_data (codes "error") (codes "database unreachable"))
      else write_json host 200 (status_data (codes "ok"))
