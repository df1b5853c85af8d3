-- ===== src/Middleware/Tests.antt =====
-- Runs of the middlewares.
use scoreplay_media_api.Prelude.{refl, Bool, false, [], ◌∷◌, codes, any}
use scoreplay_media_api.Http.{HttpRequest, Handler}
use scoreplay_media_api.Middleware.{cors}
use scoreplay_media_api.Middleware.Cors.{Guarded, cors-Guarded}
use scoreplay_media_api.HostFixtures.{post_tag}

abbrev answers : Handler Bool
answers r s = (record { status = 200; headers = []; body = [] }, s)

abbrev from_origin : HttpRequest
from_origin = record post_tag { headers = (codes "Origin", codes "https://a.b") ∷ [] }

cors-Guarded_example :
    Guarded
      (codes "https://a.b/" ∷ [])
      answers
      from_origin
      false
      (cors (codes "https://a.b/" ∷ []) answers from_origin false)
unfolding any
cors-Guarded_example = cors-Guarded (codes "https://a.b/" ∷ []) answers from_origin false refl
