-- ===== src/Handler/Tests.antt =====
-- Queries for filters.
use scoreplay_media_api.Prelude.{◌≡◌, ◌↔◌, inr, [], ◌∷◌, codes}
use scoreplay_media_api.MediaRepo.Listing.{MediaFilter}
use scoreplay_media_api.Http.{HttpRequest}
use scoreplay_media_api.Handler.Media.{parse_media_filter}
use scoreplay_media_api.Handler.Filter.{IsAsked, parse_media_filter_iff}
use scoreplay_media_api.HostFixtures.{plain_host, post_tag}

abbrev filtered : HttpRequest
filtered = record post_tag {
  query =
      (codes "tag_id", codes "a")
      ∷ (codes "tag_id", [])
      ∷ (codes "tag_id", codes "b")
      ∷ (codes "tag_name", [])
      ∷ [];
}

abbrev two_ids : MediaFilter
two_ids = record { tag_ids = b'a' ∷ b'b' ∷ []; tag_names = [] }

parse_media_filter_iff_example :
    (parse_media_filter plain_host filtered ≡ inr two_ids) ↔ IsAsked plain_host filtered two_ids
parse_media_filter_iff_example = parse_media_filter_iff plain_host filtered two_ids
