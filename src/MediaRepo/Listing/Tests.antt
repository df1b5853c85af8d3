-- ===== src/MediaRepo/Listing/Tests.antt =====
-- The filter and the walk over pages on small tables.
use scoreplay_media_api.Prelude.{
  ◌≡◌, ◌↔◌, [], ◌∷◌, none, codes, All, map, any, filter, inl, inr, arith, true, List,
}
use scoreplay_media_api.Domain.{image}
use scoreplay_media_api.Database.{MediaRow, LinkRow}
use scoreplay_media_api.Paging.{insert_by, sort_by}
use scoreplay_media_api.Paging.Client.{Shows, walk}
use scoreplay_media_api.TagRepo.{tag_key, tag_before, scan_tag}
use scoreplay_media_api.MediaRepo.Listing.{
  MediaFilter, media_key, media_before, matches, matches_ids,
}
use scoreplay_media_api.MediaRepo.Listing.Matching.{links_to, matches_ids_iff}
use scoreplay_media_api.MediaRepo.Listing.Pages.{
  IsListing, Newer, Named, tags_asked, media_asked, untagged, untagged_row, is_listed, is_own,
  media_pages_complete, tag_pages_complete,
}
use scoreplay_media_api.Fixtures.{
  env_at, tenant_ctx, tenant_ctx_id, lex_before, lex_before-IsOrder, shared_db, shared_db-IsValid,
}

abbrev picture : MediaRow
picture = record {
  id = 21;
  tenant_id = 2;
  name = codes "m";
  media_type = image;
  file_path = codes "2/p.png";
  original_name = codes "p.png";
  file_size = 5;
  created_at = 1;
}

abbrev two_links : List LinkRow
two_links =
    record { tenant_id = 2; media_id = 21; tag_id = 11 }
    ∷ record { tenant_id = 2; media_id = 21; tag_id = 12 }
    ∷ []

matches_ids_iff_example :
    (matches_ids (11 ∷ 12 ∷ []) two_links picture ≡ true)
    ↔ All (λ i. any (links_to 21 i) two_links ≡ true) (11 ∷ 12 ∷ [])
matches_ids_iff_example =
    matches_ids_iff (11 ∷ 12 ∷ []) two_links picture
      (λ m. elim m [ inl e ↦ omega (arith, e) | inr n ↦ n ], (λ m. m, tt))

abbrev no_filter : MediaFilter
no_filter = record { tag_ids = []; tag_names = [] }

media_pages_complete_example :
    Shows 1 untagged
      (map untagged_row
        (sort_by media_key media_before (filter (is_listed 2 shared_db no_filter) shared_db.media)))
      (walk
        (media_asked (env_at 5) (tenant_ctx 2) 2 1 shared_db (tenant_ctx_id 2) no_filter)
        3
        none)
    × IsListing Newer
        (filter (is_listed 2 shared_db no_filter) shared_db.media)
        (sort_by media_key media_before (filter (is_listed 2 shared_db no_filter) shared_db.media))
unfolding matches filter sort_by insert_by
media_pages_complete_example =
    media_pages_complete (env_at 5) (tenant_ctx 2) 2 1 shared_db (tenant_ctx_id 2) no_filter 3
      shared_db-IsValid (omega arith) (omega arith)

tag_pages_complete_example :
    Shows 1
      (λ t. t)
      (map scan_tag (sort_by tag_key (tag_before lex_before) (filter (is_own 2) shared_db.tags)))
      (walk (tags_asked (env_at 5) (tenant_ctx 2) 2 1 shared_db (tenant_ctx_id 2)) 2 none)
    × IsListing
        (Named lex_before)
        (filter (is_own 2) shared_db.tags)
        (sort_by tag_key (tag_before lex_before) (filter (is_own 2) shared_db.tags))
unfolding filter sort_by insert_by
tag_pages_complete_example =
    tag_pages_complete (env_at 5) (tenant_ctx 2) 2 1 shared_db (tenant_ctx_id 2) 2
      lex_before-IsOrder shared_db-IsValid (omega arith) (omega arith)
