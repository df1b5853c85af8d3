-- ===== src/Upload/Tests.antt =====
-- Runs of the upload helpers.
use scoreplay_media_api.Prelude.{◌≡◌, ◌↔◌, refl, codes, any, text_eq, has_prefix, [], ◌∷◌}
use scoreplay_media_api.Result.{ok}
use scoreplay_media_api.Domain.{image, video}
use scoreplay_media_api.Upload.{
  dedupe_from, deduplicate_uuids, classify_content_type, to_lower_rune, file_ext, slashes,
  strip_slashes, after_last_slash, file_base, sanitize_filename,
}
use scoreplay_media_api.Upload.Dedupe.{IsDeduped, deduplicate_uuids-IsDeduped}
use scoreplay_media_api.Upload.Classify.{Accepts, classify_content_type_iff}
use scoreplay_media_api.Upload.Filename.{IsBaseName, sanitize_filename-IsBaseName}

dedupe_run : deduplicate_uuids (3 ∷ 1 ∷ 3 ∷ 2 ∷ 1 ∷ []) ≡ 3 ∷ 1 ∷ 2 ∷ []
unfolding deduplicate_uuids dedupe_from any
dedupe_run = refl

classify_png : classify_content_type (codes "image/png") (codes "x.exe") ≡ ok (image, codes ".png")
unfolding classify_content_type text_eq has_prefix
classify_png = refl

classify_mov :
    classify_content_type (codes "application/octet-stream") (codes "a/b.tar.MOV")
    ≡ ok (video, codes ".mov")
unfolding classify_content_type to_lower_rune file_ext text_eq has_prefix any
classify_mov = refl

base_runs :
    (sanitize_filename (codes "..\\..//etc/passwd") ≡ codes "passwd")
    × (sanitize_filename (codes "a/b//") ≡ codes "b")
    × (sanitize_filename (codes "//") ≡ codes "/")
    × (sanitize_filename (codes "") ≡ codes ".")
unfolding sanitize_filename file_base slashes strip_slashes after_last_slash any
base_runs = (refl, refl, refl, refl)

deduplicate_uuids-IsDeduped_example :
    IsDeduped (3 ∷ 1 ∷ 3 ∷ []) (deduplicate_uuids (3 ∷ 1 ∷ 3 ∷ []))
deduplicate_uuids-IsDeduped_example = deduplicate_uuids-IsDeduped (3 ∷ 1 ∷ 3 ∷ [])

classify_content_type_iff_example :
    (classify_content_type (codes "image/png") (codes "x.exe") ≡ ok (image, codes ".png"))
    ↔ Accepts (codes "image/png") (codes "x.exe") image (codes ".png")
classify_content_type_iff_example =
    classify_content_type_iff (codes "image/png") (codes "x.exe") image (codes ".png")

sanitize_filename-IsBaseName_example : IsBaseName (sanitize_filename (codes "..\\..//etc/passwd"))
sanitize_filename-IsBaseName_example = sanitize_filename-IsBaseName (codes "..\\..//etc/passwd")
