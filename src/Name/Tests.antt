-- ===== src/Name/Tests.antt =====
-- Runs of SanitizeName.
use scoreplay_media_api.Prelude.{◌≡◌, refl, codes, any, all, Text}
use scoreplay_media_api.Result.{ok}
use scoreplay_media_api.Name.{
  sanitize_name, normalize_space, check_name, is_unsafe_rune, is_unicode_whitespace,
  is_regexp_space, is_space, byte_len, plain_space, plain_break, collapse_from, trim_left,
  trim_right,
}
use scoreplay_media_api.Name.Clean.{IsName, sanitize_name-IsName}
use scoreplay_media_api.Name.Fixed.{sanitize_name_idem}

abbrev same : Text → Text
same s = s

sanitize_run : sanitize_name same (codes "  Ligue \t\n 1 ") ≡ ok (codes "Ligue 1")
unfolding sanitize_name normalize_space check_name is_unsafe_rune is_unicode_whitespace
    is_regexp_space is_space byte_len plain_space plain_break collapse_from trim_left trim_right any
    all
sanitize_run = refl

sanitize_name-IsName_example : IsName (codes "Ligue 1")
sanitize_name-IsName_example =
    sanitize_name-IsName same (codes "  Ligue \t\n 1 ") (codes "Ligue 1") sanitize_run

sanitize_name_idem_example : sanitize_name same (codes "Ligue 1") ≡ ok (codes "Ligue 1")
sanitize_name_idem_example =
    sanitize_name_idem same (codes "  Ligue \t\n 1 ") (codes "Ligue 1") (λ u h. h) refl sanitize_run
