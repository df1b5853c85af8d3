-- ===== src/Config/Tests.antt =====
-- Runs of the configuration.
use scoreplay_media_api.Prelude.{
  ◌≡◌, refl, true, false, List, [], ◌∷◌, Text, codes, text_eq, any, All, filter,
}
use scoreplay_media_api.Atoi.{pos, negsuc, atoi, magnitude, read_digits}
use scoreplay_media_api.Name.{is_space, trim_left, trim_right}
use scoreplay_media_api.Config.{
  parse_cors_origins, get_env_int, get_env_bool, times, seconds, split_commas,
}
use scoreplay_media_api.Config.Origins.{join, IsOrigin, parse_cors_origins-join}

abbrev two_origins : List Text
two_origins = codes "https://a.b" ∷ codes "https://c.d" ∷ []

two_origins-IsOrigin : All IsOrigin two_origins
unfolding any trim_left trim_right is_space
two_origins-IsOrigin = (
  record { no_comma = refl; trimmed = refl; visible = refl },
  (record { no_comma = refl; trimmed = refl; visible = refl }, tt),
)

parse_cors_origins-join_example : parse_cors_origins (join two_origins) ≡ two_origins
parse_cors_origins-join_example = parse_cors_origins-join two_origins two_origins-IsOrigin

-- White space and empty parts are dropped.
spaced_origins : parse_cors_origins (codes " https://a.b ,, https://c.d") ≡ two_origins
unfolding parse_cors_origins split_commas trim_left trim_right is_space filter
spaced_origins = refl

abbrev env_of : Text → Text → Text
env_of value key = value

bad_number : get_env_int (env_of (codes "12x")) (codes "KEY") (pos 7) ≡ pos 7
unfolding get_env_int atoi magnitude read_digits
bad_number = refl

signed_number : get_env_int (env_of (codes "-12")) (codes "KEY") (pos 7) ≡ negsuc 11
unfolding get_env_int atoi magnitude read_digits
signed_number = refl

worded : get_env_bool (env_of (codes "YES")) (codes "KEY") false ≡ true
unfolding get_env_bool any text_eq
worded = refl

-- A duration of more than 292 years wraps around to a negative one.
wrapped : seconds (pos 10_000_000_000) ≡ negsuc 8_446_744_073_709_551_615
unfolding times
wrapped = refl
