-- ===== src/Name.antt =====
-- internal/service/sanitize.go: the checks and rewrites that a tag or media name goes through.
-- NFC normalisation is golang.org/x/text, which is not part of the repository: a parameter `nfc`.
pub mod Clean
pub mod Spacing
pub mod Fixed
mod Tests
use scoreplay_media_api.Prelude.{
  ℕ, zero, suc, ◌+◌, Bool, true, false, not, ◌&&◌, ◌||◌, List, [], ◌∷◌, ◌++◌, map, Text, ltb, leb,
  ◌==◌, if◌then◌else◌, any, all, is_empty,
}
use scoreplay_media_api.Result.{Result, ok, err, err_validation, ◌>>=◌, ◌>>◌, refuse_if}

abbrev between : ℕ → ℕ → ℕ → Bool
between lo hi r = leb lo r && leb r hi

-- unicode.IsControl: the category Cc.
unfoldable pub is_control : ℕ → Bool
is_control r = ltb r 0x20 || between 0x7f 0x9f r

unfoldable pub is_unsafe_rune : ℕ → Bool
unfolding is_control
is_unsafe_rune r =
    is_control r && not (r == 0x09) && not (r == 0x0a) && not (r == 0x0d)
    || between 0x200b 0x200f r
    || r == 0xfeff
    || between 0x202a 0x202e r
    || between 0x2066 0x2069 r
    || between 0xfff9 0xfffb r
    || r == 0xfffd
    || between 0xe0001 0xe007f r

-- The class of the regular expression `unicodeWhitespace`.
unfoldable pub is_unicode_whitespace : ℕ → Bool
is_unicode_whitespace r =
    r == 0xa0
    || between 0x2000 0x200a r
    || r == 0x2028
    || r == 0x2029
    || r == 0x202f
    || r == 0x205f
    || r == 0x3000

-- The class `\s` of Go's regular expressions, which has no vertical tab.
unfoldable pub is_regexp_space : ℕ → Bool
is_regexp_space r = r == 0x09 || r == 0x0a || r == 0x0c || r == 0x0d || r == 0x20

-- unicode.IsSpace, which strings.TrimSpace tests.
unfoldable pub is_space : ℕ → Bool
is_space r =
    between 0x09 0x0d r
    || r == 0x20
    || r == 0x85
    || r == 0xa0
    || r == 0x1680
    || between 0x2000 0x200a r
    || r == 0x2028
    || r == 0x2029
    || r == 0x202f
    || r == 0x205f
    || r == 0x3000

-- utf8.ValidString: every unit is a scalar value, and none a stray byte.
abbrev pub is_scalar : ℕ → Bool
is_scalar r = ltb r 0xd800 || leb 0xe000 r && ltb r 0x110000

abbrev pub valid_utf8 : Text → Bool
valid_utf8 = all is_scalar

-- `len(s)`: a string's size in bytes of UTF-8.
unfoldable pub rune_len : ℕ → ℕ
rune_len r =
    if ltb r 0x80
    then 1
    else if ltb r 0x800
    then 2
    else if ltb r 0x10000
    then 3
    else if ltb r 0x110000
    then 4
    else 1

unfoldable pub byte_len : Text → ℕ
unfolding rune_len
byte_len [] = 0
byte_len (r ∷ s) = rune_len r + byte_len s

-- unicodeWhitespace.ReplaceAllString(s, " ")
unfoldable pub plain_space : ℕ → ℕ
plain_space r = if is_unicode_whitespace r then 0x20 else r

-- strings.NewReplacer("\t", " ", "\n", " ", "\r", " ")
unfoldable pub plain_break : ℕ → ℕ
plain_break r = if r == 0x09 || r == 0x0a || r == 0x0d then 0x20 else r

-- How many white space runes of a run were read, and the rune if there was one.
pub data Run : Type 0 where
  outside : Run
  one : ℕ → Run
  many : Run

abbrev pub grow : Run → ℕ → Run
grow outside r = one r
grow (one _) _ = many
grow many _ = many

abbrev pub flush : Run → Text
flush outside = []
flush (one r) = r ∷ []
flush many = 0x20 ∷ []

-- multipleSpaces.ReplaceAllString(s, " "), from within a run.
unfoldable pub collapse_from : Run → Text → Text
collapse_from run [] = flush run
collapse_from run (r ∷ s) =
    let rest = collapse_from (if is_regexp_space r then grow run r else outside) s in
    if is_regexp_space r then rest else flush run ++ (r ∷ rest)

unfoldable pub trim_left : Text → Text
trim_left [] = []
trim_left (r ∷ s) = if is_space r then trim_left s else r ∷ s

unfoldable pub trim_right : Text → Text
trim_right [] = []
trim_right (r ∷ s) = let rest = trim_right s in if is_empty rest && is_space r then [] else r ∷ rest

-- strings.TrimSpace
abbrev pub trim_space : Text → Text
trim_space s = trim_right (trim_left s)

abbrev pub max_tag_name_length : ℕ
max_tag_name_length = 255

-- Steps 3 to 6 of SanitizeName.
unfoldable pub normalize_space : Text → Text
normalize_space s = trim_space (collapse_from outside (map plain_break (map plain_space s)))

-- Steps 7 to 9 of SanitizeName.
unfoldable pub check_name : Text → Result Text
check_name s = do
  refuse_if (any is_unsafe_rune s) err_validation
  refuse_if (is_empty s) err_validation
  refuse_if (ltb max_tag_name_length (byte_len s)) err_validation
  ok s

unfoldable pub sanitize_name : (Text → Text) → Text → Result Text
sanitize_name nfc s = do
  refuse_if (not (valid_utf8 s)) err_validation
  check_name (normalize_space (nfc s))
