-- ===== src/Upload.antt =====
-- internal/service/media_service.go: the pure helpers of MediaService, which sort out what a client
-- sends: duplicate tags, the content type, and the file name.
pub mod Dedupe
pub mod Classify
pub mod Filename
mod Tests
use scoreplay_media_api.Prelude.{
  ℕ, ◌+◌, Bool, true, false, ◌&&◌, ◌||◌, not, List, [], ◌∷◌, ◌++◌, Option, none, some, Text, codes,
  text_eq, is_empty, any, map, ◌==◌, leb, if◌then◌else◌, has_prefix,
}
use scoreplay_media_api.Result.{Result, ok, err, err_unsupported_media_type}
use scoreplay_media_api.Domain.{Uuid, MediaType, image, video}

-- A map of the values seen so far, the `seen` of both loops.
module _ {A : Type 0} (eq : A → A → Bool) where
  abbrev pub is_in : A → List A → Bool
  is_in a = any (eq a)

  -- The loop of deduplicateUUIDs.
  unfoldable pub dedupe_from : List A → List A → List A
  dedupe_from seen [] = []
  dedupe_from seen (id ∷ ids) =
      let rest = dedupe_from (if is_in id seen then seen else id ∷ seen) ids in
      if is_in id seen then rest else id ∷ rest

unfoldable pub deduplicate_uuids : List Uuid → List Uuid
deduplicate_uuids ids = dedupe_from ◌==◌ [] ids

-- A Go map with string keys, as the list of its entries.
abbrev pub lookup {ℓ} : {V : Type ℓ} → Text → List (Text × V) → Option V
lookup k [] = none
lookup k ((j, v) ∷ m) = if text_eq k j then some v else lookup k m

abbrev pub allowed_mime_types : List (Text × Text)
allowed_mime_types =
    (codes "image/jpeg", codes ".jpg")
    ∷ (codes "image/png", codes ".png")
    ∷ (codes "image/gif", codes ".gif")
    ∷ (codes "image/webp", codes ".webp")
    ∷ (codes "video/mp4", codes ".mp4")
    ∷ (codes "video/webm", codes ".webm")
    ∷ []

abbrev pub known_video_extensions : List Text
known_video_extensions =
    codes ".mp4" ∷ codes ".webm" ∷ codes ".mov" ∷ codes ".avi" ∷ codes ".mkv" ∷ []

-- `unicode.ToLower`, as far as its results are ASCII letters: the capital letters, the Kelvin sign
-- and the capital I with a dot. A rune beyond ASCII that becomes another one beyond ASCII is left.
unfoldable pub to_lower_rune : ℕ → ℕ
to_lower_rune r =
    if leb b'A' r && leb r b'Z'
    then r + 32
    else if r == 0x212a
    then b'k'
    else if r == 0x130
    then b'i'
    else r

abbrev pub to_lower : Text → Text
to_lower = map to_lower_rune

-- filepath.Ext: from the last dot of the last element, found by the first pass from the right.
unfoldable pub has_no_dot_or_slash : Text → Bool
has_no_dot_or_slash s = not (any (λ c. c == b'.' || c == b'/') s)

unfoldable pub file_ext : Text → Text
unfolding has_no_dot_or_slash
file_ext [] = []
file_ext (c ∷ s) =
    let rest = file_ext s in if c == b'.' && has_no_dot_or_slash s then c ∷ s else rest

-- The fallback for bytes whose type the sniffer does not know.
unfoldable pub classify_by_name : Text → Text → Result (MediaType × Text)
classify_by_name content_type file_name =
    let ext = to_lower (file_ext file_name) in
    if text_eq content_type (codes "application/octet-stream")
      && is_in text_eq ext known_video_extensions
    then ok (video, ext)
    else err err_unsupported_media_type

unfoldable pub classify_content_type : Text → Text → Result (MediaType × Text)
unfolding classify_by_name
classify_content_type content_type file_name = elim (lookup content_type allowed_mime_types) [
  | some ext ↦ if has_prefix content_type (codes "image/") then ok (image, ext) else ok (video, ext)
  | none ↦ classify_by_name content_type file_name
]

-- strings.ReplaceAll(name, "\\", "/")
unfoldable pub slashes : Text → Text
slashes [] = []
slashes (c ∷ s) = (if c == b'\\' then b'/' else c) ∷ slashes s

-- filepath.Base: trailing slashes are stripped, then all up to the last slash.
unfoldable pub strip_slashes : Text → Text
strip_slashes [] = []
strip_slashes (c ∷ s) =
    let rest = strip_slashes s in if is_empty rest && c == b'/' then [] else c ∷ rest

unfoldable pub after_last_slash : Text → Text
after_last_slash [] = []
after_last_slash (c ∷ s) =
    let rest = after_last_slash s in if any (λ d. d == b'/') (c ∷ s) then rest else c ∷ s

unfoldable pub file_base : Text → Text
file_base path =
    if is_empty path
    then codes "."
    else let name = after_last_slash (strip_slashes path) in
      if is_empty name then codes "/" else name

unfoldable pub sanitize_filename : Text → Text
sanitize_filename name = file_base (slashes name)
