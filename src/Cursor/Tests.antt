-- ===== src/Cursor/Tests.antt =====
-- A codec of two bytes.
use scoreplay_media_api.Prelude.{◌≡◌, refl, ℕ, [], ◌∷◌, Option, none, some, Text}
use scoreplay_media_api.Result.{ok}
use scoreplay_media_api.Cursor.{Codec, encode_cursor, decode_cursor}

abbrev drop_mark : Text → Option Text
drop_mark [] = none
drop_mark (c ∷ s) = some s

abbrev first_of : Text → Option ℕ
first_of [] = none
first_of (c ∷ s) = some c

abbrev marks : Codec ℕ
marks = record {
  base64_encode = λ b. b'!' ∷ b;
  base64_decode = drop_mark;
  marshal = λ k. k ∷ [];
  unmarshal = first_of;
}

decodes_back : decode_cursor marks (encode_cursor marks (some 7)) ≡ ok (some 7)
unfolding decode_cursor encode_cursor
decodes_back = refl
