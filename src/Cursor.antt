-- ===== src/Cursor.antt =====
-- internal/service/cursor.go. Base64 and JSON, of the standard library, are a parameter.
mod Tests
use scoreplay_media_api.Prelude.{
  ◌≡◌, ◌≢◌, refl, ap, ◌∙◌, Bool, true, false, List, [], ◌∷◌, Option, none, some, Text, is_empty,
  if◌then◌else◌,
}
use scoreplay_media_api.Result.{Result, ok, err, err_validation}

-- base64.RawURLEncoding and the JSON of a cursor's payload.
pub record Codec (K : Type 0) : Type 0 where
  pub base64_encode : Text → Text
  pub base64_decode : Text → Option Text
  pub marshal : K → Text
  pub unmarshal : Text → Option K

-- What the standard library documents: decoding undoes encoding, and a payload is not empty.
pub record IsCodec {K : Type 0} (c : Codec K) : Type 0 where
  pub base64 : (b : Text) → c.base64_decode (c.base64_encode b) ≡ some b
  pub json : (k : K) → c.unmarshal (c.marshal k) ≡ some k
  pub visible : (k : K) → is_empty (c.base64_encode (c.marshal k)) ≡ false

module _ {K : Type 0} (c : Codec K) where
  -- EncodeTagCursor and EncodeMediaCursor.
  unfoldable pub encode_cursor : Option K → Text
  encode_cursor none = []
  encode_cursor (some k) = c.base64_encode (c.marshal k)

  abbrev pub payload : Option K → Result (Option K)
  payload none = err err_validation
  payload (some k) = ok (some k)

  abbrev pub decoded : Option Text → Result (Option K)
  decoded none = err err_validation
  decoded (some b) = payload (c.unmarshal b)

  -- DecodeTagCursor and DecodeMediaCursor.
  unfoldable pub decode_cursor : Text → Result (Option K)
  decode_cursor s = if is_empty s then ok none else decoded (c.base64_decode s)

  -- A cursor that was encoded decodes to itself, also the missing one, for a codec that decodes what
  -- it encoded.
  pub decode_cursor-encode_cursor :
      (k : Option K) → IsCodec c → decode_cursor (encode_cursor k) ≡ ok k
  unfolding decode_cursor encode_cursor
  decode_cursor-encode_cursor none h = refl
  decode_cursor-encode_cursor (some k) h = rw (h.visible k, h.base64 (c.marshal k), h.json k) refl
