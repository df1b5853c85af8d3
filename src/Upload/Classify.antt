-- ===== src/Upload/Classify.antt =====
-- internal/service/media_service.go: which uploads classifyContentType accepts, and as what.
use scoreplay_media_api.Prelude.{
  ◌≡◌, refl, ap, ◌↔◌, inl, inr, true, false, ◌&&◌, List, [], ◌∷◌, Text, codes, some, In, arith,
  Bool-cases, Option-cases, text_eq, text_eq_refl, any→In, In→any, text_eq→eq, has_prefix,
  if◌then◌else◌,
}
use scoreplay_media_api.Result.{Result, ok}
use scoreplay_media_api.Domain.{MediaType, image, video}
use scoreplay_media_api.Upload.{
  is_in, lookup, allowed_mime_types, known_video_extensions, to_lower, file_ext, classify_by_name,
  classify_content_type,
}

-- The uploads that are accepted: the rows of `allowedMIMETypes`, and bytes of unknown type under a
-- video extension.
pub data Accepts (content_type file_name : Text) : MediaType → Text → Type 0 where
  jpeg : content_type ≡ codes "image/jpeg" → Accepts content_type file_name image (codes ".jpg")
  png : content_type ≡ codes "image/png" → Accepts content_type file_name image (codes ".png")
  gif : content_type ≡ codes "image/gif" → Accepts content_type file_name image (codes ".gif")
  webp : content_type ≡ codes "image/webp" → Accepts content_type file_name image (codes ".webp")
  mp4 : content_type ≡ codes "video/mp4" → Accepts content_type file_name video (codes ".mp4")
  webm : content_type ≡ codes "video/webm" → Accepts content_type file_name video (codes ".webm")
  by_name :
      (ext : Text)
      → content_type ≡ codes "application/octet-stream"
      → to_lower (file_ext file_name) ≡ ext
      → In ext (codes ".mp4" ∷ codes ".webm" ∷ codes ".mov" ∷ codes ".avi" ∷ codes ".mkv" ∷ [])
      → Accepts content_type file_name video ext

lookup→In :
    {V : Type 0} (k : Text) (v : V) (m : List (Text × V)) → lookup k m ≡ some v → In (k, v) m
lookup→In k v [] h = cc
lookup→In k v ((j, w) ∷ m) h = elim (Bool-cases (text_eq k j)) [
  | inl e ↦ inl (cc (text_eq→eq k j e, rw e at h))
  | inr e ↦ inr (lookup→In k v m (rw e at h))
]

abbrev typed : Text → Text → Result (MediaType × Text)
typed content_type ext =
    if has_prefix content_type (codes "image/") then ok (image, ext) else ok (video, ext)

typed_image :
    (c e c' e' ext : Text) (t : MediaType)
    → ◌≡◌ {A = Text × Text} (c, e) (c', e')
    → has_prefix c' (codes "image/") ≡ true
    → typed c e ≡ ok (t, ext)
    → (c ≡ c') × (image ≡ t) × (e' ≡ ext)
typed_image c e c' e' ext t p q h =
    ground (arith, ap (λ (x : Text × Text). has_prefix x.0 (codes "image/")) p)

typed_video :
    (c e c' e' ext : Text) (t : MediaType)
    → ◌≡◌ {A = Text × Text} (c, e) (c', e')
    → has_prefix c' (codes "image/") ≡ false
    → typed c e ≡ ok (t, ext)
    → (c ≡ c') × (video ≡ t) × (e' ≡ ext)
typed_video c e c' e' ext t p q h =
    ground (arith, ap (λ (x : Text × Text). has_prefix x.0 (codes "image/")) p)

module _ (c f : Text) where
  -- move an acceptance along the equations that a row gives
  Accepts-along :
      (t u : MediaType) (e ext : Text) → Accepts c f t e → t ≡ u → e ≡ ext → Accepts c f u ext
  Accepts-along t u e ext a p q = rw (← p, ← q) a

  accept_row :
      (e ext : Text) (t : MediaType)
      → In (c, e) allowed_mime_types
      → typed c e ≡ ok (t, ext)
      → Accepts c f t ext
  unfolding has_prefix
  accept_row e ext t (inl p) h =
      let (a, b, d) = typed_image c e _ _ ext t p refl h in Accepts-along _ t _ ext (jpeg a) b d
  accept_row e ext t (inr (inl p)) h =
      let (a, b, d) = typed_image c e _ _ ext t p refl h in Accepts-along _ t _ ext (png a) b d
  accept_row e ext t (inr (inr (inl p))) h =
      let (a, b, d) = typed_image c e _ _ ext t p refl h in Accepts-along _ t _ ext (gif a) b d
  accept_row e ext t (inr (inr (inr (inl p)))) h =
      let (a, b, d) = typed_image c e _ _ ext t p refl h in Accepts-along _ t _ ext (webp a) b d
  accept_row e ext t (inr (inr (inr (inr (inl p))))) h =
      let (a, b, d) = typed_video c e _ _ ext t p refl h in Accepts-along _ t _ ext (mp4 a) b d
  accept_row e ext t (inr (inr (inr (inr (inr (inl p)))))) h =
      let (a, b, d) = typed_video c e _ _ ext t p refl h in Accepts-along _ t _ ext (webm a) b d
  accept_row e ext t (inr (inr (inr (inr (inr (inr p)))))) h = absurd p

  accept_named :
      (ext : Text) (t : MediaType) → classify_by_name c f ≡ ok (t, ext) → Accepts c f t ext
  unfolding classify_by_name
  accept_named ext t h =
      elim (Bool-cases (
        text_eq c (codes "application/octet-stream")
        && is_in text_eq (to_lower (file_ext f)) known_video_extensions)) [
          | inr e ↦ absurd (cc (rw e at h))
          | inl e ↦
              let (known, m, k) =
                any→In (text_eq (to_lower (file_ext f))) known_video_extensions (ground arith) in
              let (same_type, same_ext) = video_result (to_lower (file_ext f)) ext t (rw e at h) in
              Accepts-along video t (to_lower (file_ext f)) ext
                (by_name (to_lower (file_ext f)) (text_eq→eq c _ (ground arith)) refl
                  (rw (text_eq→eq _ known k) m))
                same_type same_ext
        ]
    where
      video_result :
          (e ext : Text) (t : MediaType)
          → ◌≡◌ {A = Result (MediaType × Text)} (ok (video, e)) (ok (t, ext))
          → (video ≡ t) × (e ≡ ext)
      video_result e ext t h = (cc, cc)

  named_accepted :
      (ext : Text)
      → c ≡ codes "application/octet-stream"
      → to_lower (file_ext f) ≡ ext
      → In ext known_video_extensions
      → classify_content_type c f ≡ ok (video, ext)
  unfolding classify_content_type text_eq
  named_accepted ext e q m =
      rw (e, q) (rw (In→any (text_eq ext) ext known_video_extensions m (text_eq_refl ext)) refl)

  accepted :
      (t : MediaType) (ext : Text) → Accepts c f t ext → classify_content_type c f ≡ ok (t, ext)
  unfolding classify_content_type text_eq has_prefix
  accepted t ext (jpeg e) = rw e
  accepted t ext (png e) = rw e
  accepted t ext (gif e) = rw e
  accepted t ext (webp e) = rw e
  accepted t ext (mp4 e) = rw e
  accepted t ext (webm e) = rw e
  accepted t ext (by_name x e q m) = named_accepted x e q m

  classified :
      (t : MediaType) (ext : Text) → classify_content_type c f ≡ ok (t, ext) → Accepts c f t ext
  unfolding classify_content_type
  classified t ext h = elim (Option-cases (lookup c allowed_mime_types)) [
    | inl n ↦ accept_named ext t (rw (n, classify_content_type) at h)
    | inr (e, k) ↦
        accept_row e ext t (lookup→In c e allowed_mime_types k) (rw (k, classify_content_type) at h)
  ]

  -- classifyContentType accepts only what `Accepts` lists, with that media type and extension: a
  -- listed image or video type, or bytes of unknown type whose file name ends in a known video
  -- extension; and it accepts all of that.
  pub classify_content_type_iff :
      (t : MediaType) (ext : Text) → (classify_content_type c f ≡ ok (t, ext)) ↔ Accepts c f t ext
  classify_content_type_iff t ext = (classified t ext, accepted t ext)
