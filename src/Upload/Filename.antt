-- ===== src/Upload/Filename.antt =====
-- internal/service/media_service.go: sanitizeFilename leaves no path in a file name.
use scoreplay_media_api.Prelude.{
  ℕ, ◌≡◌, ◌≢◌, refl, ◌⊎◌, inl, inr, false, ◌&&◌, [], ◌∷◌, Text, All, any, is_empty, codes, arith,
  Bool-cases, ◌==◌, if◌then◌else◌,
}
use scoreplay_media_api.Upload.{
  slashes, strip_slashes, after_last_slash, file_base, sanitize_filename,
}

abbrev NoSlash : ℕ → Type 0
NoSlash c = c ≢ b'/'

abbrev NoBackslash : ℕ → Type 0
NoBackslash c = c ≢ b'\\'

slashes-NoBackslash : (s : Text) → All NoBackslash (slashes s)
unfolding slashes
slashes-NoBackslash [] = tt
slashes-NoBackslash (c ∷ s) = (ground arith, slashes-NoBackslash s)

module _ (P : ℕ → Type 0) where
  strip_slashes-All : (s : Text) → All P s → All P (strip_slashes s)
  unfolding strip_slashes
  strip_slashes-All [] h = tt
  strip_slashes-All (c ∷ s) h = elim (Bool-cases (is_empty (strip_slashes s) && c == b'/')) [
    | inl e ↦ rw e tt
    | inr e ↦ rw e (h.0, strip_slashes-All s h.1)
  ]

  after_last_slash-All : (s : Text) → All P s → All P (after_last_slash s)
  unfolding after_last_slash
  after_last_slash-All [] h = tt
  after_last_slash-All (c ∷ s) h = elim (Bool-cases (any (λ d. d == b'/') (c ∷ s))) [
    | inl e ↦ rw e (after_last_slash-All s h.1)
    | inr e ↦ rw e h
  ]

any-NoSlash : (s : Text) → any (λ d. d == b'/') s ≡ false → All NoSlash s
unfolding any
any-NoSlash [] h = tt
any-NoSlash (c ∷ s) h = (ground arith, any-NoSlash s (ground arith))

after_last_slash-NoSlash : (s : Text) → All NoSlash (after_last_slash s)
unfolding after_last_slash
after_last_slash-NoSlash [] = tt
after_last_slash-NoSlash (c ∷ s) = elim (Bool-cases (any (λ d. d == b'/') (c ∷ s))) [
  | inl e ↦ rw e (after_last_slash-NoSlash s)
  | inr e ↦ rw e (any-NoSlash (c ∷ s) e)
]

-- A file name with no path in it, or the name of the root.
pub record IsBaseName (s : Text) : Type 0 where
  pub nonempty : s ≢ []
  pub no_backslash : All NoBackslash s
  pub no_slash : All NoSlash s ⊎ (s ≡ codes "/")

-- sanitizeFilename returns a non-empty name without a backslash that has no slash either, or is the
-- single slash.
pub sanitize_filename-IsBaseName : (name : Text) → IsBaseName (sanitize_filename name)
unfolding sanitize_filename file_base
sanitize_filename-IsBaseName name = go (slashes name) (slashes-NoBackslash name)
  where
    named :
        (t : Text)
        → All NoBackslash t
        → All NoSlash t
        → IsBaseName (if is_empty t then codes "/" else t)
    named [] h k = record { nonempty = cc; no_backslash = (omega arith, tt); no_slash = inr refl }
    named (c ∷ t) h k = record { nonempty = cc; no_backslash = h; no_slash = inl k }

    go : (s : Text) → All NoBackslash s → IsBaseName (file_base s)
    go [] h = record {
      nonempty = cc;
      no_backslash = (omega arith, tt);
      no_slash = inl (omega arith, tt);
    }
    go (c ∷ s) h =
        named (after_last_slash (strip_slashes (c ∷ s)))
          (after_last_slash-All NoBackslash _ (strip_slashes-All NoBackslash (c ∷ s) h))
          (after_last_slash-NoSlash _)
