-- ===== src/Name/Fixed.antt =====
-- internal/service/sanitize.go: SanitizeName leaves a name that is already canonical as it is.
use scoreplay_media_api.Prelude.{
  ℕ, ◌≡◌, refl, ap, inl, inr, true, [], ◌∷◌, map, Text, All, Bool-cases, arith, all,
}
use scoreplay_media_api.Result.{ok}
use scoreplay_media_api.Name.{
  outside, one, is_regexp_space, plain_space, plain_break, collapse_from, trim_left, trim_right,
  normalize_space, is_scalar, valid_utf8, sanitize_name,
}
use scoreplay_media_api.Name.Spacing.{
  IsPlain, IsSingleSpaced, StartsPlain, EndsPlain, IsTidy, normalize_space-All,
}
use scoreplay_media_api.Name.Clean.{
  IsName, check_name_of_IsName, sanitize_name-IsName, sanitize_name-ok, check_name-ok,
}

plain_fixed : (r : ℕ) → IsPlain r → (plain_space r ≡ r) × (plain_break r ≡ r)
unfolding plain_space plain_break
plain_fixed r p = ground (arith, p.not_unicode, p.not_tab, p.not_newline, p.not_return)

map_fixed : (s : Text) → All IsPlain s → map plain_break (map plain_space s) ≡ s
map_fixed [] p = refl
map_fixed (r ∷ s) p = cc ((plain_fixed r p.0).0, (plain_fixed r p.0).1, map_fixed s p.1)

-- Single spaces survive, outside a run and after one white space rune.
collapse_from_fixed :
    (s : Text)
    → (IsSingleSpaced s → collapse_from outside s ≡ s)
      × ((q : ℕ)
          → is_regexp_space q ≡ true
          → IsSingleSpaced (q ∷ s)
          → collapse_from (one q) s ≡ q ∷ s)
unfolding collapse_from
collapse_from_fixed [] = (λ _. refl, λ q e h. refl)
collapse_from_fixed (r ∷ []) = (
  λ h. elim (Bool-cases (is_regexp_space r)) [ inl e ↦ rw e | inr e ↦ rw e ],
  λ q e h. elim (Bool-cases (is_regexp_space r)) [ inl f ↦ ground arith | inr f ↦ rw f ],
)
collapse_from_fixed (r ∷ p ∷ s) = (
  λ h. elim (Bool-cases (is_regexp_space r)) [
    | inl e ↦ rw (e, collapse_from) ((collapse_from_fixed (p ∷ s)).1 r e h)
    | inr e ↦ rw (e, collapse_from) (ap (λ t. r ∷ t) ((collapse_from_fixed (p ∷ s)).0 h.1))
  ],
  λ q e h. elim (Bool-cases (is_regexp_space r)) [
    | inl f ↦ ground arith
    | inr f ↦ rw (f, collapse_from) (ap (λ t. q ∷ r ∷ t) ((collapse_from_fixed (p ∷ s)).0 h.1.1))
  ],
)

trim_left_fixed : (s : Text) → StartsPlain s → trim_left s ≡ s
unfolding trim_left
trim_left_fixed [] h = refl
trim_left_fixed (r ∷ s) h = rw h

trim_right_fixed : (s : Text) → EndsPlain s → trim_right s ≡ s
unfolding trim_right
trim_right_fixed [] h = refl
trim_right_fixed (r ∷ []) h = rw h
trim_right_fixed (r ∷ q ∷ s) h = rw (trim_right_fixed (q ∷ s) h, trim_right)

normalize_space_fixed : (s : Text) → IsTidy s → normalize_space s ≡ s
unfolding normalize_space
normalize_space_fixed s t =
    rw (map_fixed s t.plain, (collapse_from_fixed s).0 t.single, trim_left_fixed s t.starts)
      (trim_right_fixed s t.ends)

abbrev IsScalar : ℕ → Type 0
IsScalar r = is_scalar r ≡ true

all-All : (s : Text) → all is_scalar s ≡ true → All IsScalar s
unfolding all
all-All [] h = tt
all-All (r ∷ s) h = (ground arith, all-All s (ground arith))

All-all : (s : Text) → All IsScalar s → all is_scalar s ≡ true
unfolding all
All-all [] h = refl
All-all (r ∷ s) h = rw h.0 (All-all s h.1)

plain-IsScalar : (r : ℕ) → IsScalar r → IsScalar (plain_break (plain_space r))
unfolding plain_break plain_space
plain-IsScalar r h = ground arith

map-IsScalar : (s : Text) → All IsScalar s → All IsScalar (map plain_break (map plain_space s))
map-IsScalar [] h = tt
map-IsScalar (r ∷ s) h = (plain-IsScalar r h.0, map-IsScalar s h.1)

valid_utf8-normalize_space :
    (s : Text) → valid_utf8 s ≡ true → valid_utf8 (normalize_space s) ≡ true
valid_utf8-normalize_space s h =
    All-all _ (normalize_space-All IsScalar refl s (map-IsScalar s (all-All s h)))

module _ (nfc : Text → Text) where
  -- A name in stored form that is valid UTF-8 and that NFC leaves alone is returned unchanged.
  pub sanitize_name_canonical :
      (t : Text) → IsName t → valid_utf8 t ≡ true → nfc t ≡ t → sanitize_name nfc t ≡ ok t
  unfolding sanitize_name
  sanitize_name_canonical t n v e =
      rw (v, e, normalize_space_fixed t n.tidy) (check_name_of_IsName t n)

  -- SanitizeName is idempotent: what it returned it returns again, as long as NFC keeps valid UTF-8
  -- valid and leaves the returned name alone.
  pub sanitize_name_idem :
      (s t : Text)
      → ((u : Text) → valid_utf8 u ≡ true → valid_utf8 (nfc u) ≡ true)
      → nfc t ≡ t
      → sanitize_name nfc s ≡ ok t
      → sanitize_name nfc t ≡ ok t
  sanitize_name_idem s t keeps e h =
      let parts = sanitize_name-ok nfc s t h in
      let same = (check_name-ok _ t parts.1).0 in
      sanitize_name_canonical t (sanitize_name-IsName nfc s t h)
        (rw same (valid_utf8-normalize_space (nfc s) (keeps s parts.0))) e
