-- ===== src/Name/Clean.antt =====
-- internal/service/sanitize.go: what SanitizeName accepts and returns.
use scoreplay_media_api.Prelude.{
  ℕ, ◌≤◌, ◌<◌, ◌≡◌, ◌≢◌, refl, ◌⊎◌, true, false, [], ◌∷◌, Text, All, arith, any,
}
use scoreplay_media_api.Result.{ok}
use scoreplay_media_api.Name.{
  is_unsafe_rune, valid_utf8, normalize_space, check_name, sanitize_name, byte_len,
}
use scoreplay_media_api.Name.Spacing.{IsTidy, IsPlain, normalize_space-IsTidy}

-- The ranges that the comment at the head of the file rejects, with the tab and the line breaks.
pub record IsAllowed (r : ℕ) : Type 0 where
  pub no_control : 0x20 ≤ r
  pub no_delete : (r < 0x7f) ⊎ (0x9f < r)
  pub no_zero_width : (r < 0x200b) ⊎ (0x200f < r)
  pub no_bom : r ≢ 0xfeff
  pub no_override : (r < 0x202a) ⊎ (0x202e < r)
  pub no_isolate : (r < 0x2066) ⊎ (0x2069 < r)
  pub no_annotation : (r < 0xfff9) ⊎ (0xfffb < r)
  pub no_replacement : r ≢ 0xfffd
  pub no_tag : (r < 0xe0001) ⊎ (0xe007f < r)

-- A name as it is stored.
pub record IsName (s : Text) : Type 0 where
  pub tidy : IsTidy s
  pub allowed : All IsAllowed s
  pub nonempty : s ≢ []
  pub short : byte_len s ≤ 255

safe-IsAllowed : (r : ℕ) → IsPlain r → is_unsafe_rune r ≡ false → IsAllowed r
unfolding is_unsafe_rune
safe-IsAllowed r p e = record {
  no_control = ground (arith, p.not_tab, p.not_newline, p.not_return);
  no_delete = ground (arith, p.not_tab, p.not_newline, p.not_return);
  no_zero_width = ground arith;
  no_bom = ground arith;
  no_override = ground arith;
  no_isolate = ground arith;
  no_annotation = ground arith;
  no_replacement = ground arith;
  no_tag = ground arith;
}

allowed-safe : (r : ℕ) → IsAllowed r → is_unsafe_rune r ≡ false
unfolding is_unsafe_rune
allowed-safe r a = ground (
  arith, a.no_control, a.no_delete, a.no_zero_width, a.no_bom, a.no_override, a.no_isolate,
  a.no_annotation, a.no_replacement, a.no_tag,
)

safe-All : (s : Text) → All IsPlain s → any is_unsafe_rune s ≡ false → All IsAllowed s
unfolding any
safe-All [] p e = tt
safe-All (r ∷ s) p e = (safe-IsAllowed r p.0 (ground arith), safe-All s p.1 (ground arith))

All-safe : (s : Text) → All IsAllowed s → any is_unsafe_rune s ≡ false
unfolding any
All-safe [] a = refl
All-safe (r ∷ s) a = rw (allowed-safe r a.0) (All-safe s a.1)

pub check_name-ok :
    (s t : Text)
    → check_name s ≡ ok t
    → (t ≡ s) × (any is_unsafe_rune s ≡ false) × (s ≢ []) × (byte_len s ≤ 255)
unfolding check_name
check_name-ok s t h = ground arith

pub check_name_of_IsName : (s : Text) → IsName s → check_name s ≡ ok s
unfolding check_name
check_name_of_IsName [] n = absurd (n.nonempty refl)
check_name_of_IsName (r ∷ s) n = ground (arith, All-safe (r ∷ s) n.allowed, n.short)

module _ (nfc : Text → Text) where
  pub sanitize_name-ok :
      (s t : Text)
      → sanitize_name nfc s ≡ ok t
      → (valid_utf8 s ≡ true) × (check_name (normalize_space (nfc s)) ≡ ok t)
  unfolding sanitize_name
  sanitize_name-ok s t h = ground arith

  -- A name that SanitizeName returns, whatever the NFC library does, is non-empty and at most 255
  -- bytes long; it has no control, zero-width, bidirectional, annotation, tag or replacement
  -- character, no Unicode space variant, tab or line break, no two adjacent spaces, and no space
  -- at either end.
  pub sanitize_name-IsName : (s t : Text) → sanitize_name nfc s ≡ ok t → IsName t
  sanitize_name-IsName s t h =
      let checked = check_name-ok (normalize_space (nfc s)) t (sanitize_name-ok s t h).1 in
      let tidy = normalize_space-IsTidy (nfc s) in
      rw checked.0 (record {
        tidy = tidy;
        allowed = safe-All _ tidy.plain checked.1;
        nonempty = checked.2;
        short = checked.3;
      })
