-- ===== src/Name/Spacing.antt =====
-- internal/service/sanitize.go: what the white space steps of SanitizeName leave.
use scoreplay_media_api.Prelude.{
  ℕ, ◌≡◌, ◌≢◌, ◌⊎◌, inl, inr, false, ◌&&◌, [], ◌∷◌, ◌++◌, map, Text, All, Bool-cases, arith,
  is_empty,
}
use scoreplay_media_api.Name.{
  Run, outside, one, many, flush, grow, is_unicode_whitespace, is_regexp_space, is_space,
  plain_space, plain_break, collapse_from, trim_left, trim_right, normalize_space,
}

-- Neither a Unicode space nor a tab or line break.
pub record IsPlain (r : ℕ) : Type 0 where
  pub not_unicode : is_unicode_whitespace r ≡ false
  pub not_tab : r ≢ 0x09
  pub not_newline : r ≢ 0x0a
  pub not_return : r ≢ 0x0d

-- No two white space runes of `\s` stand side by side.
abbrev pub IsSingleSpaced : Text → Type 0
IsSingleSpaced [] = Unit
IsSingleSpaced (r ∷ []) = Unit
IsSingleSpaced (r ∷ q ∷ s) =
    ((is_regexp_space r && is_regexp_space q) ≡ false) × IsSingleSpaced (q ∷ s)

-- The text does not begin with a space.
abbrev pub StartsPlain : Text → Type 0
StartsPlain [] = Unit
StartsPlain (r ∷ s) = is_space r ≡ false

-- The text does not end with a space.
abbrev pub EndsPlain : Text → Type 0
EndsPlain [] = Unit
EndsPlain (r ∷ []) = is_space r ≡ false
EndsPlain (r ∷ q ∷ s) = EndsPlain (q ∷ s)

rune-IsPlain : (r : ℕ) → IsPlain (plain_break (plain_space r))
unfolding plain_break plain_space is_unicode_whitespace
rune-IsPlain r = ground arith

map-IsPlain : (s : Text) → All IsPlain (map plain_break (map plain_space s))
map-IsPlain [] = tt
map-IsPlain (r ∷ s) = (rune-IsPlain r, map-IsPlain s)

-- The runes of a pending run.
abbrev RunAll : (ℕ → Type 0) → Run → Type 0
RunAll P outside = Unit
RunAll P (one r) = P r
RunAll P many = Unit

module _ (P : ℕ → Type 0) (space : P 0x20) where
  flush-All : (run : Run) (s : Text) → RunAll P run → All P s → All P (flush run ++ s)
  flush-All outside s h k = k
  flush-All (one r) s h k = (h, k)
  flush-All many s h k = (space, k)

  grow-All : (run : Run) (r : ℕ) → P r → RunAll P (grow run r)
  grow-All outside r h = h
  grow-All (one _) r h = tt
  grow-All many r h = tt

  -- What holds of every rune and of the space still holds after collapsing.
  pub collapse_from-All :
      (run : Run) (s : Text) → RunAll P run → All P s → All P (collapse_from run s)
  unfolding collapse_from
  collapse_from-All outside [] h k = tt
  collapse_from-All (one r) [] h k = (h, tt)
  collapse_from-All many [] h k = (space, tt)
  collapse_from-All run (r ∷ s) h k = elim (Bool-cases (is_regexp_space r)) [
    | inl e ↦ rw (e, collapse_from) (collapse_from-All (grow run r) s (grow-All run r k.0) k.1)
    | inr e ↦ rw (e, collapse_from) (flush-All run _ h (k.0, collapse_from-All outside s tt k.1))
  ]

module _ (P : ℕ → Type 0) where
  pub trim_left-All : (s : Text) → All P s → All P (trim_left s)
  unfolding trim_left
  trim_left-All [] h = tt
  trim_left-All (r ∷ s) h = elim (Bool-cases (is_space r)) [
    | inl e ↦ rw e (trim_left-All s h.1)
    | inr e ↦ rw e h
  ]

  pub trim_right-All : (s : Text) → All P s → All P (trim_right s)
  unfolding trim_right
  trim_right-All [] h = tt
  trim_right-All (r ∷ s) h = elim (Bool-cases (is_empty (trim_right s) && is_space r)) [
    | inl e ↦ rw e tt
    | inr e ↦ rw e (h.0, trim_right-All s h.1)
  ]

cons-IsSingleSpaced :
    (r : ℕ) (s : Text) → is_regexp_space r ≡ false → IsSingleSpaced s → IsSingleSpaced (r ∷ s)
cons-IsSingleSpaced r [] e h = tt
cons-IsSingleSpaced r (q ∷ s) e h = (ground arith, h)

tail-IsSingleSpaced : (r : ℕ) (s : Text) → IsSingleSpaced (r ∷ s) → IsSingleSpaced s
tail-IsSingleSpaced r [] h = tt
tail-IsSingleSpaced r (q ∷ s) h = h.1

flush-IsSingleSpaced :
    (run : Run) (r : ℕ) (s : Text)
    → is_regexp_space r ≡ false
    → IsSingleSpaced (r ∷ s)
    → IsSingleSpaced (flush run ++ (r ∷ s))
flush-IsSingleSpaced outside r s e h = h
flush-IsSingleSpaced (one q) r s e h = (ground arith, h)
flush-IsSingleSpaced many r s e h = (ground arith, h)

collapse_from-IsSingleSpaced : (run : Run) (s : Text) → IsSingleSpaced (collapse_from run s)
unfolding collapse_from
collapse_from-IsSingleSpaced outside [] = tt
collapse_from-IsSingleSpaced (one r) [] = tt
collapse_from-IsSingleSpaced many [] = tt
collapse_from-IsSingleSpaced run (r ∷ s) = elim (Bool-cases (is_regexp_space r)) [
  | inl e ↦ rw (e, collapse_from) (collapse_from-IsSingleSpaced (grow run r) s)
  | inr e ↦
      rw (e, collapse_from)
        (flush-IsSingleSpaced run r _ e
          (cons-IsSingleSpaced r _ e (collapse_from-IsSingleSpaced outside s)))
]

trim_left-IsSingleSpaced : (s : Text) → IsSingleSpaced s → IsSingleSpaced (trim_left s)
unfolding trim_left
trim_left-IsSingleSpaced [] h = tt
trim_left-IsSingleSpaced (r ∷ s) h = elim (Bool-cases (is_space r)) [
  | inl e ↦ rw e (trim_left-IsSingleSpaced s (tail-IsSingleSpaced r s h))
  | inr e ↦ rw e h
]

-- Trimming on the right keeps the first rune, or leaves nothing.
trim_right_head :
    (r : ℕ) (s : Text) → (trim_right (r ∷ s) ≡ []) ⊎ (trim_right (r ∷ s) ≡ r ∷ trim_right s)
unfolding trim_right
trim_right_head r s = elim (Bool-cases (is_empty (trim_right s) && is_space r)) [
  | inl e ↦ inl (rw e)
  | inr e ↦ inr (rw e)
]

trim_right-IsSingleSpaced : (s : Text) → IsSingleSpaced s → IsSingleSpaced (trim_right s)
trim_right-IsSingleSpaced [] h = unfold trim_right in tt
trim_right-IsSingleSpaced (r ∷ []) h = elim (trim_right_head r []) [
  | inl e ↦ rw e tt
  | inr e ↦ rw e (unfold trim_right in tt)
]
trim_right-IsSingleSpaced (r ∷ q ∷ s) h = elim (trim_right_head r (q ∷ s)) [
  | inl e ↦ rw e tt
  | inr e ↦ rw e (step (trim_right_head q s) (trim_right-IsSingleSpaced (q ∷ s) h.1))
]
  where
    step :
        (trim_right (q ∷ s) ≡ []) ⊎ (trim_right (q ∷ s) ≡ q ∷ trim_right s)
        → IsSingleSpaced (trim_right (q ∷ s))
        → IsSingleSpaced (r ∷ trim_right (q ∷ s))
    step (inl e) k = rw e tt
    step (inr e) k = rw e (h.0, rw e at k)

trim_left-StartsPlain : (s : Text) → StartsPlain (trim_left s)
unfolding trim_left
trim_left-StartsPlain [] = tt
trim_left-StartsPlain (r ∷ s) = elim (Bool-cases (is_space r)) [
  | inl e ↦ rw e (trim_left-StartsPlain s)
  | inr e ↦ rw e e
]

trim_right-StartsPlain : (s : Text) → StartsPlain s → StartsPlain (trim_right s)
trim_right-StartsPlain [] h = unfold trim_right in tt
trim_right-StartsPlain (r ∷ s) h = elim (trim_right_head r s) [ inl e ↦ rw e tt | inr e ↦ rw e h ]

cons-EndsPlain :
    (r : ℕ) (s : Text) → (is_empty s && is_space r) ≡ false → EndsPlain s → EndsPlain (r ∷ s)
cons-EndsPlain r [] e h = e
cons-EndsPlain r (q ∷ s) e h = h

trim_right-EndsPlain : (s : Text) → EndsPlain (trim_right s)
unfolding trim_right
trim_right-EndsPlain [] = tt
trim_right-EndsPlain (r ∷ s) = elim (Bool-cases (is_empty (trim_right s) && is_space r)) [
  | inl e ↦ rw e tt
  | inr e ↦ rw e (cons-EndsPlain r _ e (trim_right-EndsPlain s))
]

-- The shape that the white space steps give a text.
pub record IsTidy (s : Text) : Type 0 where
  pub plain : All IsPlain s
  pub single : IsSingleSpaced s
  pub starts : StartsPlain s
  pub ends : EndsPlain s

module _ (P : ℕ → Type 0) (space : P 0x20) where
  pub normalize_space-All :
      (s : Text) → All P (map plain_break (map plain_space s)) → All P (normalize_space s)
  unfolding normalize_space
  normalize_space-All s h =
      trim_right-All P _ (trim_left-All P _ (collapse_from-All P space outside _ tt h))

space-IsPlain : IsPlain 0x20
unfolding is_unicode_whitespace
space-IsPlain = ground arith

pub normalize_space-IsTidy : (s : Text) → IsTidy (normalize_space s)
unfolding normalize_space
normalize_space-IsTidy s = record {
  plain = normalize_space-All IsPlain space-IsPlain s (map-IsPlain s);
  single =
      trim_right-IsSingleSpaced _
        (trim_left-IsSingleSpaced _ (collapse_from-IsSingleSpaced outside _));
  starts = trim_right-StartsPlain _ (trim_left-StartsPlain _);
  ends = trim_right-EndsPlain _;
}
