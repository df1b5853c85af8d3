-- ===== src/Config/Origins.antt =====
-- config/config.go: the list of origins that CORS_ORIGINS writes.
use scoreplay_media_api.Prelude.{
  ◌≡◌, refl, ◌∙◌, ap, false, not, List, [], ◌∷◌, ◌++◌, map, Text, is_empty, any, filter, All, arith,
  ◌==◌,
}
use scoreplay_media_api.Name.{trim_space}
use scoreplay_media_api.Config.{split_commas, parse_cors_origins}

-- Origins with commas between them.
abbrev pub join : List Text → Text
join [] = []
join (o ∷ []) = o
join (o ∷ (p ∷ os)) = o ++ b',' ∷ join (p ∷ os)

-- An origin as it may be listed: no comma, not empty, and no white space around it.
pub record IsOrigin (o : Text) : Type 0 where
  pub no_comma : any (λ c. c == b',') o ≡ false
  pub trimmed : trim_space o ≡ o
  pub visible : is_empty o ≡ false

split-append :
    (o : Text) (s : Text)
    → any (λ c. c == b',') o ≡ false
    → split_commas (o ++ b',' ∷ s) ≡ o ∷ split_commas s
unfolding split_commas any
split-append [] s h = refl
split-append (c ∷ o) s h =
    let ih = split-append o s (ground arith) in
    let plain : (c == b',') ≡ false = ground arith in rw (plain, ih) refl

split_alone : (o : Text) → any (λ c. c == b',') o ≡ false → split_commas o ≡ o ∷ []
unfolding split_commas any
split_alone [] h = refl
split_alone (c ∷ o) h =
    let ih = split_alone o (ground arith) in
    let plain : (c == b',') ≡ false = ground arith in rw (plain, ih) refl

split_commas-join :
    (o : Text) (os : List Text) → All IsOrigin (o ∷ os) → split_commas (join (o ∷ os)) ≡ o ∷ os
split_commas-join o [] h = split_alone o h.0.no_comma
split_commas-join o (p ∷ os) h =
    split-append o (join (p ∷ os)) h.0.no_comma ∙ ap (λ ps. o ∷ ps) (split_commas-join p os h.1)

kept : (os : List Text) → All IsOrigin os → filter (λ p. not (is_empty p)) (map trim_space os) ≡ os
unfolding filter
kept [] h = refl
kept (o ∷ os) h = rw (h.0.trimmed, h.0.visible) (ap (λ ps. o ∷ ps) (kept os h.1))

join-visible : (o : Text) (os : List Text) → is_empty o ≡ false → is_empty (join (o ∷ os)) ≡ false
join-visible o [] h = h
join-visible [] (p ∷ os) h = absurd (ground arith)
join-visible (c ∷ o) (p ∷ os) h = refl

-- A list of origins, each without commas, not empty and without white space around it, is read back
-- from the text that joins them with commas.
pub parse_cors_origins-join : (os : List Text) → All IsOrigin os → parse_cors_origins (join os) ≡ os
unfolding parse_cors_origins
parse_cors_origins-join [] h = refl
parse_cors_origins-join (o ∷ os) h =
    rw (join-visible o os h.0.visible, split_commas-join o os h) (kept (o ∷ os) h)
