-- ===== src/Domain/Scope.antt =====
-- internal/domain/tenant.go: HasScope decides when a granted scope covers a wanted one.
use scoreplay_media_api.Prelude.{
  ℕ, ◌≡◌, ◌≢◌, refl, sym, ◌∙◌, ap, ◌⊎◌, ◌↔◌, inl, inr, true, List, [], ◌∷◌, ◌++◌, Option, none,
  some, Text, codes, text_eq, text_eq→eq, eq→text_eq, take, any, any→In, In→any, In, All, arith,
  Bool-cases, ◌==◌,
}
use scoreplay_media_api.Domain.{Identity, category_of, admin_scope, wildcard, granted_by, has_scope}

-- A text without a colon.
abbrev NoColon : Text → Type 0
NoColon = All (λ c. c ≢ b':')

-- What a granted scope covers, read off the shape of the wanted scope.
pub data Covers : Text → Text → Type 0 where
  exact : {g w : Text} → g ≡ w → Covers g w
  admin : {g w : Text} → g ≡ codes "admin:*" → Covers g w
  category :
      {g w : Text} (c verb : Text)
      → NoColon c
      → w ≡ c ++ b':' ∷ verb
      → g ≡ c ++ codes ":*"
      → Covers g w
  bare : {g w : Text} → NoColon w → g ≡ w ++ codes ":*" → Covers g w

-- A text splits at its first colon, or has none.
data Split (w : Text) : Text → Type 0 where
  at_colon : {c : Text} (verb : Text) → NoColon c → w ≡ c ++ b':' ∷ verb → Split w c
  no_colon : {c : Text} → NoColon w → c ≡ w → Split w c

abbrev category_from : Option ℕ → Text → Text
category_from none w = w
category_from (some i) w = take i w

cons-Split : (x : ℕ) (w c : Text) → x ≢ b':' → Split w c → Split (x ∷ w) (x ∷ c)
cons-Split x w c ne (at_colon verb h e) = at_colon verb (ne, h) (ap (λ t. x ∷ t) e)
cons-Split x w c ne (no_colon h e) = no_colon (ne, h) (ap (λ t. x ∷ t) e)

category_of_cons : (x : ℕ) (w : Text) → x ≢ b':' → category_of (x ∷ w) ≡ x ∷ category_of w
unfolding category_of
category_of_cons x w ne = ground arith

category_of_colon : (x : ℕ) (w : Text) → x ≡ b':' → category_of (x ∷ w) ≡ []
unfolding category_of
category_of_colon x w e = ground arith

category_of_nil : category_of [] ≡ []
unfolding category_of
category_of_nil = refl

category_of-Split : (w : Text) → Split w (category_of w)
category_of-Split [] = no_colon tt category_of_nil
category_of-Split (x ∷ w) = elim (Bool-cases (x == b':')) [
  | inl e ↦
      rw (category_of_colon x w (ground arith)) (at_colon w tt (ap (λ y. y ∷ w) (ground arith)))
  | inr e ↦
      rw (category_of_cons x w (ground arith))
        (cons-Split x w _ (ground arith) (category_of-Split w))
]

-- The first colon is unique.
split_unique : (c d u v : Text) → NoColon c → NoColon d → c ++ b':' ∷ u ≡ d ++ b':' ∷ v → c ≡ d
split_unique [] [] u v h k e = refl
split_unique [] (y ∷ d) u v h k e = ground (arith, k.0)
split_unique (x ∷ c) [] u v h k e = ground (arith, h.0)
split_unique (x ∷ c) (y ∷ d) u v h k e = ground (arith, split_unique c d u v h.1 k.1)

not_split : (w c v : Text) → NoColon w → w ≡ c ++ b':' ∷ v → ⊥
not_split [] [] v h e = cc
not_split [] (y ∷ c) v h e = cc
not_split (x ∷ w) [] v h e = ground (arith, h.0)
not_split (x ∷ w) (y ∷ c) v h e = not_split w c v h.1 (ground arith)

Covers-of_wildcard : {g w c : Text} → Split w c → g ≡ c ++ wildcard → Covers g w
Covers-of_wildcard (at_colon {c} verb h e) k = category c verb h e k
Covers-of_wildcard (no_colon h e) k = bare h (rw (← e) k)

wildcard_of_Split : (w c d verb : Text) → Split w d → NoColon c → w ≡ c ++ b':' ∷ verb → d ≡ c
wildcard_of_Split w c d verb (at_colon v h e) k f = split_unique d c v verb h k (sym e ∙ f)
wildcard_of_Split w c d verb (no_colon h e) k f = absurd (not_split w c verb h f)

whole_of_Split : (w d : Text) → Split w d → NoColon w → d ≡ w
whole_of_Split w d (at_colon v h e) k = absurd (not_split w d v k e)
whole_of_Split w d (no_colon h e) k = e

Covers-of_granted : (g w : Text) → granted_by w (category_of w) g ≡ true → Covers g w
unfolding granted_by
Covers-of_granted g w h = elim (Bool-cases (text_eq g w)) [
  | inl e ↦ exact (text_eq→eq g w e)
  | inr e ↦ elim (Bool-cases (text_eq g admin_scope)) [
    | inl f ↦ admin (text_eq→eq g admin_scope f)
    | inr f ↦
        Covers-of_wildcard (category_of-Split w)
          (text_eq→eq g (category_of w ++ wildcard) (ground arith))
  ]
]

granted_of_Covers : (g w : Text) → Covers g w → granted_by w (category_of w) g ≡ true
unfolding granted_by
granted_of_Covers g w (exact e) = rw (eq→text_eq g w e)
granted_of_Covers g w (admin e) = ground (arith, eq→text_eq g admin_scope e)
granted_of_Covers g w (category c verb h e k) =
    let same = wildcard_of_Split w c (category_of w) verb (category_of-Split w) h e in
    ground
      (arith, eq→text_eq g (category_of w ++ wildcard) (k ∙ ap (λ t. t ++ wildcard) (sym same)))
granted_of_Covers g w (bare h k) =
    let same = whole_of_Split w (category_of w) (category_of-Split w) h in
    ground
      (arith, eq→text_eq g (category_of w ++ wildcard) (k ∙ ap (λ t. t ++ wildcard) (sym same)))

-- Some granted scope covers the wanted one.
abbrev pub SomeCovers : List Text → Text → Type 0
SomeCovers scopes w = (g : Text) × In g scopes × Covers g w

any_covers :
    (scopes : List Text) (w : Text)
    → any (granted_by w (category_of w)) scopes ≡ true
    → SomeCovers scopes w
any_covers scopes w h =
    let (g, m, e) = any→In (granted_by w (category_of w)) scopes h in
    (g, m, Covers-of_granted g w e)

covers_any :
    (scopes : List Text) (w : Text)
    → SomeCovers scopes w
    → any (granted_by w (category_of w)) scopes ≡ true
covers_any scopes w (g, m, c) =
    In→any (granted_by w (category_of w)) g scopes m (granted_of_Covers g w c)

-- HasScope passes exactly if the wanted scope is empty or one of the granted scopes is equal to it,
-- is `admin:*`, or is the wanted scope's category (its part before the first colon, the whole of a
-- scope without colon) followed by `:*`.
pub has_scope_iff :
    (i : Identity) (w : Text) → (has_scope i w ≡ true) ↔ ((w ≡ []) ⊎ SomeCovers i.scopes w)
unfolding has_scope
has_scope_iff i w = elim (Bool-cases (text_eq w [])) [
  | inl e ↦ (λ h. inl (text_eq→eq w [] e), λ h. rw e)
  | inr e ↦ (
    λ h. inr (any_covers i.scopes w (rw e at h)),
    λ h. elim h [
      | inl f ↦ absurd (ground (arith, eq→text_eq w [] f))
      | inr c ↦ rw e (covers_any i.scopes w c)
    ],
  )
]
