-- ===== src/Prelude/Lists.antt =====
-- Lists measured by native numbers, searched and filtered by Boolean tests, and predicates on them.
use Prim.Native.Nat.{ℕ, zero, suc, ◌+◌, min}
use mathlib.Core.Path.{◌≡◌, refl}
use mathlib.Core.Logic.{◌⊎◌, inl, inr}
use mathlib.Core.Bool.{Bool, true, false, ◌&&◌, ◌||◌}
use mathlib.Core.List.{List, [], ◌∷◌, ◌++◌, map}
use mathlib.Core.Option.{Option, none, some}
use native.Mathlib.Omega.{arith}
use scoreplay_media_api.Prelude.Tests.{if◌then◌else◌, Bool-cases}

module _ {ℓ} {A : Type ℓ} where
  abbrev pub length : List A → ℕ
  length [] = 0
  length (x ∷ xs) = suc (length xs)

  abbrev pub take : ℕ → List A → List A
  take zero xs = []
  take (suc n) [] = []
  take (suc n) (x ∷ xs) = x ∷ take n xs

  abbrev pub is_empty : List A → Bool
  is_empty [] = true
  is_empty (x ∷ xs) = false

  -- The rows that pass a test.
  unfoldable pub filter : (A → Bool) → List A → List A
  filter p [] = []
  filter p (x ∷ xs) = let rest = filter p xs in if p x then x ∷ rest else rest

  -- The first row that passes a test.
  unfoldable pub find : (A → Bool) → List A → Option A
  find p [] = none
  find p (x ∷ xs) = if p x then some x else find p xs

  unfoldable pub any : (A → Bool) → List A → Bool
  any p [] = false
  any p (x ∷ xs) = p x || any p xs

  unfoldable pub all : (A → Bool) → List A → Bool
  all p [] = true
  all p (x ∷ xs) = p x && all p xs

  -- Every row satisfies the predicate.
  abbrev pub All {κ} : (A → Type κ) → List A → Type κ
  All P [] = Unit
  All P (x ∷ xs) = P x × All P xs

module _ {A : Type 0} where
  -- A value stands in a list.
  abbrev pub In : A → List A → Type 0
  In a [] = ⊥
  In a (x ∷ xs) = (a ≡ x) ⊎ In a xs

  -- No value stands twice.
  abbrev pub Distinct : List A → Type 0
  Distinct [] = Unit
  Distinct (x ∷ xs) = ¬ In x xs × Distinct xs

module _ {ℓ} {A : Type ℓ} where
  pub length-append : (xs ys : List A) → length (xs ++ ys) ≡ length xs + length ys
  length-append [] ys = omega arith
  length-append (x ∷ xs) ys = omega (arith, length-append xs ys)

  pub length-take : (n : ℕ) (xs : List A) → length (take n xs) ≡ min n (length xs)
  length-take zero xs = omega arith
  length-take (suc n) [] = omega arith
  length-take (suc n) (x ∷ xs) = omega (arith, length-take n xs)

module _ {A : Type 0} (p : A → Bool) where
  pub any→In : (xs : List A) → any p xs ≡ true → (a : A) × In a xs × (p a ≡ true)
  unfolding any
  any→In [] h = ground arith
  any→In (x ∷ xs) h = elim (Bool-cases (p x)) [
    | inl e ↦ (x, inl refl, e)
    | inr e ↦ let (a, m, k) = any→In xs (ground arith) in (a, inr m, k)
  ]

  pub In→any : (a : A) (xs : List A) → In a xs → p a ≡ true → any p xs ≡ true
  unfolding any
  In→any a [] m h = absurd m
  In→any a (x ∷ xs) (inl e) h = ground arith
  In→any a (x ∷ xs) (inr m) h = ground (arith, In→any a xs m h)

module _ {A : Type 0} (p q : A → Bool) where
  pub any-filter :
      ((a : A) → q a ≡ true → p a ≡ true)
      → (xs : List A) → any q xs ≡ true
      → any q (filter p xs) ≡ true
  unfolding any filter
  any-filter imp [] h = h
  any-filter imp (x ∷ xs) h = elim (Bool-cases (q x)) [
    | inl e ↦ rw (imp x e, any) (rw e)
    | inr e ↦ elim (Bool-cases (p x)) [
      | inl f ↦ rw (f, any) (rw e (any-filter imp xs (rw e at h)))
      | inr f ↦ rw f (any-filter imp xs (rw e at h))
    ]
  ]

module _ {A : Type 0} (P Q : A → Type 0) where
  pub All-map : ((a : A) → P a → Q a) → (xs : List A) → All P xs → All Q xs
  All-map f [] h = tt
  All-map f (x ∷ xs) h = (f x h.0, All-map f xs h.1)

module _ {A : Type 0} (P : A → Type 0) where
  pub All-of_In : (xs : List A) → ((a : A) → In a xs → P a) → All P xs
  All-of_In [] f = tt
  All-of_In (x ∷ xs) f = (f x (inl refl), All-of_In xs (λ a m. f a (inr m)))

module _ {A : Type 0} (P : A → Type 0) (p : A → Bool) where
  -- What is left after a filter has its property and passes the test.
  pub All-filter : (xs : List A) → All P xs → All (λ a. P a × (p a ≡ true)) (filter p xs)
  unfolding filter
  All-filter [] h = tt
  All-filter (x ∷ xs) h = elim (Bool-cases (p x)) [
    | inl e ↦ rw e ((h.0, e), All-filter xs h.1)
    | inr e ↦ rw e (All-filter xs h.1)
  ]

module _ {A K : Type 0} (f : A → K) (p : A → Bool) where
  -- A key that no row has under a test is not among the keys.
  pub not-In-map :
      (k : K)
      → ((a : A) → k ≡ f a → p a ≡ true)
      → (xs : List A) → any p xs ≡ false
      → ¬ In k (map f xs)
  unfolding any
  not-In-map k has [] h m = m
  not-In-map k has (x ∷ xs) h (inl e) = ground (arith, has x e)
  not-In-map k has (x ∷ xs) h (inr m) = not-In-map k has xs (ground arith) m

  In-map-filter : (k : K) (xs : List A) → In k (map f (filter p xs)) → In k (map f xs)
  unfolding filter
  In-map-filter k [] m = m
  In-map-filter k (x ∷ xs) m = elim (Bool-cases (p x)) [
    | inl e ↦ elim (rw (e, filter) at m) [ inl q ↦ inl q | inr n ↦ inr (In-map-filter k xs n) ]
    | inr e ↦ inr (In-map-filter k xs (rw (e, filter) at m))
  ]

  -- Rows taken out leave distinct keys distinct.
  pub Distinct-filter : (xs : List A) → Distinct (map f xs) → Distinct (map f (filter p xs))
  unfolding filter
  Distinct-filter [] d = tt
  Distinct-filter (x ∷ xs) d = elim (Bool-cases (p x)) [
    | inl e ↦ rw e (λ m. d.0 (In-map-filter (f x) xs m), Distinct-filter xs d.1)
    | inr e ↦ rw e (Distinct-filter xs d.1)
  ]
