-- ===== src/Paging/Order.antt =====
-- ORDER BY returns a sorted list with the rows of its input.
use scoreplay_media_api.Prelude.{
  ◌≡◌, ◌≢◌, sym, inl, inr, ◌↔◌, Bool, true, false, List, [], ◌∷◌, In, All, All-map, Bool-cases,
}
use scoreplay_media_api.Paging.{insert_by, sort_by}

-- A strict total order on keys.
pub record IsOrder {K : Type 0} (before : K → K → Bool) : Type 0 where
  pub irrefl : (a : K) → before a a ≡ false
  pub trans : (a b c : K) → before a b ≡ true → before b c ≡ true → before a c ≡ true
  pub total : (a b : K) → a ≢ b → before a b ≡ false → before b a ≡ true

module _ {A K : Type 0} (key : A → K) (before : K → K → Bool) where
  -- Every key comes before those that follow.
  abbrev pub IsSorted : List A → Type 0
  IsSorted [] = Unit
  IsSorted (x ∷ xs) = All (λ y. before (key x) (key y) ≡ true) xs × IsSorted xs

  -- No row has the key of another.
  abbrev pub DistinctKeys : List A → Type 0
  DistinctKeys [] = Unit
  DistinctKeys (x ∷ xs) = All (λ y. key x ≢ key y) xs × DistinctKeys xs

module _ {A K : Type 0} (key : A → K) (before : K → K → Bool) (P : A → Type 0) where
  insert_by-All : (a : A) (xs : List A) → P a → All P xs → All P (insert_by key before a xs)
  unfolding insert_by
  insert_by-All a [] p h = (p, tt)
  insert_by-All a (x ∷ xs) p h = elim (Bool-cases (before (key x) (key a))) [
    | inl e ↦ rw e (h.0, insert_by-All a xs p h.1)
    | inr e ↦ rw e (p, h)
  ]

  pub sort_by-All : (xs : List A) → All P xs → All P (sort_by key before xs)
  unfolding sort_by
  sort_by-All [] h = tt
  sort_by-All (x ∷ xs) h = insert_by-All x _ h.0 (sort_by-All xs h.1)

module _ {A K : Type 0} (key : A → K) (before : K → K → Bool) (order : IsOrder before) where
  insert_by-IsSorted :
      (a : A) (xs : List A)
      → All (λ y. key a ≢ key y) xs
      → IsSorted key before xs
      → IsSorted key before (insert_by key before a xs)
  unfolding insert_by
  insert_by-IsSorted a [] d s = (tt, tt)
  insert_by-IsSorted a (x ∷ xs) d s = elim (Bool-cases (before (key x) (key a))) [
    | inl e ↦ rw e (insert_by-All key before _ a xs e s.0, insert_by-IsSorted a xs d.1 s.1)
    | inr e ↦
        let first = order.total (key x) (key a) (λ q. d.0 (sym q)) e in
        rw e ((first, All-map _ _ (λ y h. order.trans (key a) (key x) (key y) first h) xs s.0), s)
  ]

  pub sort_by-IsSorted :
      (xs : List A) → DistinctKeys key before xs → IsSorted key before (sort_by key before xs)
  unfolding sort_by
  sort_by-IsSorted [] d = tt
  sort_by-IsSorted (x ∷ xs) d =
      insert_by-IsSorted x _ (sort_by-All key before _ xs d.0) (sort_by-IsSorted xs d.1)

swap-In :
    {A : Type 0} (a b x : A) (xs ys : List A)
    → In b ys ↔ In b (a ∷ xs)
    → In b (x ∷ ys) ↔ In b (a ∷ x ∷ xs)
swap-In a b x xs ys ih = (to, from)
  where
    to : In b (x ∷ ys) → In b (a ∷ x ∷ xs)
    to (inl e) = inr (inl e)
    to (inr m) = elim (ih.0 m) [ inl e ↦ inl e | inr n ↦ inr (inr n) ]

    from : In b (a ∷ x ∷ xs) → In b (x ∷ ys)
    from (inl e) = inr (ih.1 (inl e))
    from (inr (inl e)) = inl e
    from (inr (inr m)) = inr (ih.1 (inr m))

module _ {A K : Type 0} (key : A → K) (before : K → K → Bool) where
  insert_by-In : (a b : A) (xs : List A) → In b (insert_by key before a xs) ↔ In b (a ∷ xs)
  unfolding insert_by
  insert_by-In a b [] = (λ m. m, λ m. m)
  insert_by-In a b (x ∷ xs) = elim (Bool-cases (before (key x) (key a))) [
    | inl e ↦ rw e (swap-In a b x xs _ (insert_by-In a b xs))
    | inr e ↦ rw e (λ m. m, λ m. m)
  ]

  pub sort_by-In : (b : A) (xs : List A) → In b (sort_by key before xs) ↔ In b xs
  unfolding sort_by
  sort_by-In b [] = (λ m. m, λ m. m)
  sort_by-In b (x ∷ xs) =
      let step = insert_by-In x b (sort_by key before xs) in
      let rest = sort_by-In b xs in
      (
        λ m. elim (step.0 m) [ inl e ↦ inl e | inr n ↦ inr (rest.0 n) ],
        λ m. step.1 (elim m [ inl e ↦ inl e | inr n ↦ inr (rest.1 n) ]),
      )
