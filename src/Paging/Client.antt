-- ===== src/Paging/Client.antt =====
-- A client of TagRepo.List or MediaRepo.List (internal/adapter/postgres), who passes every cursor that
-- it is given back until there is none.
use scoreplay_media_api.Prelude.{
  ℕ, zero, suc, ◌≤◌, ◌≡◌, refl, sym, ap, ◌∙◌, inl, inr, List, [], ◌∷◌, ◌++◌, map, Option, none,
  some, All, length, Option-cases, Bool,
}
use mathlib.Core.Path.{subst}
use scoreplay_media_api.Result.{Result, ok, err}
use scoreplay_media_api.Paging.Walk.{flat, page, onward, pages, Tiles}

module _ {K M : Type 0} (ask : Option K → Result (List M × Option K)) where
  abbrev gathered :
      Result (List M × Option K) → (K → Option (List (List M))) → Option (List (List M))
  gathered (err e) k = none
  gathered (ok (items, none)) k = some (items ∷ [])
  gathered (ok (items, some c)) k = elim (k c) [ none ↦ none | some ps ↦ some (items ∷ ps) ]

  -- The pages, or `none` if a request failed or the fuel ran out.
  pub walk : ℕ → Option K → Option (List (List M))
  walk zero cursor = none
  walk (suc fuel) cursor = gathered (ask cursor) (λ c. walk fuel (some c))

-- The pages are no longer than the limit, and what they show, in order, are the given values.
pub record Shows {M B : Type 0} (limit : ℕ) (view : M → B) (rows : List B)
    (r : Option (List (List M))) : Type 0 where
  pub list : List (List M)
  pub returned : r ≡ some list
  pub complete : map view (flat list) ≡ rows
  pub bounded : All (λ p. length p ≤ limit) list

module _ {A B : Type 0} (f : A → B) where
  map-append : (xs ys : List A) → map f (xs ++ ys) ≡ map f xs ++ map f ys
  map-append [] ys = refl
  map-append (x ∷ xs) ys = ap (λ t. f x ∷ t) (map-append xs ys)

  map-flat : (ps : List (List A)) → map f (flat ps) ≡ flat (map (map f) ps)
  map-flat [] = refl
  map-flat (p ∷ ps) = map-append p (flat ps) ∙ ap (λ t. map f p ++ t) (map-flat ps)

  length-map : (xs : List A) → length (map f xs) ≡ length xs
  length-map [] = refl
  length-map (x ∷ xs) = ap suc (length-map xs)

  bounded_map :
      (limit : ℕ) (ps : List (List A))
      → All (λ p. length p ≤ limit) ps
      → All (λ p. length p ≤ limit) (map (map f) ps)
  bounded_map limit [] h = tt
  bounded_map limit (p ∷ ps) h = (rw (length-map p) h.0, bounded_map limit ps h.1)

  bounded_of_map :
      (limit : ℕ) (ps : List (List A))
      → All (λ p. length p ≤ limit) (map (map f) ps)
      → All (λ p. length p ≤ limit) ps
  bounded_of_map limit [] h = tt
  bounded_of_map limit (p ∷ ps) h = (rw (← length-map p) h.0, bounded_of_map limit ps h.1)

module _ {A K M B : Type 0} (key : A → K) (before : K → K → Bool) (limit : ℕ) (rows : List A)
    (ask : Option K → Result (List M × Option K)) (view : M → B) (show : A → B) where
  -- Every request is answered with the page of its cursor, as the client views it.
  abbrev pub AnswersPages : Type 0
  AnswersPages =
      (c : Option K)
      → (ms : List M) × (ask c ≡ ok (ms, (page key before limit c rows).1))
        × (map view ms ≡ map show (page key before limit c rows).0)

  abbrev Seen : Option (List (List M)) → List (List A) → Type 0
  Seen w ps = (qs : List (List M)) × (w ≡ some qs) × (map (map view) qs ≡ map (map show) ps)

  one :
      (items : List A) (ps : List (List A))
      → ◌≡◌ {A = Option (List (List A))} (some (items ∷ [])) (some ps)
      → items ∷ [] ≡ ps
  one items ps e = cc

  more :
      (items : List A) (rest ps : List (List A))
      → ◌≡◌ {A = Option (List (List A))} (some (items ∷ rest)) (some ps)
      → items ∷ rest ≡ ps
  more items rest ps e = cc

  no_pages : (ps : List (List A)) → ◌≡◌ {A = Option (List (List A))} none (some ps) → ⊥
  no_pages ps e = cc

  module _ (answers : AnswersPages) where
    step-Seen :
        (fuel : ℕ) (items : List A) (next : Option K) (ms : List M) (ps : List (List A))
        → ((d : K) (rest : List (List A))
            → pages key before fuel limit (some d) rows ≡ some rest
            → Seen (walk ask fuel (some d)) rest)
        → map view ms ≡ map show items
        → onward key before items next (λ d. pages key before fuel limit (some d) rows) ≡ some ps
        → Seen (gathered ask (ok (ms, next)) (λ d. walk ask fuel (some d))) ps
    step-Seen fuel items none ms ps ih e h =
        (ms ∷ [], refl, ap (λ t. t ∷ []) e ∙ ap (map (map show)) (one items ps h))
    step-Seen fuel items (some d) ms ps ih e h =
        elim (Option-cases (pages key before fuel limit (some d) rows)) [
          | inl q ↦ absurd (no_pages ps (rw (q, onward) at h))
          | inr (rest, q) ↦
              let (qs, w, same) = ih d rest q in
              (
                ms ∷ qs,
                rw (w, gathered) refl,
                rw (e, same) (ap (map (map show)) (more items rest ps (rw (q, onward) at h))),
              )
        ]

    pages-Seen :
        (fuel : ℕ) (c : Option K) (ps : List (List A))
        → pages key before fuel limit c rows ≡ some ps
        → Seen (walk ask fuel c) ps
    unfolding pages walk
    pages-Seen zero c ps h = absurd (no_pages ps h)
    pages-Seen (suc fuel) c ps h =
        let (ms, a, e) = answers c in
        rw a (step-Seen fuel _ _ ms ps (λ d rest. pages-Seen fuel (some d) rest) e h)

    pub Tiles-Shows :
        (fuel : ℕ) (left : List A)
        → Tiles limit left (pages key before fuel limit none rows)
        → Shows limit view (map show left) (walk ask fuel none)
    Tiles-Shows fuel left t =
        let (qs, w, same) = pages-Seen fuel none t.list t.returned in
        record {
          list = qs;
          returned = w;
          complete =
              map-flat view qs
              ∙ ap flat same
              ∙ sym (map-flat show t.list)
              ∙ ap (map show) t.complete;
          bounded = bounded_of_map view limit qs (
              subst (All (λ p. length p ≤ limit)) (sym same)
                (bounded_map show limit t.list t.bounded));
        }
