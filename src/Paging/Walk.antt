-- ===== src/Paging/Walk.antt =====
-- Following the cursors from the first page visits every row once, in order.
use scoreplay_media_api.Prelude.{
  ℕ, zero, suc, ◌+◌, ◌-◌, ◌≤◌, ◌<◌, ◌≡◌, refl, sym, ap, ◌∙◌, inl, inr, Bool, true, false, List, [],
  ◌∷◌, ◌++◌, Option, none, some, filter, take, length, length-take, All, ltb, lt→ltb, arith,
  Bool-cases,
}
use mathlib.Core.List.{append-nil, append_assoc}
use scoreplay_media_api.Paging.{get_elem?, sort_by, beyond, fetch, cut_page}
use scoreplay_media_api.Paging.Order.{IsOrder, IsSorted, DistinctKeys, sort_by-IsSorted}

module _ {A : Type 0} where
  abbrev pub flat : List (List A) → List A
  flat [] = []
  flat (p ∷ ps) = p ++ flat ps

  -- Where a full page of `l + 1` rows is cut out of the rows that are left.
  record Cut (l : ℕ) (rows : List A) : Type 0 where
    init : List A
    last : A
    rest : List A
    whole : rows ≡ init ++ (last ∷ rest)
    taken : take (suc l) (take (suc (suc l)) rows) ≡ init ++ (last ∷ [])
    at_end : get_elem? (take (suc (suc l)) rows) l ≡ some last
    shorter : length rest < length rows

  cut : (l : ℕ) (rows : List A) → suc l < length rows → Cut l rows
  cut l [] h = elim h [ ]
  cut l (x ∷ []) h = absurd (omega arith)
  cut zero (x ∷ y ∷ rows) h = record {
    init = [];
    last = x;
    rest = y ∷ rows;
    whole = refl;
    taken = refl;
    at_end = refl;
    shorter = omega arith;
  }
  cut (suc l) (x ∷ y ∷ rows) h =
      let c = cut l (y ∷ rows) (omega arith) in
      record {
        init = x ∷ c.init;
        last = c.last;
        rest = c.rest;
        whole = ap (λ t. x ∷ t) c.whole;
        taken = ap (λ t. x ∷ t) c.taken;
        at_end = c.at_end;
        shorter = omega (arith, c.shorter);
      }

  take_all : (n : ℕ) (xs : List A) → length xs ≤ n → take n xs ≡ xs
  take_all zero [] h = refl
  take_all zero (x ∷ xs) h = absurd (omega arith)
  take_all (suc n) [] h = refl
  take_all (suc n) (x ∷ xs) h = ap (λ t. x ∷ t) (take_all n xs (omega arith))

module _ {A K : Type 0} (key : A → K) (before : K → K → Bool) (order : IsOrder before) where
  not_after : (a b : K) → before a b ≡ true → before b a ≡ false
  not_after a b h = elim (Bool-cases (before b a)) [
    | inl e ↦ absurd (cc (order.trans a b a h e, order.irrefl a))
    | inr e ↦ e
  ]

  filter_later :
      (k : K) (xs : List A)
      → All (λ y. before k (key y) ≡ true) xs
      → filter (λ r. before k (key r)) xs ≡ xs
  unfolding filter
  filter_later k [] h = refl
  filter_later k (x ∷ xs) h = rw (h.0, filter_later k xs h.1)

  -- In a sorted list the rows beyond a row's key are those that stand after it.
  filter-IsSorted :
      (xs : List A) (a : A) (ys : List A)
      → IsSorted key before (xs ++ (a ∷ ys))
      → filter (λ r. before (key a) (key r)) (xs ++ (a ∷ ys)) ≡ ys
  unfolding filter
  filter-IsSorted [] a ys s = rw (order.irrefl (key a)) (filter_later (key a) ys s.0)
  filter-IsSorted (x ∷ xs) a ys s =
      rw (not_after (key x) (key a) (middle xs s.0)) (filter-IsSorted xs a ys s.1)
    where
      middle :
          (zs : List A)
          → All (λ y. before (key x) (key y) ≡ true) (zs ++ (a ∷ ys))
          → before (key x) (key a) ≡ true
      middle [] h = h.0
      middle (z ∷ zs) h = middle zs h.1

module _ {A K : Type 0} (key : A → K) (before : K → K → Bool) where
  -- What a request with a cursor is answered with.
  unfoldable pub page : ℕ → Option K → List A → List A × Option K
  page limit cursor rows = cut_page key limit (fetch key before limit cursor rows)

-- The pages of rows that come of passing every cursor back; `none` if the fuel ran out.
module _ {A K : Type 0} (key : A → K) (before : K → K → Bool) where
  abbrev pub onward : List A → Option K → (K → Option (List (List A))) → Option (List (List A))
  onward items none k = some (items ∷ [])
  onward items (some c) k = elim (k c) [ none ↦ none | some ps ↦ some (items ∷ ps) ]

  unfoldable pub pages : ℕ → ℕ → Option K → List A → Option (List (List A))
  pages zero limit cursor rows = none
  pages (suc fuel) limit cursor rows =
      let (items, next) = page key before limit cursor rows in
      onward items next (λ c. pages fuel limit (some c) rows)

-- The pages are the given rows, and no page is longer than the limit.
pub record Tiles {A : Type 0} (limit : ℕ) (rows : List A) (r : Option (List (List A)))
    : Type 0 where
  pub list : List (List A)
  pub returned : r ≡ some list
  pub complete : flat list ≡ rows
  pub bounded : All (λ p. length p ≤ limit) list

Tiles-along :
    {A : Type 0} {limit : ℕ} {rows left : List A} (r : Option (List (List A)))
    → left ≡ rows
    → Tiles limit rows r
    → Tiles limit left r
Tiles-along r e t = rw e t

module _ {A K : Type 0} (key : A → K) (before : K → K → Bool) (limit : ℕ) where
  Tiles-onward :
      (items rest : List A) (k : K) (f : K → Option (List (List A)))
      → length items ≤ limit
      → Tiles limit rest (f k)
      → Tiles limit (items ++ rest) (onward key before items (some k) f)
  Tiles-onward items rest k f h t =
      rw (t.returned, onward)
        (record {
          list = items ∷ t.list;
          returned = refl;
          complete = ap (λ u. items ++ u) t.complete;
          bounded = (h, t.bounded);
        })

Cut-whole :
    {A : Type 0} {l : ℕ} {left : List A} (c : Cut l left)
    → left ≡ (c.init ++ (c.last ∷ [])) ++ c.rest
Cut-whole c = c.whole ∙ sym (append_assoc c.init (c.last ∷ []) c.rest)

Cut-short :
    {A : Type 0} {l : ℕ} {left : List A} (c : Cut l left) → length (c.init ++ (c.last ∷ [])) ≤ suc l
Cut-short {l} {left} c =
    omega (arith, ap length c.taken, length-take (suc l) (take (suc (suc l)) left))

module _ {A K : Type 0} (key : A → K) (before : K → K → Bool) (order : IsOrder before)
    (rows : List A) (l : ℕ) where
  fetch_left :
      (cursor : Option K) (left : List A)
      → beyond key before cursor (sort_by key before rows) ≡ left
      → fetch key before (suc l) cursor rows ≡ take (suc (suc l)) left
  unfolding fetch
  fetch_left cursor left e = let two : suc l + 1 ≡ suc (suc l) = omega arith in rw (e, two)

  cut_last : (left : List A) → length left ≤ suc l → cut_page key (suc l) left ≡ (left, none)
  unfolding cut_page
  cut_last left h = ground arith

  Cut-more :
      (left : List A) (c : Cut l left)
      → suc l < length left
      → cut_page key (suc l) (take (suc (suc l)) left)
        ≡ (c.init ++ (c.last ∷ []), some (key c.last))
  unfolding cut_page
  Cut-more left c h =
      let one : suc l - 1 ≡ l = omega arith in
      let long : suc l < length (take (suc (suc l)) left) =
        omega (arith, length-take (suc (suc l)) left) in
      rw (lt→ltb _ _ long, c.taken, one, c.at_end)

  page_last :
      (cursor : Option K) (left : List A)
      → beyond key before cursor (sort_by key before rows) ≡ left
      → length left ≤ suc l
      → page key before (suc l) cursor rows ≡ (left, none)
  unfolding page
  page_last cursor left e h =
      rw (fetch_left cursor left e, take_all (suc (suc l)) left (omega arith)) (cut_last left h)

  page_more :
      (cursor : Option K) (left : List A)
      → beyond key before cursor (sort_by key before rows) ≡ left
      → (c : Cut l left) → suc l < length left
      → page key before (suc l) cursor rows ≡ (c.init ++ (c.last ∷ []), some (key c.last))
  unfolding page
  page_more cursor left e c h = rw (fetch_left cursor left e) (Cut-more left c h)

  abbrev sorted : List A
  sorted = sort_by key before rows

  -- The rows beyond the last row of a page are those that are left.
  beyond_last :
      (pre left : List A) (c : Cut l left)
      → IsSorted key before sorted
      → sorted ≡ pre ++ left
      → beyond key before (some (key c.last)) sorted ≡ c.rest
  unfolding beyond
  beyond_last pre left c s e =
      let whole : sorted ≡ (pre ++ c.init) ++ (c.last ∷ c.rest) =
        e ∙ ap (λ t. pre ++ t) c.whole ∙ sym (append_assoc pre c.init (c.last ∷ c.rest)) in
      rw whole (filter-IsSorted key before order (pre ++ c.init) c.last c.rest (rw whole at s))

  pages-Tiles :
      (fuel : ℕ) (cursor : Option K) (pre left : List A)
      → IsSorted key before sorted
      → sorted ≡ pre ++ left
      → beyond key before cursor sorted ≡ left
      → length left < fuel
      → Tiles (suc l) left (pages key before fuel (suc l) cursor rows)
  unfolding pages
  pages-Tiles zero cursor pre left s e b h = absurd (omega arith)
  pages-Tiles (suc fuel) cursor pre left s e b h = elim (Bool-cases (ltb (suc l) (length left))) [
    | inr short ↦ rw (page_last cursor left b (ground arith)) (record {
      list = left ∷ [];
      returned = refl;
      complete = append-nil left;
      bounded = (ground arith, tt);
    })
    | inl long ↦
        let c = cut l left (ground arith) in
        let whole = e ∙ ap (λ t. pre ++ t) (Cut-whole c) in
        rw (page_more cursor left b c (ground arith)) (
          Tiles-along _ (Cut-whole c) (
            Tiles-onward key before (suc l) _ c.rest (key c.last)
              (λ k. pages key before fuel (suc l) (some k) rows) (Cut-short c)
              (pages-Tiles fuel (some (key c.last)) (pre ++ (c.init ++ (c.last ∷ []))) c.rest s
                (whole ∙ sym (append_assoc pre (c.init ++ (c.last ∷ [])) c.rest))
                (beyond_last pre left c s e) (omega (arith, c.shorter)))))
  ]

module _ {A K : Type 0} (key : A → K) (before : K → K → Bool) (order : IsOrder before) where
  -- Starting without a cursor and passing every next cursor back gives pages of at most
  -- `limit` rows, the last without a cursor, which together are the rows in key order; it takes one
  -- request more than there are rows at most. The keys are distinct, and the limit is not zero.
  pub pages_complete :
      (rows : List A) (limit fuel : ℕ)
      → DistinctKeys key before rows
      → 0 < limit
      → length (sort_by key before rows) < fuel
      → Tiles limit (sort_by key before rows) (pages key before fuel limit none rows)
  pages_complete rows zero fuel d p h = absurd (omega arith)
  pages_complete rows (suc l) fuel d p h =
      pages-Tiles key before order rows l fuel none [] (sort_by key before rows)
        (sort_by-IsSorted key before order rows d) refl (unfold beyond in refl) h
