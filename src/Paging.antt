-- ===== src/Paging.antt =====
-- The keyset pagination that TagRepo.List and MediaRepo.listInTx share (internal/adapter/postgres):
-- ORDER BY a key, rows beyond the cursor, one row more than the limit, and the next cursor.
pub mod Client
pub mod Order
pub mod Walk
use scoreplay_media_api.Prelude.{
  ℕ, zero, suc, ◌+◌, ◌-◌, Bool, true, false, List, [], ◌∷◌, ◌++◌, Option, none, some, filter, take,
  length, ltb, if◌then◌else◌,
}

module _ {ℓ} {A : Type ℓ} where
  abbrev pub get_elem? : List A → ℕ → Option A
  get_elem? [] i = none
  get_elem? (x ∷ xs) zero = some x
  get_elem? (x ∷ xs) (suc i) = get_elem? xs i

module _ {A K : Type 0} (key : A → K) where
  -- The row past the limit says that there is a next page, and is dropped.
  unfoldable pub cut_page : ℕ → List A → List A × Option K
  cut_page limit rows =
      if ltb limit (length rows)
      then (
        take limit rows,
        elim (get_elem? rows (limit - 1)) [ none ↦ none | some r ↦ some (key r) ],
      )
      else (rows, none)

module _ {A K : Type 0} (key : A → K) (before : K → K → Bool) where
  -- ORDER BY
  unfoldable pub insert_by : A → List A → List A
  insert_by a [] = a ∷ []
  insert_by a (x ∷ xs) =
      let rest = insert_by a xs in if before (key x) (key a) then x ∷ rest else a ∷ x ∷ xs

  unfoldable pub sort_by : List A → List A
  sort_by [] = []
  sort_by (x ∷ xs) = insert_by x (sort_by xs)

  -- The row comparison with the cursor, which is left out on the first page.
  unfoldable pub beyond : Option K → List A → List A
  beyond none rows = rows
  beyond (some k) rows = filter (λ r. before k (key r)) rows

  -- SELECT … ORDER BY … LIMIT limit + 1
  unfoldable pub fetch : ℕ → Option K → List A → List A
  fetch limit cursor rows = take (limit + 1) (beyond cursor (sort_by rows))
