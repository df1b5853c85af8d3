-- ===== src/TagRepo/Names.antt =====
-- internal/adapter/postgres/tag_repo.go: the names of a tenant's tags, as a map from ids.
use scoreplay_media_api.Prelude.{
  ◌≡◌, ◌≢◌, refl, sym, ap, ◌∙◌, inl, inr, true, false, not, ◌&&◌, List, [], ◌∷◌, map, Option, none,
  some, Text, text_eq, text_eq→eq, eq→text_eq, In, Distinct, any, any→In, find, filter, arith,
  Bool-cases, ◌==◌, if◌then◌else◌,
}
use mathlib.Core.Path.{subst}
use scoreplay_media_api.Domain.{Uuid}
use scoreplay_media_api.Database.{TagRow}
use scoreplay_media_api.TagRepo.{named, owned, renamed}

-- The name of a tag, if the tenant has it.
unfoldable pub name_of : Uuid → List TagRow → Uuid → Option Text
name_of tenant [] i = none
name_of tenant (r ∷ rows) i =
    let rest = name_of tenant rows i in if owned tenant i r then some r.name else rest

abbrev pub Names : Type 0
Names = Uuid → Option Text

unfoldable pub update : Names → Uuid → Option Text → Names
update f id v i = if i == id then v else f i

abbrev pub Same : Names → Names → Type 0
Same f g = (i : Uuid) → g i ≡ f i

abbrev pub name_in : Option TagRow → Option Text
name_in none = none
name_in (some r) = some r.name

abbrev over : Text → Option Text → Option Text
over name none = none
over name (some old) = some name

module _ (tenant : Uuid) where
  pub find-name_of :
      (i : Uuid) (rows : List TagRow) → name_of tenant rows i ≡ name_in (find (owned tenant i) rows)
  unfolding name_of find
  find-name_of i [] = refl
  find-name_of i (r ∷ rows) = elim (Bool-cases (owned tenant i r)) [
    | inl e ↦ rw e refl
    | inr e ↦ rw e (find-name_of i rows)
  ]

  name_of-map :
      (id i : Uuid) (name : Text) (rows : List TagRow)
      → name_of tenant (map (renamed tenant id name) rows) i
        ≡ (if i == id then over name (name_of tenant rows id) else name_of tenant rows i)
  unfolding name_of
  name_of-map id i name [] = ground arith
  name_of-map id i name (r ∷ rows) =
      let ih = name_of-map id i name rows in
      elim (Bool-cases (owned tenant id r)) [
        | inl e ↦ elim (Bool-cases (i == id)) [
          | inl k ↦ let j : owned tenant i r ≡ true = ground arith in rw (e, k, j, name_of) refl
          | inr k ↦
              let j : owned tenant i r ≡ false = ground arith in rw (e, k, j, name_of) (rw k at ih)
        ]
        | inr e ↦ elim (Bool-cases (i == id)) [
          | inl k ↦
              let j : owned tenant i r ≡ false = ground arith in rw (e, k, j, name_of) (rw k at ih)
          | inr k ↦ elim (Bool-cases (owned tenant i r)) [
            | inl j ↦ rw (e, k, j, name_of) refl
            | inr j ↦ rw (e, k, j, name_of) (rw k at ih)
          ]
        ]
      ]

  -- A renaming updates the map at an id that is there.
  pub name_of-renamed :
      (id i : Uuid) (name old : Text) (rows : List TagRow)
      → name_of tenant rows id ≡ some old
      → name_of tenant (map (renamed tenant id name) rows) i
        ≡ update (name_of tenant rows) id (some name) i
  unfolding update
  name_of-renamed id i name old rows h = name_of-map id i name rows ∙ rw h refl

  pub name_of-filter :
      (id i : Uuid) (rows : List TagRow)
      → name_of tenant (filter (λ r. not (owned tenant id r)) rows) i
        ≡ update (name_of tenant rows) id none i
  unfolding name_of filter update
  name_of-filter id i [] = ground arith
  name_of-filter id i (r ∷ rows) =
      let ih = name_of-filter id i rows in
      elim (Bool-cases (owned tenant id r)) [
        | inl e ↦ elim (Bool-cases (i == id)) [
          | inl k ↦ rw (e, k, update) (rw (k, update) at ih)
          | inr k ↦
              let j : owned tenant i r ≡ false = ground arith in
              rw (e, k, update, j) (rw (k, update) at ih)
        ]
        | inr e ↦ elim (Bool-cases (i == id)) [
          | inl k ↦
              let j : owned tenant i r ≡ false = ground arith in
              rw (e, k, update, j) (rw (k, update) at ih)
          | inr k ↦ elim (Bool-cases (owned tenant i r)) [
            | inl j ↦ rw (e, k, update, j) refl
            | inr j ↦ rw (e, k, update, j) (rw (k, update) at ih)
          ]
        ]
      ]

  In-ids : (r : TagRow) (rows : List TagRow) → In r rows → In r.id (map (λ s. s.id) rows)
  In-ids r [] m = absurd m
  In-ids r (x ∷ rows) (inl e) = inl (ap (λ (s : TagRow). s.id) e)
  In-ids r (x ∷ rows) (inr m) = inr (In-ids r rows m)

  pub name_of-In :
      (r : TagRow) (rows : List TagRow)
      → Distinct (map (λ s. s.id) rows)
      → In r rows
      → r.tenant_id ≡ tenant
      → name_of tenant rows r.id ≡ some r.name
  unfolding name_of
  name_of-In r [] d m h = absurd m
  name_of-In r (x ∷ rows) d (inl e) h =
      let mine : owned tenant r.id r ≡ true = ground arith in
      subst (λ (y : TagRow). name_of tenant (y ∷ rows) r.id ≡ some r.name) e (rw mine refl)
  name_of-In r (x ∷ rows) d (inr m) h =
      let other : owned tenant r.id x ≡ false = not_first in rw other (name_of-In r rows d.1 m h)
    where
      not_first : owned tenant r.id x ≡ false
      not_first = elim (Bool-cases (owned tenant r.id x)) [
        | inl e ↦
            let q : x.id ≡ r.id = ground arith in
            absurd (d.0 (subst (λ i. In i (map (λ s. s.id) rows)) (sym q) (In-ids r rows m)))
        | inr e ↦ e
      ]

  -- Another tag has the name, or none has.
  pub taken_by :
      (id : Uuid) (name : Text) (rows : List TagRow)
      → Distinct (map (λ s. s.id) rows)
      → any (λ r. named tenant name r && not (r.id == id)) rows ≡ true
      → (other : Uuid) × (other ≢ id) × (name_of tenant rows other ≡ some name)
  taken_by id name rows d h =
      let (r, m, e) = any→In (λ r. named tenant name r && not (r.id == id)) rows h in
      let mine : r.tenant_id ≡ tenant = ground arith in
      let same : text_eq r.name name ≡ true = ground arith in
      let other : (r.id == id) ≡ false = ground arith in
      (r.id, λ q. ground arith, name_of-In r rows d m mine ∙ ap some (text_eq→eq r.name name same))

  pub taken_by_none :
      (id : Uuid) (name : Text) (rows : List TagRow)
      → any (λ r. named tenant name r && not (r.id == id)) rows ≡ false
      → (other : Uuid) → other ≢ id
      → name_of tenant rows other ≢ some name
  unfolding name_of any
  taken_by_none id name [] h other ne q = cc
  taken_by_none id name (r ∷ rows) h other ne q = elim (Bool-cases (owned tenant other r)) [
    | inl e ↦
        let p : some r.name ≡ some name = rw e at q in
        let n : r.name ≡ name = cc in
        let equal : text_eq r.name name ≡ true = eq→text_eq r.name name n in ground arith
    | inr e ↦ taken_by_none id name rows (ground arith) other ne (rw e at q)
  ]

  pub named_by_none :
      (name : Text) (rows : List TagRow)
      → any (named tenant name) rows ≡ false
      → (i : Uuid) → name_of tenant rows i ≢ some name
  unfolding name_of any
  named_by_none name [] h i q = cc
  named_by_none name (r ∷ rows) h i q = elim (Bool-cases (owned tenant i r)) [
    | inl e ↦
        let p : some r.name ≡ some name = rw e at q in
        let n : r.name ≡ name = cc in
        let equal : text_eq r.name name ≡ true = eq→text_eq r.name name n in ground arith
    | inr e ↦ named_by_none name rows (ground arith) i (rw e at q)
  ]

  pub name_of_absent :
      (id : Uuid) (rows : List TagRow)
      → any (λ r. r.id == id) rows ≡ false
      → name_of tenant rows id ≡ none
  unfolding name_of any
  name_of_absent id [] h = refl
  name_of_absent id (r ∷ rows) h =
      let other : owned tenant id r ≡ false = ground arith in
      rw other (name_of_absent id rows (ground arith))

  -- A new row updates the map at its id.
  pub name_of-cons :
      (r : TagRow) (rows : List TagRow) (i : Uuid)
      → r.tenant_id ≡ tenant
      → name_of tenant (r ∷ rows) i ≡ update (name_of tenant rows) r.id (some r.name) i
  unfolding name_of update
  name_of-cons r rows i h = elim (Bool-cases (i == r.id)) [
    | inl k ↦ let j : owned tenant i r ≡ true = ground arith in rw (j, k) refl
    | inr k ↦ let j : owned tenant i r ≡ false = ground arith in rw (j, k) refl
  ]
