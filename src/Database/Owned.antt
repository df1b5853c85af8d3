-- ===== src/Database/Owned.antt =====
-- Rows with an id and a tenant: insertion and deletion by one tenant, as another tenant sees them.
use scoreplay_media_api.Prelude.{
  ◌≡◌, ◌≢◌, refl, sym, ap, ◌∙◌, inl, inr, Bool, true, not, ◌&&◌, List, [], ◌∷◌, map, All, In,
  Distinct, any, any→In, filter, arith, Bool-cases, ◌==◌,
}
use scoreplay_media_api.Domain.{Uuid}

module _ {A K : Type 0} (f : A → K) where
  In-map : (a : A) (xs : List A) → In a xs → In (f a) (map f xs)
  In-map a [] m = m
  In-map a (x ∷ xs) (inl e) = inl (ap f e)
  In-map a (x ∷ xs) (inr m) = inr (In-map a xs m)

  pub same_key :
      (a b : A) (xs : List A) → Distinct (map f xs) → In a xs → In b xs → f a ≡ f b → a ≡ b
  same_key a b [] d m n e = absurd m
  same_key a b (x ∷ xs) d (inl p) (inl q) e = p ∙ sym q
  same_key a b (x ∷ xs) d (inl p) (inr n) e = absurd (d.0 (rw (ap f (sym p) ∙ e) (In-map b xs n)))
  same_key a b (x ∷ xs) d (inr m) (inl q) e =
      absurd (d.0 (rw (ap f (sym q) ∙ sym e) (In-map a xs m)))
  same_key a b (x ∷ xs) d (inr m) (inr n) e = same_key a b xs d.1 m n e

module _ {R : Type 0} (rid rtenant : R → Uuid) where
  -- WHERE id = … AND tenant_id = …
  abbrev pub is_row : Uuid → Uuid → R → Bool
  is_row tenant id r = rid r == id && rtenant r == tenant

  abbrev pub of_tenant : Uuid → List R → List R
  of_tenant u = filter (λ r. rtenant r == u)

  pub of_tenant-foreign :
      (u : Uuid) (r : R) (rows : List R) → u ≢ rtenant r → of_tenant u (r ∷ rows) ≡ of_tenant u rows
  unfolding filter
  of_tenant-foreign u r rows ne = ground arith

  -- A tenant's deletion leaves the rows of another tenant.
  pub of_tenant-delete :
      (tenant u id : Uuid) (rows : List R)
      → u ≢ tenant
      → of_tenant u (filter (λ r. not (is_row tenant id r)) rows) ≡ of_tenant u rows
  unfolding filter
  of_tenant-delete tenant u id [] ne = refl
  of_tenant-delete tenant u id (r ∷ rows) ne = elim (Bool-cases (is_row tenant id r)) [
    | inl e ↦ ground (arith, of_tenant-delete tenant u id rows ne)
    | inr e ↦ rw (e, filter) (ground (arith, of_tenant-delete tenant u id rows ne))
  ]

  -- The id decides the tenant.
  pub row_tenant :
      (t u id : Uuid) (rows : List R)
      → Distinct (map rid rows)
      → any (is_row t id) rows ≡ true
      → any (is_row u id) rows ≡ true
      → t ≡ u
  row_tenant t u id rows d h k =
      let (a, m, p) = any→In (is_row t id) rows h in
      let (b, n, q) = any→In (is_row u id) rows k in
      tenants a b p q (same_key rid a b rows d m n (ids a b p q))
    where
      ids : (a b : R) → is_row t id a ≡ true → is_row u id b ≡ true → rid a ≡ rid b
      ids a b p q = ground arith

      tenants : (a b : R) → is_row t id a ≡ true → is_row u id b ≡ true → a ≡ b → t ≡ u
      tenants a b p q e = ground (arith, ap rtenant e)

module _ {R : Type 0} (rid rtenant : R → Uuid) where
  -- What points at a tenant's row, by id and tenant, is not another tenant's.
  pub pointer_tenant :
      (t u pt pid id : Uuid) (rows : List R)
      → Distinct (map rid rows)
      → any (is_row rid rtenant t id) rows ≡ true
      → u ≢ t
      → any (is_row rid rtenant pt pid) rows ≡ true
      → (pid == id) ≡ true
      → u ≢ pt
  pointer_tenant t u pt pid id rows d h ne k e q =
      let same : pid ≡ id = ground arith in
      ne (q ∙ sym (row_tenant rid rtenant t pt id rows d h (rw same at k)))

-- Rows taken out of a list that are none of the tenant's.
module _ {R : Type 0} (rtenant : R → Uuid) (gone : R → Bool) where
  pub of_tenant-cascade :
      (u : Uuid) (rows : List R)
      → All (λ r. gone r ≡ true → u ≢ rtenant r) rows
      → filter (λ r. rtenant r == u) (filter (λ r. not (gone r)) rows)
        ≡ filter (λ r. rtenant r == u) rows
  unfolding filter
  of_tenant-cascade u [] h = refl
  of_tenant-cascade u (r ∷ rows) h = elim (Bool-cases (gone r)) [
    | inl e ↦ rw e (ground (arith, h.0 e, of_tenant-cascade u rows h.1))
    | inr e ↦ rw (e, filter) (ground (arith, of_tenant-cascade u rows h.1))
  ]
