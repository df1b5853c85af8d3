-- ===== src/Upload/Dedupe.antt =====
-- internal/service/media_service.go: what deduplicateUUIDs keeps.
use scoreplay_media_api.Prelude.{
  ◌≡◌, refl, ap, ◌↔◌, ◌⊎◌, inl, inr, Bool, true, false, List, [], ◌∷◌, In, Distinct, any→In, In→any,
  Bool-cases, ◌==◌, ==_iff,
}
use scoreplay_media_api.Domain.{Uuid}
use scoreplay_media_api.Upload.{is_in, dedupe_from, deduplicate_uuids}

-- The first list is the second with some entries left out.
pub data Sublist {A : Type 0} : List A → List A → Type 0 where
  nil : Sublist [] []
  keep : {x : A} {xs ys : List A} → Sublist xs ys → Sublist (x ∷ xs) (x ∷ ys)
  skip : {x : A} {xs ys : List A} → Sublist xs ys → Sublist xs (x ∷ ys)

regroup :
    {A : Type 0} (a x : A) (seen out : List A)
    → In a (x ∷ seen) ⊎ In a out
    → In a seen ⊎ In a (x ∷ out)
regroup a x seen out (inl (inl e)) = inr (inl e)
regroup a x seen out (inl (inr e)) = inl e
regroup a x seen out (inr e) = inr (inr e)

module _ {A : Type 0} (eq : A → A → Bool) (eq_iff : (a b : A) → (eq a b ≡ true) ↔ (a ≡ b)) where
  is_in→In : (a : A) (xs : List A) → is_in eq a xs ≡ true → In a xs
  is_in→In a xs h = let (b, m, e) = any→In (eq a) xs h in rw ((eq_iff a b).0 e) m

  In→is-In : (a : A) (xs : List A) → In a xs → is_in eq a xs ≡ true
  In→is-In a xs m = In→any (eq a) a xs m ((eq_iff a a).1 refl)

  dedupe_from-Sublist : (seen xs : List A) → Sublist (dedupe_from eq seen xs) xs
  unfolding dedupe_from
  dedupe_from-Sublist seen [] = nil
  dedupe_from-Sublist seen (x ∷ xs) = elim (Bool-cases (is_in eq x seen)) [
    | inl e ↦ rw (e, dedupe_from) (skip (dedupe_from-Sublist seen xs))
    | inr e ↦ rw (e, dedupe_from) (keep (dedupe_from-Sublist (x ∷ seen) xs))
  ]

  -- What the loop returns is new.
  dedupe_from-fresh : (seen xs : List A) (a : A) → In a (dedupe_from eq seen xs) → In a seen → ⊥
  unfolding dedupe_from
  dedupe_from-fresh seen [] a m n = absurd m
  dedupe_from-fresh seen (x ∷ xs) a m n = elim (Bool-cases (is_in eq x seen)) [
    | inl e ↦ dedupe_from-fresh seen xs a (rw (e, dedupe_from) at m) n
    | inr e ↦ split e (rw (e, dedupe_from) at m) (dedupe_from-fresh (x ∷ seen) xs a)
  ]
    where
      split :
          is_in eq x seen ≡ false
          → In a (x ∷ dedupe_from eq (x ∷ seen) xs)
          → (In a (dedupe_from eq (x ∷ seen) xs) → In a (x ∷ seen) → ⊥)
          → ⊥
      split e (inl k) rec = cc (e, In→is-In x seen (rw k at n))
      split e (inr k) rec = rec k (inr n)

  dedupe_from-Distinct : (seen xs : List A) → Distinct (dedupe_from eq seen xs)
  unfolding dedupe_from
  dedupe_from-Distinct seen [] = tt
  dedupe_from-Distinct seen (x ∷ xs) = elim (Bool-cases (is_in eq x seen)) [
    | inl e ↦ rw (e, dedupe_from) (dedupe_from-Distinct seen xs)
    | inr e ↦
        rw (e, dedupe_from)
          (λ m. dedupe_from-fresh (x ∷ seen) xs x m (inl refl), dedupe_from-Distinct (x ∷ seen) xs)
  ]

  -- Nothing is lost: what went in was seen before or comes out.
  dedupe_from_complete :
      (seen xs : List A) (a : A) → In a xs → In a seen ⊎ In a (dedupe_from eq seen xs)
  unfolding dedupe_from
  dedupe_from_complete seen [] a m = absurd m
  dedupe_from_complete seen (x ∷ xs) a (inl k) = elim (Bool-cases (is_in eq x seen)) [
    | inl e ↦ inl (rw k (is_in→In x seen e))
    | inr e ↦ rw (e, dedupe_from) (inr (inl k))
  ]
  dedupe_from_complete seen (x ∷ xs) a (inr k) = elim (Bool-cases (is_in eq x seen)) [
    | inl e ↦ rw (e, dedupe_from) (dedupe_from_complete seen xs a k)
    | inr e ↦ rw (e, dedupe_from) (regroup a x seen _ (dedupe_from_complete (x ∷ seen) xs a k))
  ]

Sublist-In : {A : Type 0} {xs ys : List A} (a : A) → Sublist xs ys → In a xs → In a ys
Sublist-In a nil m = m
Sublist-In a (keep s) (inl e) = inl e
Sublist-In a (keep s) (inr m) = inr (Sublist-In a s m)
Sublist-In a (skip s) m = inr (Sublist-In a s m)

-- The second list has the members of the first, each once, in the first list's order.
pub record IsDeduped {A : Type 0} (xs ys : List A) : Type 0 where
  pub distinct : Distinct ys
  pub ordered : Sublist ys xs
  pub same_members : (a : A) → In a ys ↔ In a xs

module _ {A : Type 0} (eq : A → A → Bool) (eq_iff : (a b : A) → (eq a b ≡ true) ↔ (a ≡ b)) where
  pub dedupe-IsDeduped : (xs : List A) → IsDeduped xs (dedupe_from eq [] xs)
  dedupe-IsDeduped xs = record {
    distinct = dedupe_from-Distinct eq eq_iff [] xs;
    ordered = dedupe_from-Sublist eq eq_iff [] xs;
    same_members = λ a. (
      Sublist-In a (dedupe_from-Sublist eq eq_iff [] xs),
      λ m. elim (dedupe_from_complete eq eq_iff [] xs a m) [ inl k ↦ absurd k | inr k ↦ k ],
    );
  }

  -- A list without repetition is returned as it is.
  pub dedupe_fixed :
      (seen xs : List A)
      → Distinct xs
      → ((a : A) → In a xs → ¬ In a seen)
      → dedupe_from eq seen xs ≡ xs
  unfolding dedupe_from
  dedupe_fixed seen [] d f = refl
  dedupe_fixed seen (x ∷ xs) d f = elim (Bool-cases (is_in eq x seen)) [
    | inl e ↦ absurd (f x (inl refl) (is_in→In eq eq_iff x seen e))
    | inr e ↦
        rw (e, dedupe_from)
          (ap (λ t. x ∷ t)
            (dedupe_fixed (x ∷ seen) xs d.1
              (λ a m n. elim n [ inl k ↦ d.0 (rw (← k) m) | inr k ↦ f a (inr m) k ])))
  ]

-- deduplicateUUIDs returns every id of its input exactly once, and no other, in the order of the
-- input.
pub deduplicate_uuids-IsDeduped : (ids : List Uuid) → IsDeduped ids (deduplicate_uuids ids)
unfolding deduplicate_uuids
deduplicate_uuids-IsDeduped ids = dedupe-IsDeduped ◌==◌ ==_iff ids
