-- ===== src/MediaRepo/Listing/Matching.antt =====
-- internal/adapter/postgres/media_repo.go: a filter on several tags asks for all of them.
use scoreplay_media_api.Prelude.{
  ℕ, ◌+◌, ◌≤◌, ◌≡◌, refl, sym, ap, ◌∙◌, ◌↔◌, inl, inr, Bool, true, false, ◌&&◌, ◌||◌, List, [], ◌∷◌,
  map, All, All-of_In, In, Distinct, In→any, any→In, any, filter, length, arith, Bool-cases, ◌==◌,
  if◌then◌else◌,
}
use mathlib.Core.Path.{subst}
use scoreplay_media_api.Domain.{Uuid}
use scoreplay_media_api.Database.{MediaRow, LinkRow}
use scoreplay_media_api.MediaRepo.Listing.{count_distinct, among, links_by_id, matches_ids}

-- How many of the ids stand in a list.
abbrev covered : List Uuid → List Uuid → ℕ
covered xs [] = 0
covered xs (i ∷ ids) = let n = covered xs ids in if among xs i then n + 1 else n

apart : (x i : Uuid) → (x ≡ i → ⊥) → (x == i) ≡ false
apart x i f = elim (Bool-cases (x == i)) [ inl e ↦ absurd (f (ground arith)) | inr e ↦ e ]

-- A new value covers one id more, where it stands, and no other.
covered_absent :
    (x : Uuid) (xs ids : List Uuid) → ¬ In x ids → covered (x ∷ xs) ids ≡ covered xs ids
unfolding any
covered_absent x xs [] h = refl
covered_absent x xs (i ∷ ids) h =
    let ne : (x == i) ≡ false = apart x i (λ e. h (inl e)) in
    let ih = covered_absent x xs ids (λ m. h (inr m)) in ground arith

covered_present :
    (x : Uuid) (xs ids : List Uuid)
    → Distinct ids
    → In x ids
    → among xs x ≡ false
    → covered (x ∷ xs) ids ≡ covered xs ids + 1
unfolding any
covered_present x xs [] d m h = absurd m
covered_present x xs (i ∷ ids) d (inl e) h =
    let ih = covered_absent x xs ids (λ m. d.0 (rw (sym e) m)) in ground (arith, e, ih)
covered_present x xs (i ∷ ids) d (inr m) h =
    let ih = covered_present x xs ids d.1 m h in
    let ne : (x == i) ≡ false = apart x i (λ e. d.0 (rw (sym e) m)) in ground arith

covered_again :
    (x : Uuid) (xs ids : List Uuid) → among xs x ≡ true → covered (x ∷ xs) ids ≡ covered xs ids
unfolding any
covered_again x xs [] h = refl
covered_again x xs (i ∷ ids) h =
    let ih = covered_again x xs ids h in
    elim (Bool-cases (x == i)) [
      | inl e ↦
          let k : among xs i ≡ true = subst (λ j. among xs j ≡ true) (same e) h in ground arith
      | inr e ↦ ground arith
    ]
  where
    same : (x == i) ≡ true → x ≡ i
    same e = ground arith

covered_none : (ids : List Uuid) → covered [] ids ≡ 0
unfolding any
covered_none [] = refl
covered_none (i ∷ ids) = covered_none ids

-- The distinct values of a list of ids are the ids that it covers.
count_distinct_lem :
    (xs ids : List Uuid)
    → Distinct ids
    → All (λ x. In x ids) xs
    → count_distinct xs ≡ covered xs ids
unfolding count_distinct
count_distinct_lem [] ids d h = sym (covered_none ids)
count_distinct_lem (x ∷ xs) ids d h =
    let ih = count_distinct_lem xs ids d h.1 in
    elim (Bool-cases (among xs x)) [
      | inl e ↦ rw e (ih ∙ sym (covered_again x xs ids e))
      | inr e ↦ rw e (ap (λ n. n + 1) ih ∙ sym (covered_present x xs ids d h.0 e))
    ]

covered_most : (xs ids : List Uuid) → covered xs ids ≤ length ids
covered_most xs [] = omega arith
covered_most xs (i ∷ ids) = let ih = covered_most xs ids in ground arith

all_covered : (xs ids : List Uuid) → covered xs ids ≡ length ids → All (λ i. among xs i ≡ true) ids
all_covered xs [] e = tt
all_covered xs (i ∷ ids) e = elim (Bool-cases (among xs i)) [
  | inl f ↦ (f, all_covered xs ids (one_less f))
  | inr f ↦ absurd (too_few f)
]
  where
    one_less : among xs i ≡ true → covered xs ids ≡ length ids
    one_less f = ground arith

    too_few : among xs i ≡ false → ⊥
    too_few f = let k = covered_most xs ids in ground arith

covered_all : (xs ids : List Uuid) → All (λ i. among xs i ≡ true) ids → covered xs ids ≡ length ids
covered_all xs [] h = refl
covered_all xs (i ∷ ids) h = let ih = covered_all xs ids h.1 in rw h.0 (omega (arith, ih))

drop : (b c : Bool) → c ≡ ((b && false) || c)
drop true c = refl
drop false c = refl

In-All : (P : Uuid → Type 0) (i : Uuid) (ids : List Uuid) → All P ids → In i ids → P i
In-All P i [] h m = absurd m
In-All P i (x ∷ ids) h (inl e) = subst P (sym e) h.0
In-All P i (x ∷ ids) h (inr m) = In-All P i ids h.1 m

abbrev pub link_tag : LinkRow → Uuid
link_tag l = l.tag_id

-- A link of a media item to a tag.
abbrev pub links_to : Uuid → Uuid → LinkRow → Bool
links_to media i l = l.media_id == media && l.tag_id == i

module _ (media : Uuid) (ids : List Uuid) where
  links_by_id-In :
      (links : List LinkRow) → All (λ x. In x ids) (map link_tag (links_by_id media ids links))
  unfolding links_by_id filter
  links_by_id-In [] = tt
  links_by_id-In (l ∷ links) = elim (Bool-cases (l.media_id == media && among ids l.tag_id)) [
    | inl e ↦ rw e (member (any→In (λ j. j == l.tag_id) ids (second_test e)), links_by_id-In links)
    | inr e ↦ rw e (links_by_id-In links)
  ]
    where
      second_test : (l.media_id == media && among ids l.tag_id) ≡ true → among ids l.tag_id ≡ true
      second_test e = ground arith

      member : (a : Uuid) × In a ids × ((a == l.tag_id) ≡ true) → In l.tag_id ids
      member (a, m, e) = let q : a ≡ l.tag_id = ground arith in subst (λ x. In x ids) q m

  -- An id of the filter is covered if a link of the media item names it.
  among-links_by_id :
      (i : Uuid) (links : List LinkRow)
      → among ids i ≡ true
      → among (map link_tag (links_by_id media ids links)) i ≡ any (links_to media i) links
  unfolding links_by_id filter any
  among-links_by_id i [] m = refl
  among-links_by_id i (l ∷ links) m =
      let ih = among-links_by_id i links m in
      elim (Bool-cases (l.tag_id == i)) [
        | inl e ↦
            let q : l.tag_id ≡ i = ground arith in
            let k : among ids l.tag_id ≡ true = rw q m in
            elim (Bool-cases (l.media_id == media)) [
              | inl f ↦ rw (f, k, any, e) refl
              | inr f ↦ rw (f, any) ih
            ]
        | inr e ↦ elim (Bool-cases (l.media_id == media && among ids l.tag_id)) [
          | inl f ↦ rw (f, any, e) (ih ∙ drop (l.media_id == media) _)
          | inr f ↦ rw (f, any, e) (ih ∙ drop (l.media_id == media) _)
        ]
      ]

equal_from : (a b : ℕ) → (a == b) ≡ true → a ≡ b
equal_from a b h = ground arith

equal_to : (a b : ℕ) → a ≡ b → (a == b) ≡ true
equal_to a b h = ground arith

-- A media item passes the filter on tag ids exactly when for every id of the filter there is a row of
-- `media_tags` that links the item to it. The ids of the filter are distinct, as the service makes
-- them.
pub matches_ids_iff :
    (ids : List Uuid) (links : List LinkRow) (m : MediaRow)
    → Distinct ids
    → (matches_ids ids links m ≡ true) ↔ All (λ i. any (links_to m.id i) links ≡ true) ids
unfolding matches_ids
matches_ids_iff ids links m d = (to, from)
  where
    found : List Uuid
    found = map link_tag (links_by_id m.id ids links)

    counts : count_distinct found ≡ covered found ids
    counts = count_distinct_lem found ids d (links_by_id-In m.id ids links)

    same : (i : Uuid) → In i ids → among found i ≡ any (links_to m.id i) links
    same i k = among-links_by_id m.id ids i links (In→any (λ j. j == i) i ids k (ground arith))

    to : matches_ids ids links m ≡ true → All (λ i. any (links_to m.id i) links ≡ true) ids
    to h =
        let e = sym counts ∙ equal_from (count_distinct found) (length ids) h in
        let all = all_covered found ids e in
        All-of_In _ ids (λ i k. sym (same i k) ∙ In-All _ i ids all k)

    from : All (λ i. any (links_to m.id i) links ≡ true) ids → matches_ids ids links m ≡ true
    from h =
        let e = covered_all found ids (All-of_In _ ids (λ i k. same i k ∙ In-All _ i ids h k)) in
        equal_to (count_distinct found) (length ids) (counts ∙ e)
