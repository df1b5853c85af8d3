-- ===== src/JobQueue/Order.antt =====
-- internal/adapter/postgres/job_queue.go: the row that Dequeue selects is free and the earliest one.
use scoreplay_media_api.Prelude.{
  ◌≤◌, ◌≡◌, ap, ◌∙◌, inl, inr, Bool, true, false, not, ◌&&◌, List, [], ◌∷◌, Option, none, some, All,
  All-map, In, filter, ltb, arith, Bool-cases,
}
use mathlib.Core.Path.{subst}
use scoreplay_media_api.Domain.{Uuid, Time}
use scoreplay_media_api.Database.{JobRow}
use scoreplay_media_api.Paging.{insert_by, sort_by}
use scoreplay_media_api.Paging.Order.{sort_by-In}
use scoreplay_media_api.JobQueue.{is_due, first, next_due}

module _ {A : Type 0} (p : A → Bool) where
  pub In-filter : (a : A) (xs : List A) → In a (filter p xs) → In a xs × (p a ≡ true)
  unfolding filter
  In-filter a [] m = absurd m
  In-filter a (x ∷ xs) m = elim (Bool-cases (p x)) [
    | inl e ↦ elim (rw (e, filter) at m) [
      | inl q ↦ (inl q, ap p q ∙ e)
      | inr n ↦ let (k, h) = In-filter a xs n in (inr k, h)
    ]
    | inr e ↦ let (k, h) = In-filter a xs (rw (e, filter) at m) in (inr k, h)
  ]

In-first : (s : JobRow) (rows : List JobRow) → first rows ≡ some s → In s rows
In-first s [] h = absurd (clash h)
  where
    clash : ◌≡◌ {A = Option JobRow} none (some s) → ⊥
    clash h = cc
In-first s (r ∷ rows) h = inl cc

pub next_due-In :
    (locked : Uuid → Bool) (now : Time) (rows : List JobRow) (s : JobRow)
    → next_due locked now rows ≡ some s
    → In s rows × ((is_due now s && not (locked s.id)) ≡ true)
unfolding next_due
next_due-In locked now rows s h =
    In-filter _ s rows ((sort_by-In (λ r. r.scheduled_at) ltb s _).0 (In-first s _ h))

abbrev pub due_time : JobRow → Time
due_time r = r.scheduled_at

-- The first row is scheduled no later than the given one.
abbrev pub StartsBy : JobRow → List JobRow → Type 0
StartsBy r [] = ⊥
StartsBy r (s ∷ rows) = s.scheduled_at ≤ r.scheduled_at

insert_by-StartsBy_self :
    (a : JobRow) (rows : List JobRow) → StartsBy a (insert_by due_time ltb a rows)
unfolding insert_by
insert_by-StartsBy_self a [] = omega arith
insert_by-StartsBy_self a (x ∷ rows) = elim (Bool-cases (ltb x.scheduled_at a.scheduled_at)) [
  | inl e ↦ rw e (ground arith)
  | inr e ↦ rw e (omega arith)
]

insert_by-StartsBy :
    (a r : JobRow) (rows : List JobRow)
    → StartsBy r rows
    → StartsBy r (insert_by due_time ltb a rows)
unfolding insert_by
insert_by-StartsBy a r [] h = absurd h
insert_by-StartsBy a r (x ∷ rows) h = elim (Bool-cases (ltb x.scheduled_at a.scheduled_at)) [
  | inl e ↦ rw e h
  | inr e ↦ rw e (ground arith)
]

sort_by-StartsBy : (rows : List JobRow) → All (λ r. StartsBy r (sort_by due_time ltb rows)) rows
unfolding sort_by
sort_by-StartsBy [] = tt
sort_by-StartsBy (x ∷ rows) = (
  insert_by-StartsBy_self x (sort_by due_time ltb rows),
  All-map _ _ (λ r h. insert_by-StartsBy x r _ h) rows (sort_by-StartsBy rows),
)

module _ {A : Type 0} (P : A → Type 0) (p : A → Bool) where
  All-of_filter : (xs : List A) → All P (filter p xs) → All (λ a. p a ≡ true → P a) xs
  unfolding filter
  All-of_filter [] h = tt
  All-of_filter (x ∷ xs) h = elim (Bool-cases (p x)) [
    | inl e ↦ let k = rw (e, filter) at h in (λ _. k.0, All-of_filter xs k.1)
    | inr e ↦ (λ f. absurd (clash f e), All-of_filter xs (rw (e, filter) at h))
  ]
    where
      clash : p x ≡ true → p x ≡ false → ⊥
      clash f e = ground arith

first-StartsBy :
    (s r : JobRow) (rows : List JobRow)
    → first rows ≡ some s
    → StartsBy r rows
    → s.scheduled_at ≤ r.scheduled_at
first-StartsBy s r [] e h = absurd h
first-StartsBy s r (x ∷ rows) e h =
    let same : x ≡ s = cc in subst (λ t. t.scheduled_at ≤ r.scheduled_at) same h

-- May be taken: pending, due and not locked by another transaction.
abbrev pub is_free : (Uuid → Bool) → Time → JobRow → Bool
is_free locked now r = is_due now r && not (locked r.id)

module _ (locked : Uuid → Bool) (now : Time) (rows : List JobRow) where
  pub next_due_first :
      (s : JobRow)
      → next_due locked now rows ≡ some s
      → All (λ r. is_free locked now r ≡ true → s.scheduled_at ≤ r.scheduled_at) rows
  unfolding next_due
  next_due_first s e = All-of_filter _ (is_free locked now) rows (
      All-map _ _ (λ r h. first-StartsBy s r _ e h) _
        (sort_by-StartsBy (filter (is_free locked now) rows)))
