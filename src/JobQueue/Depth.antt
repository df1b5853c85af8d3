-- ===== src/JobQueue/Depth.antt =====
-- internal/adapter/postgres/job_queue.go: Stats, the depth of the queue, and how it relates to Dequeue.
-- Ages are exact, where the code converts seconds in floating point.
use scoreplay_media_api.Prelude.{
  ℕ, ◌-◌, ◌≤◌, ◌≡◌, refl, sym, ap, ◌∙◌, inl, inr, Bool, true, false, List, [], ◌∷◌, length, filter,
  arith, Option, none, some, In, All, All-map, min, Bool-cases, Option-cases, if◌then◌else◌, ltb,
}
use scoreplay_media_api.Result.{Result, ok}
use scoreplay_media_api.Domain.{Uuid, Time}
use scoreplay_media_api.Database.{JobRow, Db, Env, statement, with_system_tx}
use scoreplay_media_api.Database.Steady.{steady, with_system_tx-steady}
use scoreplay_media_api.Paging.{insert_by, sort_by}
use scoreplay_media_api.JobQueue.{is_due, is_running, first, next_due}
use scoreplay_media_api.JobQueue.Order.{next_due-In}
use scoreplay_media_api.JobQueue.Order.{is_free, next_due_first}

pub record QueueStats : Type 0 where
  pub waiting : ℕ
  pub working : ℕ
  pub oldest_pending_age : ℕ

abbrev pub sooner : Time → Option Time → Time
sooner t none = t
sooner t (some u) = min t u

-- MIN(scheduled_at) FILTER (WHERE status = 'pending' AND scheduled_at <= now())
unfoldable earliest : Time → List JobRow → Option Time
earliest now [] = none
earliest now (r ∷ rs) =
    let rest = earliest now rs in if is_due now r then some (sooner r.scheduled_at rest) else rest

-- Zero for a NULL.
abbrev pub age_at : Time → Option Time → ℕ
age_at now none = 0
age_at now (some t) = now - t

unfoldable depth_of : Time → List JobRow → QueueStats
depth_of now rows = record {
  waiting = length (filter (is_due now) rows);
  working = length (filter (λ r. is_running r.status) rows);
  oldest_pending_age = age_at now (earliest now rows);
}

unfoldable count_jobs : Env → Uuid → Db → Result QueueStats × Db
count_jobs env id db = (ok (depth_of env.now db.jobs), db)

unfoldable pub stats : Env → Db → Result QueueStats × Db
unfolding count_jobs depth_of earliest
stats env db = with_system_tx (statement count_jobs) env db

abbrev pub unlocked : Uuid → Bool
unlocked id = false

-- The depth that fits what Dequeue would take if no row were locked.
pub data IsDepth (now : Time) : Option JobRow → QueueStats → Type 0 where
  is_empty_queue : (s : QueueStats) → s.waiting ≡ 0 → s.oldest_pending_age ≡ 0 → IsDepth now none s
  is_waiting :
      (r : JobRow) (s : QueueStats)
      → 1 ≤ s.waiting
      → s.oldest_pending_age ≡ now - r.scheduled_at
      → IsDepth now (some r) s

module _ (now m : Time) where
  abbrev AtLeast : Option Time → Type 0
  AtLeast none = Unit {0}
  AtLeast (some t) = m ≤ t

  abbrev IsLate : JobRow → Type 0
  IsLate r = is_due now r ≡ true → m ≤ r.scheduled_at

  sooner-AtLeast : (t : Time) (o : Option Time) → m ≤ t → AtLeast o → AtLeast (some (sooner t o))
  sooner-AtLeast t none h k = h
  sooner-AtLeast t (some u) h k = ground arith

  earliest-AtLeast : (rows : List JobRow) → All IsLate rows → AtLeast (earliest now rows)
  unfolding earliest
  earliest-AtLeast [] h = tt
  earliest-AtLeast (r ∷ rows) h = elim (Bool-cases (is_due now r)) [
    | inl e ↦
        rw (earliest, e)
          (sooner-AtLeast r.scheduled_at (earliest now rows) (h.0 e) (earliest-AtLeast rows h.1))
    | inr e ↦ rw (earliest, e) (earliest-AtLeast rows h.1)
  ]

  sooner_least : (t : Time) (o : Option Time) → t ≡ m → AtLeast o → sooner t o ≡ m
  sooner_least t none h k = h
  sooner_least t (some u) h k = ground arith

  earliest_found :
      (r : JobRow) (rows : List JobRow)
      → In r rows
      → is_due now r ≡ true
      → r.scheduled_at ≡ m
      → All IsLate rows
      → earliest now rows ≡ some m
  unfolding earliest
  earliest_found r [] k d q h = absurd k
  earliest_found r (x ∷ rows) (inl e) d q h =
      let due : is_due now x ≡ true = ap (is_due now) (sym e) ∙ d in
      let at : x.scheduled_at ≡ m = ap (λ (s : JobRow). s.scheduled_at) (sym e) ∙ q in
      rw (earliest, due)
        (ap some (sooner_least x.scheduled_at (earliest now rows) at (earliest-AtLeast rows h.1)))
  earliest_found r (x ∷ rows) (inr k) d q h =
      let rest = earliest_found r rows k d q h.1 in
      elim (Bool-cases (is_due now x)) [
        | inl e ↦ let late = h.0 e in rw (earliest, e, rest) (ap some (ground arith))
        | inr e ↦ rw (earliest, e) rest
      ]

In-length :
    {A : Type 0} (p : A → Bool) (a : A) (xs : List A)
    → In a xs
    → p a ≡ true
    → 1 ≤ length (filter p xs)
unfolding filter
In-length p a [] k h = absurd k
In-length p a (x ∷ xs) (inl e) h = rw (filter, ap p (sym e) ∙ h) (omega arith)
In-length p a (x ∷ xs) (inr k) h = elim (Bool-cases (p x)) [
  | inl e ↦ rw (filter, e) (omega arith)
  | inr e ↦ rw (filter, e) (In-length p a xs k h)
]

first-insert_by :
    (a : JobRow) (rows : List JobRow)
    → first (insert_by (λ r. r.scheduled_at) ltb a rows) ≡ none
    → ⊥
unfolding insert_by
first-insert_by a [] h = cc
first-insert_by a (x ∷ rows) h = elim (Bool-cases (ltb x.scheduled_at a.scheduled_at)) [
  | inl e ↦ taken x (rw (insert_by, e) at h)
  | inr e ↦ taken a (rw (insert_by, e) at h)
]
  where
    taken : (r : JobRow) → ◌≡◌ {A = Option JobRow} (some r) none → ⊥
    taken r h = cc

first-sort_by :
    (rows : List JobRow) → first (sort_by (λ r. r.scheduled_at) ltb rows) ≡ none → rows ≡ []
unfolding sort_by
first-sort_by [] h = refl
first-sort_by (x ∷ rows) h = absurd (first-insert_by x (sort_by (λ r. r.scheduled_at) ltb rows) h)

module _ (now : Time) where
  none_due :
      (rows : List JobRow)
      → filter (is_free unlocked now) rows ≡ []
      → (earliest now rows ≡ none) × (length (filter (is_due now) rows) ≡ 0)
  unfolding filter earliest
  none_due [] h = (refl, refl)
  none_due (r ∷ rows) h = elim (Bool-cases (is_due now r)) [
    | inl e ↦ absurd (clash (rw (filter, e) at h))
    | inr e ↦
        let (a, b) = none_due rows (rw (filter, e) at h) in (rw (earliest, e) a, rw (filter, e) b)
  ]
    where
      clash : r ∷ filter (is_free unlocked now) rows ≡ [] → ⊥
      clash h = cc

  depth_of-IsDepth :
      (rows : List JobRow) → IsDepth now (next_due unlocked now rows) (depth_of now rows)
  unfolding depth_of next_due
  depth_of-IsDepth rows = elim (Option-cases (next_due unlocked now rows)) [
    | inl e ↦
        let (a, b) = none_due rows (first-sort_by (filter (is_free unlocked now) rows) e) in
        rw e (is_empty_queue (depth_of now rows) b (ap (age_at now) a))
    | inr (r, e) ↦
        let (m, free) = next_due-In unlocked now rows r e in
        let due : is_due now r ≡ true = ground arith in
        rw e (
          is_waiting r (depth_of now rows) (In-length (is_due now) r rows m due) (
            ap (age_at now) (
              earliest_found now r.scheduled_at r rows m due refl (
                All-map _ _ (λ s h d. h (rw d refl)) rows (next_due_first unlocked now rows r e)))))
  ]

-- Stats, none of whose statements fails, changes nothing and gives a depth that fits Dequeue: if
-- Dequeue would find no job when none is locked, no job waits and the age is zero; if it would take a
-- job, at least one waits and the age is the time since that job was due.
pub stats-IsDepth :
    (env : Env) (db : Db)
    → (s : QueueStats) × (stats (steady env) db ≡ (ok s, db))
      × IsDepth env.now (next_due unlocked env.now db.jobs) s
unfolding stats count_jobs statement
stats-IsDepth env db = (
  depth_of env.now db.jobs,
  with_system_tx-steady (statement count_jobs) env db,
  depth_of-IsDepth env.now db.jobs,
)
