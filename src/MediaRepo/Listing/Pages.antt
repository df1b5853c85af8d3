-- ===== src/MediaRepo/Listing/Pages.antt =====
-- internal/adapter/postgres/media_repo.go and tag_repo.go: the keys of the two lists, for the walk
-- over their pages.
use scoreplay_media_api.Prelude.{
  ℕ, ◌<◌, ◌≡◌, ◌≢◌, refl, sym, ap, ◌∙◌, ◌⊎◌, ◌↔◌, Bool, true, false, ◌&&◌, List, [], ◌∷◌, map,
  Option, none, Text, text_eq, text_eq→eq, eq→text_eq, All, All-map, ltb, In, Distinct,
  Distinct-filter, filter, length, arith, Bool-cases, inl, inr, ◌==◌,
}
use scoreplay_media_api.Result.{Result, ok, err}
use scoreplay_media_api.Domain.{Uuid, Tag, Media, Context, tenant_id_from_context}
use scoreplay_media_api.Database.{TagRow, MediaRow, Db, Env, Conn, pure, statement, settle, ◌>>=◌}
use scoreplay_media_api.Database.Steady.{steady, with_tenant_tx-steady}
use scoreplay_media_api.Database.Valid.{IsValid}
use scoreplay_media_api.Paging.{sort_by}
use scoreplay_media_api.Paging.Order.{IsOrder, IsSorted, DistinctKeys, sort_by-IsSorted, sort_by-In}
use scoreplay_media_api.Paging.Walk.{page, pages_complete}
use scoreplay_media_api.Paging.Client.{walk, Shows, AnswersPages, Tiles-Shows}
use scoreplay_media_api.TagRepo
use scoreplay_media_api.TagRepo.{TagCursor, tag_key, tag_before, scan_tag}
use scoreplay_media_api.MediaRepo.{scan_media}
use scoreplay_media_api.MediaRepo.Listing.{
  MediaFilter, MediaCursor, media_key, media_before, matches, candidates, select_page, select_tags,
  with_page_tags, load_tags, list_in_tx, list,
}

pub media_before-IsOrder : IsOrder media_before
media_before-IsOrder = record {
  irrefl = λ a. irrefl a.0 a.1;
  trans = λ a b c. trans a.0 a.1 b.0 b.1 c.0 c.1;
  total = λ a b ne. total a.0 a.1 b.0 b.1 ne;
}
  where
    irrefl : (t i : ℕ) → media_before (t, i) (t, i) ≡ false
    irrefl t i = ground arith

    trans :
        (t i u j v k : ℕ)
        → media_before (t, i) (u, j) ≡ true
        → media_before (u, j) (v, k) ≡ true
        → media_before (t, i) (v, k) ≡ true
    trans t i u j v k h g = ground arith

    pair : (t i u j : ℕ) → t ≡ u → i ≡ j → ◌≡◌ {A = MediaCursor} (t, i) (u, j)
    pair t i u j p q = rw (p, q) refl

    total :
        (t i u j : ℕ)
        → (◌≡◌ {A = MediaCursor} (t, i) (u, j) → ⊥)
        → media_before (t, i) (u, j) ≡ false
        → media_before (u, j) (t, i) ≡ true
    total t i u j ne h = elim (Bool-cases (t == u && i == j)) [
      | inl e ↦ absurd (ne (pair t i u j (ground arith) (ground arith)))
      | inr e ↦ ground arith
    ]

-- A collation that orders texts strictly and totally.
module _ (text_before : Text → Text → Bool) (o : IsOrder text_before) where
  tag_irrefl : (n : Text) (i : Uuid) → tag_before text_before (n, i) (n, i) ≡ false
  tag_irrefl n i = rw (o.irrefl n) (ground arith)

  tag_trans :
      (n m k : Text) (i j l : Uuid)
      → tag_before text_before (n, i) (m, j) ≡ true
      → tag_before text_before (m, j) (k, l) ≡ true
      → tag_before text_before (n, i) (k, l) ≡ true
  tag_trans n m k i j l h g = elim (Bool-cases (text_before n m)) [
    | inl p ↦ elim (Bool-cases (text_before m k)) [
      | inl q ↦ let r = o.trans n m k p q in ground arith
      | inr q ↦
          let r : text_before n k ≡ true = rw (sym (text_eq→eq m k (ground arith))) p in
          ground arith
    ]
    | inr p ↦
        let e : n ≡ m = text_eq→eq n m (ground arith) in
        elim (Bool-cases (text_before m k)) [
          | inl q ↦ let r : text_before n k ≡ true = rw e q in ground arith
          | inr q ↦
              let r : text_eq n k ≡ true = eq→text_eq n k (e ∙ text_eq→eq m k (ground arith)) in
              ground arith
        ]
  ]

  tag_total :
      (n m : Text) (i j : Uuid)
      → (◌≡◌ {A = TagCursor} (n, i) (m, j) → ⊥)
      → tag_before text_before (n, i) (m, j) ≡ false
      → tag_before text_before (m, j) (n, i) ≡ true
  tag_total n m i j ne h = elim (Bool-cases (text_eq n m)) [
    | inl e ↦
        let q : n ≡ m = text_eq→eq n m e in
        let back = eq→text_eq m n (sym q) in
        elim (Bool-cases (i == j)) [
          | inl f ↦ absurd (ne (pair q (ground arith)))
          | inr f ↦ ground arith
        ]
    | inr e ↦ let r = o.total n m (λ q. apart q e) (ground arith) in ground arith
  ]
    where
      pair : n ≡ m → i ≡ j → ◌≡◌ {A = TagCursor} (n, i) (m, j)
      pair p q = rw (p, q) refl

      apart : n ≡ m → text_eq n m ≡ false → ⊥
      apart q e = ground (arith, eq→text_eq n m q)

  pub tag_before-IsOrder : IsOrder (tag_before text_before)
  tag_before-IsOrder = record {
    irrefl = λ a. tag_irrefl a.0 a.1;
    trans = λ a b c. tag_trans a.0 b.0 c.0 a.1 b.1 c.1;
    total = λ a b. tag_total a.0 b.0 a.1 b.1;
  }

module _ {R K : Type 0} (id : R → Uuid) (key : R → K) (before : K → K → Bool) (key_id : K → Uuid)
    (same : (r : R) → key_id (key r) ≡ id r) where
  -- Keys that hold a distinct id are distinct.
  DistinctKeys-ids : (rows : List R) → Distinct (map id rows) → DistinctKeys key before rows
  DistinctKeys-ids [] d = tt
  DistinctKeys-ids (r ∷ rows) d = (others rows d.0, DistinctKeys-ids rows d.1)
    where
      others : (rest : List R) → ¬ In (id r) (map id rest) → All (λ y. key r ≢ key y) rest
      others [] h = tt
      others (y ∷ rest) h =
          (λ e. h (inl (sym (same r) ∙ ap key_id e ∙ same y)), others rest (λ m. h (inr m)))

module _ {R : Type 0} (Before : R → R → Type 0) where
  abbrev pub Ordered : List R → Type 0
  Ordered [] = Unit
  Ordered (r ∷ rows) = All (Before r) rows × Ordered rows

  module _ {K : Type 0} (key : R → K) (before : K → K → Bool)
      (says : (r s : R) → before (key r) (key s) ≡ true → Before r s) where
    IsSorted→Ordered : (rows : List R) → IsSorted key before rows → Ordered rows
    IsSorted→Ordered [] h = tt
    IsSorted→Ordered (r ∷ rows) h = (All-map _ _ (says r) rows h.0, IsSorted→Ordered rows h.1)

-- The listed rows are the given ones, each before the next in a strict order.
pub record IsListing {R : Type 0} (Before : R → R → Type 0) (rows listed : List R) : Type 0 where
  pub ordered : Ordered Before listed
  pub members : (r : R) → In r listed ↔ In r rows

sorted-IsListing :
    {R K : Type 0} (Before : R → R → Type 0) (key : R → K) (before : K → K → Bool)
    → IsOrder before
    → ((r s : R) → before (key r) (key s) ≡ true → Before r s)
    → (rows : List R) → DistinctKeys key before rows
    → IsListing Before rows (sort_by key before rows)
sorted-IsListing Before key before o says rows d = record {
  ordered = IsSorted→Ordered Before key before says _ (sort_by-IsSorted key before o rows d);
  members = λ r. sort_by-In key before r rows;
}

abbrev pub Newer : MediaRow → MediaRow → Type 0
Newer r s = (s.created_at < r.created_at) ⊎ ((s.created_at ≡ r.created_at) × (s.id < r.id))

media_before→Newer : (r s : MediaRow) → media_before (media_key r) (media_key s) ≡ true → Newer r s
media_before→Newer r s h = elim (Bool-cases (ltb s.created_at r.created_at)) [
  | inl e ↦ inl (ground arith)
  | inr e ↦ inr (ground arith, ground arith)
]

abbrev pub Named : (Text → Text → Bool) → TagRow → TagRow → Type 0
Named text_before r s = (text_before r.name s.name ≡ true) ⊎ ((r.name ≡ s.name) × (r.id < s.id))

tag_before→Named :
    (text_before : Text → Text → Bool) (r s : TagRow)
    → tag_before text_before (tag_key r) (tag_key s) ≡ true
    → Named text_before r s
tag_before→Named text_before r s h = elim (Bool-cases (text_before r.name s.name)) [
  | inl e ↦ inl e
  | inr e ↦ inr (text_eq→eq r.name s.name (ground arith), ground arith)
]

-- A media item without its tags.
abbrev pub untagged : Media → Media
untagged m = record m { tags = [] }

abbrev pub untagged_row : MediaRow → Media
untagged_row r = scan_media r []

abbrev pub is_own : Uuid → TagRow → Bool
is_own tenant r = r.tenant_id == tenant

-- The media items of the tenant that pass the filter.
abbrev pub is_listed : Uuid → Db → MediaFilter → MediaRow → Bool
is_listed tenant db f m = m.tenant_id == tenant && matches f db m

module _ (env : Env) (ctx : Context) (tenant : Uuid) (limit : ℕ) (db : Db)
    (h : tenant_id_from_context ctx ≡ ok tenant) where
  -- What List answers for a cursor, none of its statements failing.
  abbrev pub tags_asked : Option TagCursor → Result (List Tag × Option TagCursor)
  tags_asked c = (TagRepo.list (steady env) ctx limit c db).0

  abbrev pub media_asked :
      MediaFilter → Option MediaCursor → Result (List Media × Option MediaCursor)
  media_asked f c = (list (steady env) ctx limit c f db).0

  same_tags : (ts : List Tag) → map (λ (t : Tag). t) ts ≡ ts
  same_tags [] = refl
  same_tags (t ∷ ts) = ap (λ x. t ∷ x) (same_tags ts)

  tags_asked-AnswersPages :
      AnswersPages tag_key
        (tag_before env.text_before)
        limit
        (filter (λ r. r.tenant_id == tenant) db.tags)
        tags_asked
        (λ t. t)
        scan_tag
  unfolding TagRepo.list TagRepo.list_tx TagRepo.select_tags ◌>>=◌ statement pure page
  tags_asked-AnswersPages c = (
    _,
    ap (λ (x : Result (List Tag × Option TagCursor) × Db). x.0)
        (with_tenant_tx-steady (TagRepo.list_tx limit c) env ctx db tenant h),
    same_tags _,
  )

  untagged_page :
      (tags : List (Uuid × TagRow)) (rows : List MediaRow)
      → map untagged (map (with_page_tags tags) rows) ≡ map untagged_row rows
  untagged_page tags [] = refl
  untagged_page tags (r ∷ rows) = ap (λ x. untagged_row r ∷ x) (untagged_page tags rows)

  loaded :
      (p : List MediaRow × Option MediaCursor) (c : Conn)
      → (ms : List Media) × ((load_tags tenant p (steady env) c).0 ≡ ok (ms, p.1))
        × (map untagged ms ≡ map untagged_row p.0)
  unfolding select_tags ◌>>=◌ statement pure
  loaded ([], next) c = ([], refl, refl)
  loaded (r ∷ rows, next) c = (_, refl, untagged_page _ (r ∷ rows))

  settle_result : {A : Type 0} (r : Result A × Conn) → (settle db r).0 ≡ r.0
  settle_result (ok a, c) = refl
  settle_result (err e, c) = refl

  media_asked-AnswersPages :
      (f : MediaFilter)
      → AnswersPages media_key media_before limit
          (candidates tenant f db)
          (media_asked f)
          untagged
          untagged_row
  unfolding list list_in_tx select_page ◌>>=◌ statement pure page
  media_asked-AnswersPages f c =
      let (ms, a, e) =
        loaded (page media_key media_before limit c (candidates tenant f db))
          (record { db = db; sent = 3 }) in
      (
        ms,
        ap (λ (x : Result (List Media × Option MediaCursor) × Db). x.0)
              (with_tenant_tx-steady (list_in_tx limit c f) env ctx db tenant h)
            ∙ settle_result _
            ∙ a,
        e,
      )

  -- A client of MediaRepo.List who starts without a cursor and passes every next cursor back, while the
  -- tables stay as they are and no statement fails, receives every media item of its tenant that passes
  -- the filter exactly once, from new to old, in pages of at most `limit`; it takes one request more
  -- than there are items at most. The tags of the items are left out of the comparison. The constraints
  -- of the schema hold, and the limit is not zero.
  pub media_pages_complete :
      (f : MediaFilter) (fuel : ℕ)
      → IsValid db
      → 0 < limit
      → length (sort_by media_key media_before (filter (is_listed tenant db f) db.media)) < fuel
      → Shows limit untagged
          (map untagged_row
            (sort_by media_key media_before (filter (is_listed tenant db f) db.media)))
          (walk (media_asked f) fuel none)
        × IsListing Newer
            (filter (is_listed tenant db f) db.media)
            (sort_by media_key media_before (filter (is_listed tenant db f) db.media))
  unfolding candidates
  media_pages_complete f fuel v p k =
      let keys =
        DistinctKeys-ids (λ r. r.id) media_key media_before (λ (k : MediaCursor). k.1) (λ r. refl) _
          (Distinct-filter (λ r. r.id) (is_listed tenant db f) db.media v.media_ids) in
      (
        Tiles-Shows media_key media_before limit (candidates tenant f db) (media_asked f) untagged
            untagged_row (media_asked-AnswersPages f) fuel _
            (pages_complete media_key media_before media_before-IsOrder (candidates tenant f db)
              limit fuel keys p k),
        sorted-IsListing Newer media_key media_before media_before-IsOrder media_before→Newer _
            keys,
      )

  -- A client of TagRepo.List who starts without a cursor and passes every next cursor back, while the
  -- tables stay as they are and no statement fails, receives every tag of its tenant exactly once, in
  -- the order of the names, in pages of at most `limit`; it takes one request more than there are tags
  -- at most. The constraints of the schema hold, the collation orders names strictly and totally, and
  -- the limit is not zero.
  pub tag_pages_complete :
      (fuel : ℕ)
      → IsOrder env.text_before
      → IsValid db
      → 0 < limit
      → length (sort_by tag_key (tag_before env.text_before) (filter (is_own tenant) db.tags))
        < fuel
      → Shows limit
          (λ t. t)
          (map scan_tag
            (sort_by tag_key (tag_before env.text_before) (filter (is_own tenant) db.tags)))
          (walk tags_asked fuel none)
        × IsListing
            (Named env.text_before)
            (filter (is_own tenant) db.tags)
            (sort_by tag_key (tag_before env.text_before) (filter (is_own tenant) db.tags))
  tag_pages_complete fuel o v p k =
      let before = tag_before env.text_before in
      let order = tag_before-IsOrder env.text_before o in
      let keys =
        DistinctKeys-ids (λ r. r.id) tag_key before (λ (k : TagCursor). k.1) (λ r. refl) _
          (Distinct-filter (λ r. r.id) (is_own tenant) db.tags v.tag_ids) in
      (
        Tiles-Shows tag_key before limit (filter (is_own tenant) db.tags) tags_asked (λ t. t)
            scan_tag tags_asked-AnswersPages fuel _
            (pages_complete tag_key before order _ limit fuel keys p k),
        sorted-IsListing (Named env.text_before) tag_key before order
            (tag_before→Named env.text_before) _ keys,
      )
