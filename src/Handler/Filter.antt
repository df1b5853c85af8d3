-- ===== src/Handler/Filter.antt =====
-- internal/adapter/http/handler/media_handler.go: which filters parseMediaFilter accepts.
use scoreplay_media_api.Prelude.{
  ◌≡◌, refl, sym, ap, ◌↔◌, ◌⊎◌, inl, inr, Bool, true, not, ◌&&◌, ◌||◌, ◌++◌, Option-cases, List, [],
  ◌∷◌, map, some, Text, codes, is_empty, Bool-cases, arith,
}
use scoreplay_media_api.Domain.{Uuid}
use scoreplay_media_api.MediaRepo.Listing.{MediaFilter}
use scoreplay_media_api.Http.{HttpRequest}
use scoreplay_media_api.Handler.{Host, non_empty, query_values}
use scoreplay_media_api.Handler.Media.{with_id, filter_ids, filter_of, parse_media_filter}

module _ (host : Host) where
  -- Every id is a UUID, in the same order.
  abbrev pub Parses : List Text → List Uuid → Type 0
  Parses ss ids = map host.parse_uuid ss ≡ map some ids

  with_id-inr :
      (id : Uuid) (o : Text ⊎ List Uuid) (ids : List Uuid)
      → with_id host id o ≡ inr ids
      → (rest : List Uuid) × (o ≡ inr rest) × (ids ≡ id ∷ rest)
  with_id-inr id (inl message) ids h = absurd cc
  with_id-inr id (inr rest) ids h = (rest, refl, cc)

  filter_ids_sound :
      (ss : List Text) (ids : List Uuid) → filter_ids host ss ≡ inr ids → Parses ss ids
  unfolding filter_ids
  filter_ids_sound [] [] h = refl
  filter_ids_sound [] (i ∷ ids) h = absurd cc
  filter_ids_sound (s ∷ ss) ids h = elim (Option-cases (host.parse_uuid s)) [
    | inl e ↦ absurd (refused (rw (e, filter_ids) at h))
    | inr (id, e) ↦
        let (rest, q, p) = with_id-inr id (filter_ids host ss) ids (rw (e, filter_ids) at h) in
        rw (p, e) (ap (λ xs. some id ∷ xs) (filter_ids_sound ss rest q))
  ]
    where
      refused :
          ◌≡◌ {A = Text ⊎ List Uuid} (inl (codes "invalid tag_id format: " ++ s)) (inr ids) → ⊥
      refused q = cc

  filter_ids_complete :
      (ss : List Text) (ids : List Uuid) → Parses ss ids → filter_ids host ss ≡ inr ids
  unfolding filter_ids
  filter_ids_complete [] [] h = refl
  filter_ids_complete [] (i ∷ ids) h = absurd cc
  filter_ids_complete (s ∷ ss) [] h = absurd cc
  filter_ids_complete (s ∷ ss) (i ∷ ids) h =
      let head : host.parse_uuid s ≡ some i = cc in
      let tail : map host.parse_uuid ss ≡ map some ids = cc in
      rw (head, filter_ids) (rw (filter_ids_complete ss ids tail) refl)

  abbrev pub ids_of : HttpRequest → List Text
  ids_of r = non_empty (query_values (codes "tag_id") r)

  abbrev pub names_of : HttpRequest → List Text
  names_of r = non_empty (query_values (codes "tag_name") r)

  -- The filter that a query asks for.
  pub record IsAsked (r : HttpRequest) (f : MediaFilter) : Type 0 where
    pub exclusive : is_empty (ids_of r) || is_empty (names_of r) ≡ true
    pub ids : Parses (ids_of r) f.tag_ids
    pub names : f.tag_names ≡ names_of r

  filter_of-inr :
      (names : List Text) (o : Text ⊎ List Uuid) (f : MediaFilter)
      → filter_of host names o ≡ inr f
      → (o ≡ inr f.tag_ids) × (f.tag_names ≡ names)
  filter_of-inr names (inl message) f h = absurd cc
  filter_of-inr names (inr ids) f h =
      let q : ◌≡◌ {A = MediaFilter} (record { tag_ids = ids; tag_names = names }) f = cc in
      (ap (λ (g : MediaFilter). inr g.tag_ids) q, sym (ap (λ (g : MediaFilter). g.tag_names) q))

  -- parseMediaFilter gives a filter exactly if the query does not name both tag ids and tag names and
  -- every tag id is a UUID; the filter then has these ids and names in the order of the query, without
  -- the empty ones.
  pub parse_media_filter_iff :
      (r : HttpRequest) (f : MediaFilter) → (parse_media_filter host r ≡ inr f) ↔ IsAsked r f
  unfolding parse_media_filter
  parse_media_filter_iff r f = elim (Bool-cases (both r)) [
    | inl e ↦ (
      λ h. absurd (refused (rw (e, parse_media_filter) at h)),
      λ a. let x = a.exclusive in absurd (ground arith),
    )
    | inr e ↦ (
      λ h.
          let (q, n) =
            filter_of-inr (names_of r) (filter_ids host (ids_of r)) f
              (rw (e, parse_media_filter) at h) in
          record {
            exclusive = ground arith;
            ids = filter_ids_sound (ids_of r) f.tag_ids q;
            names = n;
          },
      λ a.
          rw (e, parse_media_filter)
            (rw (filter_ids_complete (ids_of r) f.tag_ids a.ids)
              (ap (λ ns. inr (record { tag_ids = f.tag_ids; tag_names = ns })) (sym a.names))),
    )
  ]
    where
      both : HttpRequest → Bool
      both q = not (is_empty (ids_of q)) && not (is_empty (names_of q))

      refused :
          ◌≡◌ {A = Text ⊎ MediaFilter}
            (inl (codes "tag_id and tag_name are mutually exclusive"))
            (inr f)
          → ⊥
      refused q = cc
