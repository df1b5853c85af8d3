-- ===== src/Fixtures.antt =====
-- Environments, contexts and tables for the runs of the model.
use scoreplay_media_api.Prelude.{
  ◌+◌, ◌*◌, ◌≡◌, ◌≢◌, refl, Bool, true, false, ◌&&◌, ◌||◌, [], ◌∷◌, none, some, Text, codes, inl,
  inr, Bool-cases, any, ltb, ◌==◌, arith,
}
use scoreplay_media_api.Result.{ok}
use scoreplay_media_api.Domain.{
  Uuid, Time, Context, image, tenant_id_from_context, identity_from_context,
}
use scoreplay_media_api.Database.{Db, Env, empty_db}
use scoreplay_media_api.Database.Valid.{IsValid}
use scoreplay_media_api.Paging.Order.{IsOrder}

-- The order of the code points.
unfoldable pub lex_before : Text → Text → Bool
lex_before [] [] = false
lex_before [] (y ∷ ys) = true
lex_before (x ∷ xs) [] = false
lex_before (x ∷ xs) (y ∷ ys) = ltb x y || x == y && lex_before xs ys

lex_irrefl : (a : Text) → lex_before a a ≡ false
unfolding lex_before
lex_irrefl [] = refl
lex_irrefl (x ∷ xs) = let ih = lex_irrefl xs in ground arith

lex_trans : (a b c : Text) → lex_before a b ≡ true → lex_before b c ≡ true → lex_before a c ≡ true
unfolding lex_before
lex_trans [] [] c h g = ground arith
lex_trans [] (y ∷ ys) [] h g = ground arith
lex_trans [] (y ∷ ys) (z ∷ zs) h g = refl
lex_trans (x ∷ xs) [] c h g = ground arith
lex_trans (x ∷ xs) (y ∷ ys) [] h g = ground arith
lex_trans (x ∷ xs) (y ∷ ys) (z ∷ zs) h g =
    elim (Bool-cases (lex_before xs ys && lex_before ys zs)) [
      | inl e ↦ let r = lex_trans xs ys zs (ground arith) (ground arith) in ground arith
      | inr e ↦ ground arith
    ]

lex_total : (a b : Text) → a ≢ b → lex_before a b ≡ false → lex_before b a ≡ true
unfolding lex_before
lex_total [] [] ne h = absurd (ne refl)
lex_total [] (y ∷ ys) ne h = ground arith
lex_total (x ∷ xs) [] ne h = refl
lex_total (x ∷ xs) (y ∷ ys) ne h = elim (Bool-cases (x == y)) [
  | inl e ↦
      let q : x ≡ y = ground arith in
      let r = lex_total xs ys (λ p. ne (rw (q, p) refl)) (ground arith) in ground arith
  | inr e ↦ ground arith
]

pub lex_before-IsOrder : IsOrder lex_before
lex_before-IsOrder = record { irrefl = lex_irrefl; trans = lex_trans; total = lex_total }

abbrev pub env_at : Time → Env
env_at now = record {
  now = now;
  draw = λ n. 100 * now + n;
  text_before = lex_before;
  fails = λ n. false;
}

abbrev pub tenant_ctx : Uuid → Context
tenant_ctx tenant = record {
  identity = some (record { tenant_id = tenant; key_id = 0; scopes = []; expires_at = none });
}

abbrev pub no_ctx : Context
no_ctx = record { identity = none }

pub tenant_ctx_id : (tenant : Uuid) → tenant_id_from_context (tenant_ctx tenant) ≡ ok tenant
unfolding tenant_id_from_context identity_from_context
tenant_ctx_id tenant = refl

pub other_tenant : (a b : Uuid) → a ≢ b → tenant_id_from_context (tenant_ctx a) ≢ ok b
unfolding tenant_id_from_context identity_from_context
other_tenant a b ne e = ne cc

pub no_tenant : (b : Uuid) → tenant_id_from_context no_ctx ≢ ok b
unfolding tenant_id_from_context identity_from_context
no_tenant b e = cc

-- Tenant 2 has a tagged picture, and a second picture without a tag.
abbrev pub shared_db : Db
shared_db = record empty_db {
  tags = record { id = 11; tenant_id = 2; name = codes "a"; created_at = 1 } ∷ [];
  media =
      record {
        id = 21;
        tenant_id = 2;
        name = codes "m";
        media_type = image;
        file_path = codes "2/p.png";
        original_name = codes "p.png";
        file_size = 5;
        created_at = 1;
      }
      ∷ record {
        id = 22;
        tenant_id = 2;
        name = codes "n";
        media_type = image;
        file_path = codes "2/q.png";
        original_name = codes "q.png";
        file_size = 6;
        created_at = 2;
      }
      ∷ [];
  media_tags = record { tenant_id = 2; media_id = 21; tag_id = 11 } ∷ [];
}

pub shared_db-IsValid : IsValid shared_db
unfolding any
shared_db-IsValid = record {
  tag_ids = (λ m. m, tt);
  tag_names = (λ m. m, tt);
  media_ids = (λ m. elim m [ inl e ↦ omega (arith, e) | inr n ↦ n ], (λ m. m, tt));
  links = (λ m. m, tt);
  link_media = (refl, tt);
  link_tags = (refl, tt);
}
