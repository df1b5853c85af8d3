-- ===== src/Backends/Tenants.antt =====
-- internal/adapter/storage/s3/s3_storage.go: the tenant in the object keys keeps the objects of tenants
-- apart, whatever names are drawn.
use scoreplay_media_api.Prelude.{
  ◌≡◌, ◌≢◌, refl, sym, ap, ◌∙◌, [], ◌∷◌, ◌++◌, Text, codes, All, true,
}
use mathlib.Core.List.{append_assoc}
use scoreplay_media_api.Result.{Result, ok}
use scoreplay_media_api.Domain.{Uuid, Context, tenant_id_from_context}
use scoreplay_media_api.LocalStorage.{Files, holds}
use scoreplay_media_api.S3Storage
use scoreplay_media_api.S3Storage.{Sdk, saved, object_key}
use scoreplay_media_api.Backends.{IsBucket, saved_ok}

abbrev NoSlash : Text → Type 0
NoSlash = All (λ c. c ≢ b'/')

-- What uuid.UUID.String documents: each UUID has its own text, of digits, letters and dashes.
pub record IsShow (show : Uuid → Text) : Type 0 where
  pub distinct : (t u : Uuid) → show t ≡ show u → t ≡ u
  pub plain : (t : Uuid) → All (λ c. c ≢ b'/') (show t)

append-cancel : (p x y : Text) → p ++ x ≡ p ++ y → x ≡ y
append-cancel [] x y h = h
append-cancel (c ∷ p) x y h = append-cancel p x y cc

-- The first slash tells where the first part ends.
slash-cancel : (a b x y : Text) → NoSlash a → NoSlash b → a ++ (b'/' ∷ x) ≡ b ++ (b'/' ∷ y) → a ≡ b
slash-cancel [] [] x y p q h = refl
slash-cancel [] (d ∷ b) x y p q h = let e : d ≡ b'/' = cc in absurd (q.0 e)
slash-cancel (c ∷ a) [] x y p q h = let e : c ≡ b'/' = cc in absurd (p.0 e)
slash-cancel (c ∷ a) (d ∷ b) x y p q h =
    let e : c ≡ d = cc in ap (λ i. i ∷ a) e ∙ ap (λ t. d ∷ t) (slash-cancel a b x y p.1 q.1 cc)

regroup : (a b c d : Text) → a ++ b ++ c ++ d ≡ a ++ (b ++ (c ++ d))
regroup a b c d = append_assoc (a ++ b) c d ∙ append_assoc a b (c ++ d)

module _ (sdk : Sdk) (s : S3Storage.Storage) (show : Uuid → Text) where
  -- A key of the tenant's, and one with the extension.
  abbrev pub IsWithin : Uuid → Text → Type 0
  IsWithin u path = (rest : Text) × (path ≡ s.prefix ++ show u ++ codes "/" ++ rest)

  abbrev pub IsNamed : Uuid → Text → Text → Type 0
  IsNamed t ext path = (name : Text) × (path ≡ s.prefix ++ show t ++ codes "/" ++ name ++ ext)

  pub record SavesOwn (t : Uuid) (ext : Text) (files : Files) (r : Result Text × Files)
      : Type 0 where
    pub own : (path : Text) → r.0 ≡ ok path → IsNamed t ext path × (holds path r.1 ≡ true)
    pub others :
        (u : Uuid) (q : Text) → u ≢ t → IsWithin u q → holds q files ≡ true → holds q r.1 ≡ true

  key_apart :
      IsShow show
      → (t u : Uuid) (name ext q : Text) → u ≢ t
      → IsWithin u q
      → q ≢ object_key sdk s (show t) name ext
  unfolding object_key
  key_apart is t u name ext q ne (rest, e) h = ne (
      is.distinct u t (
        slash-cancel (show u) (show t) rest (name ++ ext) (is.plain u) (is.plain t) (
          append-cancel s.prefix _ _ (
            sym (e ∙ regroup s.prefix (show u) (codes "/") rest)
            ∙ h
            ∙ append_assoc (s.prefix ++ show t ++ codes "/") name ext
            ∙ regroup s.prefix (show t) (codes "/") (name ++ ext)))))

  -- Save under a tenant, whatever name it draws, new or not, and whether or not the upload fails, leaves
  -- every object of every other tenant. A path that it returns starts with the prefix, the tenant and a
  -- slash and ends with the extension, and its object is there. The calls of the SDK touch no other
  -- object than the one they name and an upload that succeeds leaves its object, and the texts of UUIDs
  -- are distinct and have no slash.
  pub save-SavesOwn :
      (name content ext : Text) (ctx : Context) (t : Uuid) (files : Files)
      → IsShow show
      → IsBucket sdk s.bucket
      → tenant_id_from_context ctx ≡ ok t
      → SavesOwn t ext files (S3Storage.save sdk s show name ctx content ext files)
  unfolding S3Storage.save object_key
  save-SavesOwn name content ext ctx t files is laws h =
      rw (h, S3Storage.save)
        (let key = object_key sdk s (show t) name ext in
          record {
            own = λ path e.
                let (good, p) = saved_ok key (sdk.upload s.bucket key content files) path e in
                (
                  (name, p),
                  ap (λ k. holds k (sdk.upload s.bucket key content files).1) p
                      ∙ laws.uploaded key content files good,
                );
            others = λ u q ne w there.
                laws.upload_keeps key content q files (key_apart is t u name ext q ne w) there;
          })
