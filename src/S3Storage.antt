-- ===== src/S3Storage.antt =====
-- internal/adapter/storage/s3/s3_storage.go: the methods over the calls of the AWS SDK, which are a
-- parameter, as is the writing of a UUID. The objects of the bucket are a map from keys to contents.
use scoreplay_media_api.Prelude.{
  ℕ, Bool, not, ◌&&◌, ◌||◌, ◌++◌, Option, none, some, Text, codes, is_empty, if◌then◌else◌,
}
use scoreplay_media_api.Result.{Result, ok, err, internal}
use scoreplay_media_api.Domain.{Uuid, Context, tenant_id_from_context}
use scoreplay_media_api.LocalStorage.{Files}

pub record Config : Type 0 where
  pub bucket : Text
  pub region : Text
  pub endpoint : Text
  pub access_key : Text
  pub secret_key : Text
  pub prefix : Text
  pub cdn_url : Text

-- What the SDK is asked for when a client is made.
pub record ClientOptions : Type 0 where
  pub region : Text
  pub static_keys : Option (Text × Text)
  pub endpoint : Option Text
  pub path_style : Bool

-- The calls of the SDK. Whether a call fails, and what it leaves then, is theirs to say.
pub record Sdk : Type 0 where
  pub load_fails : ClientOptions → Bool
  pub upload : Text → Text → Text → Files → Bool × Files
  pub delete_object : Text → Text → Files → Bool × Files
  pub presign : Text → Text → ℕ → Option Text

pub record Storage : Type 0 where
  pub options : ClientOptions
  pub bucket : Text
  pub prefix : Text
  pub cdn_url : Text

abbrev pub client_options : Config → ClientOptions
client_options cfg = record {
  region = cfg.region;
  static_keys =
      if not (is_empty cfg.access_key) && not (is_empty cfg.secret_key)
      then some (cfg.access_key, cfg.secret_key)
      else none;
  endpoint = if is_empty cfg.endpoint then none else some cfg.endpoint;
  path_style = not (is_empty cfg.endpoint);
}

abbrev pub saved : Text → Bool × Files → Result Text × Files
saved key (fails, files) = (if fails then err internal else ok key, files)

abbrev pub deleted : Bool × Files → Result (Unit {0}) × Files
deleted (fails, files) = (if fails then err internal else ok tt, files)

module _ (sdk : Sdk) where
  unfoldable pub new_storage : Config → Result Storage
  new_storage cfg =
      if is_empty cfg.bucket || is_empty cfg.region
      then err internal
      else if sdk.load_fails (client_options cfg)
      then err internal
      else ok (record {
        options = client_options cfg;
        bucket = cfg.bucket;
        prefix = cfg.prefix;
        cdn_url = cfg.cdn_url;
      })

  -- <prefix><tenant>/<name><ext>
  unfoldable pub object_key : Storage → Text → Text → Text → Text
  object_key s tenant name ext = s.prefix ++ tenant ++ codes "/" ++ name ++ ext

  unfoldable pub save :
      Storage → (Uuid → Text) → Text → Context → Text → Text → Files → Result Text × Files
  save s show name ctx content ext files = elim (tenant_id_from_context ctx) [
    | err e ↦ (err e, files)
    | ok tenant ↦
        let key = object_key s (show tenant) name ext in
        saved key (sdk.upload s.bucket key content files)
  ]

  unfoldable pub delete : Storage → Text → Files → Result (Unit {0}) × Files
  delete s path files = deleted (sdk.delete_object s.bucket path files)

  -- The base URL is not used.
  unfoldable pub url : Storage → Text → Text → Text
  url s base_url path =
      if not (is_empty s.cdn_url)
      then s.cdn_url ++ codes "/" ++ path
      else codes "https://" ++ s.bucket ++ codes ".s3.amazonaws.com/" ++ path

  unfoldable pub url_with_expiry : Storage → Text → Text → ℕ → Result Text
  url_with_expiry s base_url path ttl = elim (sdk.presign s.bucket path ttl) [
    | none ↦ err internal
    | some signed ↦ ok signed
  ]
