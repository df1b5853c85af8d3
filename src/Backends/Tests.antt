-- ===== src/Backends/Tests.antt =====
-- The storages with names that are longer than every path that is there, and uploads into them.
use scoreplay_media_api.Prelude.{
  ℕ, zero, suc, ◌≤◌, ◌≡◌, ◌≢◌, ◌++◌, refl, sym, ap, ◌∙◌, All, false, [], ◌∷◌, Text, codes, length,
  length-append, arith,
}
use scoreplay_media_api.Domain.{Uuid}
use scoreplay_media_api.LocalStorage.{Files, Disk, shard_path}
use scoreplay_media_api.Service.Consistency.{IsStorage}
use scoreplay_media_api.StorageFixtures.{fresh_path, longer_absent}
use scoreplay_media_api.LocalStorage.{remove_file, write_file}
use scoreplay_media_api.LocalStorage.Held.{holds_written, holds-write_file, holds-remove_file}
use scoreplay_media_api.S3Storage
use scoreplay_media_api.S3Storage.{Sdk}
use scoreplay_media_api.Backends.Tenants.{IsShow, SavesOwn, save-SavesOwn}
use scoreplay_media_api.Fixtures.{tenant_ctx, tenant_ctx_id}
use scoreplay_media_api.Prelude.{none}
use scoreplay_media_api.Backends.{
  local_storage, DrawsNew, local-IsStorage, IsBucket, s3_storage, NamesNew, s3-IsStorage,
}

abbrev show_one : Uuid → Text
show_one n = n ∷ []

abbrev disk_for : ℕ → Files → Disk
disk_for n files = record {
  name = fresh_path files;
  mkdir_fails = false;
  create_fails = false;
  copy_fails = false;
  sync_fails = false;
  remove_fails = false;
  written = [];
}

name-shorter : (tenant name ext : Text) → length name ≤ length (shard_path tenant name ext)
unfolding shard_path
name-shorter tenant name ext = grind (arith, length-append)

disk_for-DrawsNew : DrawsNew show_one disk_for
disk_for-DrawsNew n tenant ext files =
    longer_absent _ files (name-shorter (show_one tenant) (fresh_path files) ext)

local-IsStorage_example : IsStorage (local_storage show_one disk_for)
local-IsStorage_example = local-IsStorage show_one disk_for disk_for-DrawsNew

-- A bucket that never fails.
abbrev plain_sdk : Sdk
plain_sdk = record {
  load_fails = λ o. false;
  upload = λ bucket key content files. (false, write_file key content files);
  delete_object = λ bucket key files. (false, remove_file key files);
  presign = λ bucket key ttl. none;
}

plain_sdk-IsBucket : IsBucket plain_sdk (codes "media")
plain_sdk-IsBucket = record {
  uploaded = λ key content files _. holds_written key content files;
  upload_keeps = λ key content q files ne h. holds-write_file key content q files ne h;
  delete_keeps = λ key q files ne h. holds-remove_file key q files ne h;
}

abbrev media_bucket : S3Storage.Storage
media_bucket = record {
  options = record {
    region = codes "eu-west-1";
    static_keys = none;
    endpoint = none;
    path_style = false;
  };
  bucket = codes "media";
  prefix = codes "m/";
  cdn_url = [];
}

abbrev new_name : ℕ → Files → Text
new_name n files = fresh_path files

name-shorter_around : (pre name post : Text) → length name ≤ length (pre ++ name ++ post)
name-shorter_around pre name post = grind (arith, length-append)

new_name-NamesNew : NamesNew plain_sdk media_bucket show_one new_name
new_name-NamesNew n pre post files =
    longer_absent _ files (name-shorter_around pre (fresh_path files) post)

-- A bucket in which nothing but uploads of new names happens keeps the contract.
bucket-IsStorage : IsStorage (s3_storage plain_sdk media_bucket show_one new_name)
bucket-IsStorage =
    s3-IsStorage plain_sdk media_bucket show_one new_name new_name-NamesNew plain_sdk-IsBucket

-- A UUID as so many ones.
abbrev ones : Uuid → Text
ones zero = []
ones (suc n) = b'1' ∷ ones n

length-ones : (n : Uuid) → length (ones n) ≡ n
length-ones zero = refl
length-ones (suc n) = ap suc (length-ones n)

ones_plain : (n : Uuid) → All (λ c. c ≢ b'/') (ones n)
ones_plain zero = tt
ones_plain (suc n) = (λ e. omega (arith, e), ones_plain n)

ones-IsShow : IsShow ones
ones-IsShow = record {
  distinct = λ t u e. sym (length-ones t) ∙ ap length e ∙ length-ones u;
  plain = ones_plain;
}

-- The name is that of an object of tenant 3 that is there already.
save-SavesOwn_example :
    SavesOwn plain_sdk media_bucket ones 2 (codes ".png") ((codes "m/111/x.png", []) ∷ []) (
      S3Storage.save plain_sdk media_bucket ones
        (codes "x")
        (tenant_ctx 2)
        (codes "data")
        (codes ".png")
        ((codes "m/111/x.png", []) ∷ []))
save-SavesOwn_example =
    save-SavesOwn plain_sdk media_bucket ones (codes "x") (codes "data") (codes ".png")
      (tenant_ctx 2) 2 ((codes "m/111/x.png", []) ∷ []) ones-IsShow plain_sdk-IsBucket
      (tenant_ctx_id 2)
