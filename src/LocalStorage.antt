-- ===== src/LocalStorage.antt =====
-- internal/adapter/storage/local/local_storage.go: the files below the root, as a map from relative
-- paths to contents. The writing of a UUID as text is a parameter; a directory is there once it was made.
pub mod Held
use scoreplay_media_api.Prelude.{
  ℕ, zero, suc, Bool, not, ◌&&◌, List, [], ◌∷◌, ◌++◌, Text, codes, text_eq, take, any, filter,
  if◌then◌else◌,
}
use scoreplay_media_api.Result.{Result, ok, err, internal}
use scoreplay_media_api.Domain.{Uuid, Context, tenant_id_from_context}

abbrev pub Files : Type 0
Files = List (Text × Text)

-- Whether a path is there.
unfoldable pub holds : Text → Files → Bool
holds path files = any (λ (f : Text × Text). text_eq f.0 path) files

-- os.Remove
unfoldable pub remove_file : Text → Files → Files
remove_file path files = filter (λ (f : Text × Text). not (text_eq f.0 path)) files

-- os.Create and what is written then.
unfoldable pub write_file : Text → Text → Files → Files
unfolding remove_file
write_file path content files = (path, content) ∷ remove_file path files

-- What the system adds to a call: the name that uuid.New draws, the steps that fail, and how much of a
-- copy that fails was written.
pub record Disk : Type 0 where
  pub name : Text
  pub mkdir_fails : Bool
  pub create_fails : Bool
  pub copy_fails : Bool
  pub sync_fails : Bool
  pub remove_fails : Bool
  pub written : Text

abbrev pub slash : Text
slash = codes "/"

abbrev pub drop : ℕ → Text → Text
drop zero s = s
drop (suc n) [] = []
drop (suc n) (c ∷ s) = drop n s

-- One character of the name.
abbrev pub char_at : ℕ → Text → Text
char_at i s = take 1 (drop i s)

-- <tenant>/a/b/c/<name><ext>
unfoldable pub shard_path : Text → Text → Text → Text
shard_path tenant name ext =
    tenant
    ++ slash
    ++ char_at 0 name
    ++ slash
    ++ char_at 1 name
    ++ slash
    ++ char_at 2 name
    ++ slash
    ++ name
    ++ ext

-- The deferred clean-up of a partial file, best effort.
abbrev pub clean_up : Disk → Text → Files → Files
clean_up d path files = if d.remove_fails then files else remove_file path files

module _ (show : Uuid → Text) (d : Disk) where
  unfoldable pub save_at : Text → Text → Files → Result Text × Files
  save_at path content files =
      if d.mkdir_fails
      then (err internal, files)
      else if d.create_fails
      then (err internal, files)
      else if d.copy_fails
      then (err internal, clean_up d path (write_file path d.written files))
      else if d.sync_fails
      then (err internal, clean_up d path (write_file path content files))
      else (ok path, write_file path content files)

  unfoldable pub save : Context → Text → Text → Files → Result Text × Files
  save ctx content ext files = elim (tenant_id_from_context ctx) [
    | err e ↦ (err e, files)
    | ok tenant ↦ save_at (shard_path (show tenant) d.name ext) content files
  ]

-- A file that is not there is no error.
unfoldable pub delete : Disk → Text → Files → Result (Unit {0}) × Files
delete d path files =
    if d.remove_fails && holds path files
    then (err internal, files)
    else (ok tt, remove_file path files)

unfoldable pub url : Text → Text → Text
url base_url path = base_url ++ codes "/uploads/" ++ path

unfoldable pub url_with_expiry : Text → Text → ℕ → Result Text
unfolding url
url_with_expiry base_url path ttl = ok (url base_url path)
