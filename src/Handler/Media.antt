-- ===== src/Handler/Media.antt =====
-- internal/adapter/http/handler/media_handler.go: MediaHandler.
use scoreplay_media_api.Prelude.{
  ℕ, ◌&&◌, not, List, [], ◌∷◌, ◌++◌, Option, none, some, Text, codes, is_empty, take, if◌then◌else◌,
  ◌⊎◌, inl, inr,
}
use scoreplay_media_api.Result.{
  Error, err_validation, err_unsupported_media_type, err_not_found, err_file_too_large,
}
use scoreplay_media_api.Domain.{Uuid, Media}
use scoreplay_media_api.Database.{Env}
use scoreplay_media_api.Cursor.{Codec}
use scoreplay_media_api.MediaRepo.Listing.{MediaFilter, MediaCursor}
use scoreplay_media_api.Http.{HttpRequest, Response, Handler, values, first}
use scoreplay_media_api.Dto.{media_data, media_list_data, media_to_response, media_list_response}
use scoreplay_media_api.Atoi.{ℤ, atoi}
use scoreplay_media_api.Service.{
  App, FileStorage, CreateInput, create_media, get_media, list_media, delete_media, attach_tags,
  detach_tag,
}
use scoreplay_media_api.Handler.{
  FormFile, too_large, malformed, form, Host, Parsed, stop, go, ◌>>=◌, ◌>>◌, serve, no_content,
  scope_media_read, scope_media_write, non_empty, query_values, query_get, write_json, write_error,
  invalid, require_scope, require_json, decode_body, path_id,
}

module _ (host : Host) where
  unfoldable pub handle_error : HttpRequest → Error → Response
  handle_error r err_validation = invalid host (host.error_text r err_validation)
  handle_error r err_unsupported_media_type =
      write_error host 415 (codes "UNSUPPORTED_MEDIA_TYPE")
        (host.error_text r err_unsupported_media_type)
  handle_error r err_not_found =
      write_error host 404 (codes "NOT_FOUND") (host.error_text r err_not_found)
  handle_error r err_file_too_large =
      write_error host 413 (codes "FILE_TOO_LARGE") (host.error_text r err_file_too_large)
  handle_error r _ =
      write_error host 500 (codes "INTERNAL_ERROR") (codes "an unexpected error occurred")

  -- The tag ids of a body or a form: empty texts are skipped, the first that is no UUID ends it.
  unfoldable pub parse_tag_ids : List Text → Parsed (List Uuid)
  parse_tag_ids [] = go []
  parse_tag_ids (s ∷ ss) =
      let rest = parse_tag_ids ss in
      if is_empty s then rest else elim (host.parse_uuid s) [
        | none ↦ stop (invalid host (codes "invalid tag ID: " ++ s))
        | some id ↦ rest >>= λ ids. go (id ∷ ids)
      ]

  abbrev pub with_id : Uuid → Text ⊎ List Uuid → Text ⊎ List Uuid
  with_id id (inl message) = inl message
  with_id id (inr ids) = inr (id ∷ ids)

  -- The loop over the ids of a filter.
  unfoldable pub filter_ids : List Text → Text ⊎ List Uuid
  filter_ids [] = inr []
  filter_ids (s ∷ ss) =
      let rest = filter_ids ss in
      elim (host.parse_uuid s) [
        | none ↦ inl (codes "invalid tag_id format: " ++ s)
        | some id ↦ with_id id rest
      ]

  abbrev pub filter_of : List Text → Text ⊎ List Uuid → Text ⊎ MediaFilter
  filter_of names (inl message) = inl message
  filter_of names (inr ids) = inr (record { tag_ids = ids; tag_names = names })

  -- The filter of a query, or the message of an error.
  unfoldable pub parse_media_filter : HttpRequest → Text ⊎ MediaFilter
  parse_media_filter r =
      let ids = non_empty (query_values (codes "tag_id") r) in
      let names = non_empty (query_values (codes "tag_name") r) in
      if not (is_empty ids) && not (is_empty names)
      then inl (codes "tag_id and tag_name are mutually exclusive")
      else filter_of names (filter_ids ids)

  abbrev pub media_id : HttpRequest → Parsed Uuid
  media_id r = path_id host (codes "id") (codes "invalid media ID format") r

  -- ParseMultipartForm behind a MaxBytesReader.
  unfoldable pub parse_form : ℕ → HttpRequest → Parsed (List (Text × Text) × Option FormFile)
  parse_form max_upload_size r = elim (host.parse_form max_upload_size r) [
    | too_large ↦
        stop
          (write_error host 413 (codes "FILE_TOO_LARGE") (codes "file exceeds maximum upload size"))
    | malformed ↦ stop (
        write_error host 400 (codes "INVALID_MULTIPART")
          (codes "request must be multipart/form-data"))
    | form fields file ↦ go (fields, file)
  ]

  -- `FormValue`: a value of the query goes before one of the form.
  unfoldable pub form_value : Text → HttpRequest → List (Text × Text) → Text
  form_value name r fields = first (query_values name r ++ values name fields)

  unfoldable pub require_name : Text → Parsed (Unit {0})
  require_name name =
      if is_empty name then stop (invalid host (codes "name field is required")) else go tt

  -- FormFile, and the type that the first 512 bytes show.
  unfoldable pub sniff : Option FormFile → Parsed (FormFile × Text)
  sniff none = stop (invalid host (codes "file field is required"))
  sniff (some f) =
      if f.read_fails
      then stop (write_error host 400 (codes "INVALID_FILE") (codes "could not read file"))
      else if f.seek_fails
      then stop (write_error host 500 (codes "INTERNAL_ERROR") (codes "could not process file"))
      else go (f, host.detect_content_type (take 512 f.content))

  unfoldable pub parse_create : ℕ → HttpRequest → Parsed CreateInput
  parse_create max_upload_size r = do
    require_scope host r scope_media_write
    parts ← parse_form max_upload_size r
    let name = form_value (codes "name") r parts.0
    require_name name
    tag_ids ← parse_tag_ids (values (codes "tags") parts.0)
    file ← sniff parts.1
    go (record {
      name = name;
      file = file.0.content;
      file_name = file.0.file_name;
      file_size = file.0.size;
      tag_ids = tag_ids;
      tag_names = non_empty (values (codes "tag_names") parts.0);
      content_type = file.1;
    })

  unfoldable pub parse_get : HttpRequest → Parsed Uuid
  parse_get r = do require_scope host r scope_media_read; media_id r

  abbrev pub or_invalid : {A : Type 0} → Text ⊎ A → Parsed A
  or_invalid (inl message) = stop (invalid host message)
  or_invalid (inr a) = go a

  unfoldable pub parse_list : HttpRequest → Parsed (ℤ × Text × MediaFilter)
  parse_list r = do
    require_scope host r scope_media_read
    f ← or_invalid (parse_media_filter r)
    go ((atoi (query_get (codes "limit") r)).0, query_get (codes "cursor") r, f)

  unfoldable pub parse_delete : HttpRequest → Parsed Uuid
  parse_delete r = do require_scope host r scope_media_write; media_id r

  unfoldable pub parse_attach : HttpRequest → Parsed (Uuid × List Uuid × List Text)
  parse_attach r = do
    require_scope host r scope_media_write
    id ← media_id r
    require_json host r
    req ← decode_body host host.decode_attach r
    tag_ids ← parse_tag_ids req.tags
    go (id, tag_ids, non_empty req.tag_names)

  unfoldable pub parse_detach : HttpRequest → Parsed (Uuid × Uuid)
  parse_detach r = do
    require_scope host r scope_media_write
    media ← media_id r
    tag ← path_id host (codes "tag_id") (codes "invalid tag ID format") r
    go (media, tag)

  unfoldable pub write_media : ℕ → Media → Response
  write_media status m =
      write_json host status (media_data (media_to_response host.show_uuid host.file_url m))

  module _ (nfc : Text → Text) (envs : ℕ → Env) where
    unfoldable pub create : FileStorage → ℕ → Handler App
    create storage max_upload_size r =
        serve (parse_create max_upload_size r) (λ input. create_media nfc envs r.ctx storage input)
          (write_media 201) (handle_error r)

    unfoldable pub get_by_id : Handler App
    get_by_id r =
        serve (parse_get r) (λ id. get_media nfc envs r.ctx id) (write_media 200) (handle_error r)

    unfoldable pub list : Codec MediaCursor → Handler App
    list codec r =
        serve (parse_list r) (λ p. list_media nfc envs r.ctx codec p.0 p.1 p.2)
          (λ page.
            write_json host 200
              (media_list_data (media_list_response host.show_uuid host.file_url page)))
          (handle_error r)

    unfoldable pub delete : FileStorage → Handler App
    delete storage r =
        serve (parse_delete r) (λ id. delete_media nfc envs r.ctx storage id) (λ _. no_content)
          (handle_error r)

    unfoldable pub attach : Handler App
    attach r =
        serve (parse_attach r) (λ p. attach_tags nfc envs r.ctx p.0 p.1 p.2) (write_media 200)
          (handle_error r)

    unfoldable pub detach : Handler App
    detach r =
        serve (parse_detach r) (λ p. detach_tag nfc envs r.ctx p.0 p.1) (λ _. no_content)
          (handle_error r)
