-- ===== src/Handler/Tags.antt =====
-- internal/adapter/http/handler/tag_handler.go: TagHandler.
use scoreplay_media_api.Prelude.{ℕ, Bool, Text, codes, if◌then◌else◌}
use scoreplay_media_api.Result.{Error, err_validation, err_conflict, err_not_found}
use scoreplay_media_api.Domain.{Uuid, Tag}
use scoreplay_media_api.Database.{Env}
use scoreplay_media_api.Cursor.{Codec}
use scoreplay_media_api.TagRepo.{TagCursor}
use scoreplay_media_api.Http.{HttpRequest, Response, Handler}
use scoreplay_media_api.Dto.{tag_data, tag_list_data, tag_to_response, tag_list_response}
use scoreplay_media_api.Atoi.{ℤ, atoi}
use scoreplay_media_api.Service.{App, create_tag, list_tags, rename_tag, delete_tag}
use scoreplay_media_api.Handler.{
  Host, Parsed, go, ◌>>=◌, ◌>>◌, serve, no_content, scope_tags_read, scope_tags_write, query_get,
  write_json, write_error, invalid, require_scope, require_json, decode_body, path_id,
}

module _ (host : Host) where
  unfoldable pub handle_error : HttpRequest → Error → Response
  handle_error r err_validation = invalid host (host.error_text r err_validation)
  handle_error r err_conflict =
      write_error host 409 (codes "CONFLICT") (host.error_text r err_conflict)
  handle_error r err_not_found =
      write_error host 404 (codes "NOT_FOUND") (host.error_text r err_not_found)
  handle_error r _ =
      write_error host 500 (codes "INTERNAL_ERROR") (codes "an unexpected error occurred")

  unfoldable pub parse_create : HttpRequest → Parsed Text
  parse_create r = do
    require_scope host r scope_tags_write
    require_json host r
    decode_body host host.decode_name r

  unfoldable pub parse_list : HttpRequest → Parsed (ℤ × Text)
  parse_list r = do
    require_scope host r scope_tags_read
    go ((atoi (query_get (codes "limit") r)).0, query_get (codes "cursor") r)

  abbrev pub tag_id : HttpRequest → Parsed Uuid
  tag_id r = path_id host (codes "id") (codes "invalid tag ID format") r

  unfoldable pub parse_update : HttpRequest → Parsed (Uuid × Text)
  parse_update r = do
    require_scope host r scope_tags_write
    id ← tag_id r
    require_json host r
    name ← decode_body host host.decode_name r
    go (id, name)

  unfoldable pub parse_delete : HttpRequest → Parsed Uuid
  parse_delete r = do require_scope host r scope_tags_write; tag_id r

  -- 201 if the tag is new, and 200 if its name was there.
  unfoldable pub created_tag : Tag × Bool → Response
  created_tag (t, created) =
      write_json host (if created then 201 else 200) (tag_data (tag_to_response host.show_uuid t))

  module _ (nfc : Text → Text) (envs : ℕ → Env) where
    unfoldable pub create : Handler App
    create r =
        serve (parse_create r) (λ name. create_tag nfc envs r.ctx name) created_tag (handle_error r)

    unfoldable pub list : Codec TagCursor → Handler App
    list codec r =
        serve (parse_list r) (λ p. list_tags nfc envs r.ctx codec p.0 p.1)
          (λ page. write_json host 200 (tag_list_data (tag_list_response host.show_uuid page)))
          (handle_error r)

    unfoldable pub update : Handler App
    update r =
        serve (parse_update r) (λ p. rename_tag nfc envs r.ctx p.0 p.1)
          (λ t. write_json host 200 (tag_data (tag_to_response host.show_uuid t))) (handle_error r)

    unfoldable pub delete : Handler App
    delete r =
        serve (parse_delete r) (λ id. delete_tag nfc envs r.ctx id) (λ _. no_content)
          (handle_error r)
