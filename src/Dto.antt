-- ===== src/Dto.antt =====
-- internal/adapter/http/dto/dto.go: the bodies of requests and responses, and the conversions of the
-- handlers into them. What writes a UUID as text is a parameter.
use scoreplay_media_api.Prelude.{ℕ, Bool, not, List, map, Text, codes, is_empty, length}
use scoreplay_media_api.Domain.{Uuid, Time, MediaType, image, video, Tag, Media}

pub record TagResponse : Type 0 where
  pub id : Text
  pub name : Text
  pub created_at : Time

pub record PaginationResponse : Type 0 where
  pub limit : ℕ
  pub next_cursor : Text
  pub has_more : Bool

pub record ListTagsResponse : Type 0 where
  pub tags : List TagResponse
  pub pagination : PaginationResponse

pub record MediaResponse : Type 0 where
  pub id : Text
  pub name : Text
  pub media_type : Text
  pub original_name : Text
  pub file_size : ℕ
  pub file_url : Text
  pub tags : List TagResponse
  pub created_at : Time

pub record ListMediaResponse : Type 0 where
  pub media : List MediaResponse
  pub pagination : PaginationResponse

pub record AttachTagsRequest : Type 0 where
  pub tags : List Text
  pub tag_names : List Text

-- What is encoded as JSON: under "data", under "error", or the states of the health checks.
pub data Payload : Type 0 where
  tag_data : TagResponse → Payload
  tag_list_data : ListTagsResponse → Payload
  media_data : MediaResponse → Payload
  media_list_data : ListMediaResponse → Payload
  error_data : Text → Text → Payload
  status_data : Text → Payload
  status_details_data : Text → Text → Payload

abbrev pub pagination_of : ℕ → Text → PaginationResponse
pagination_of n cursor = record {
  limit = n;
  next_cursor = cursor;
  has_more = not (is_empty cursor);
}

abbrev pub media_type_text : MediaType → Text
media_type_text image = codes "image"
media_type_text video = codes "video"

module _ (show_uuid : Uuid → Text) where
  unfoldable pub tag_to_response : Tag → TagResponse
  tag_to_response t = record { id = show_uuid t.id; name = t.name; created_at = t.created_at }

  unfoldable pub tag_list_response : List Tag × Text → ListTagsResponse
  tag_list_response (tags, cursor) = record {
    tags = map tag_to_response tags;
    pagination = pagination_of (length tags) cursor;
  }

  module _ (file_url : Text → Text) where
    unfoldable pub media_to_response : Media → MediaResponse
    media_to_response m = record {
      id = show_uuid m.id;
      name = m.name;
      media_type = media_type_text m.media_type;
      original_name = m.original_name;
      file_size = m.file_size;
      file_url = file_url m.file_path;
      tags = map tag_to_response m.tags;
      created_at = m.created_at;
    }

    unfoldable pub media_list_response : List Media × Text → ListMediaResponse
    media_list_response (media, cursor) = record {
      media = map media_to_response media;
      pagination = pagination_of (length media) cursor;
    }
