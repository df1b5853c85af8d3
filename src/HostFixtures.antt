-- ===== src/HostFixtures.antt =====
-- A host for the handlers and parts for a router, for the runs of the model: a UUID is written as the
-- one character that it numbers, a body is its own JSON, and routes match exactly.
use scoreplay_media_api.Prelude.{
  ◌+◌, false, ◌&&◌, List, [], ◌∷◌, Option, none, some, Text, codes, text_eq, is_empty, find,
  if◌then◌else◌,
}
use scoreplay_media_api.Result.{ok}
use scoreplay_media_api.Domain.{Uuid, Time, active}
use scoreplay_media_api.Cursor.{Codec}
use scoreplay_media_api.Database.{Db}
use scoreplay_media_api.Database.Valid.{IsValid}
use scoreplay_media_api.Http.{HttpRequest, Response}
use scoreplay_media_api.Service.{FileStorage, App}
use scoreplay_media_api.Handler.{Host, malformed}
use scoreplay_media_api.Router.{Route, Match, found, unknown, not_exist, Deps, Moment, SignedIn}
use scoreplay_media_api.Fixtures.{env_at, no_ctx, shared_db, shared_db-IsValid}

abbrev pub read_uuid : Text → Option Uuid
read_uuid [] = none
read_uuid (c ∷ s) = if is_empty s then some c else none

abbrev pub plain_host : Host
plain_host = record {
  encode = λ p. some (codes "{}");
  decode_name = λ b. some b;
  decode_attach = λ b. none;
  parse_uuid = read_uuid;
  show_uuid = λ n. n ∷ [];
  parse_form = λ n r. malformed;
  detect_content_type = λ b. codes "image/png";
  file_url = λ p. p;
  error_text = λ r e. [];
  ping_fails = λ r. false;
}

abbrev pub plain_codec : {K : Type 0} → Codec K
plain_codec = record {
  base64_encode = λ s. s;
  base64_decode = λ s. some s;
  marshal = λ k. [];
  unmarshal = λ s. none;
}

abbrev pub plain_storage : FileStorage
plain_storage = record {
  save = λ n ctx content ext files. (ok ext, (ext, content) ∷ files);
  delete = λ n path files. (ok tt, files);
}

abbrev pub page : Text → Response
page body = record { status = 404; headers = []; body = body }

abbrev pub to_match : Option Route → Match
to_match none = unknown (page (codes "404 page not found"))
to_match (some route) = found route.target []

abbrev pub exact_match : List Route → HttpRequest → Match
exact_match rs r =
    to_match (find (λ (q : Route). text_eq q.pattern r.path && text_eq q.method r.method) rs)

abbrev pub plain_deps : Option Uuid → Deps
plain_deps dev = record {
  host = plain_host;
  nfc = λ s. s;
  tag_codec = plain_codec;
  media_codec = plain_codec;
  storage = plain_storage;
  max_upload_size = 100;
  hash_key = λ s. s;
  cache_ttl = 5;
  dev_tenant_id = dev;
  cors_origins = [];
  limits = record { one = 1; rps = 1; burst = 3 };
  match_route = exact_match;
  real_ip = λ r. r.remote_addr;
  compress = λ r w. w;
  metrics_page = page [];
  open_upload = λ files name. not_exist;
  file_server = λ open_file r. page [];
  page_not_found = page [];
}

abbrev pub moment_at : Time → Moment
moment_at t = record {
  now = t;
  drawn_id = codes "id";
  auth_env = env_at t;
  envs = λ n. env_at (t + n);
}

-- Tenant 3 has a key, and shares the tables with tenant 2.
abbrev pub keyed_db : Db
keyed_db = record shared_db {
  tenants = record { id = 3; name = codes "t"; status = active } ∷ [];
  api_keys =
      record {
        id = 41;
        tenant_id = 3;
        key_hash = codes "secret";
        name = codes "k";
        scopes = codes "admin:*" ∷ [];
        expires_at = none;
      }
      ∷ [];
}

pub keyed_db-IsValid : IsValid keyed_db
keyed_db-IsValid =
    let v = shared_db-IsValid in
    record {
      tag_ids = v.tag_ids;
      tag_names = v.tag_names;
      media_ids = v.media_ids;
      links = v.links;
      link_media = v.link_media;
      link_tags = v.link_tags;
    }

abbrev pub keyed_app : App
keyed_app = record { db = keyed_db; files = []; calls = 0 }

abbrev pub signed_out : SignedIn
signed_out = ([], keyed_app)

abbrev pub post_tag : HttpRequest
post_tag = record {
  method = codes "POST";
  path = codes "/api/v1/tags/";
  remote_addr = codes "10.0.0.1:99";
  headers =
      (codes "X-Api-Key", codes "secret") ∷ (codes "Content-Type", codes "application/json") ∷ [];
  query = [];
  params = [];
  body = codes "goal";
  ctx = no_ctx;
}
