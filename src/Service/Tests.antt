-- ===== src/Service/Tests.antt =====
-- Uploads and deletions with a storage in memory.
use scoreplay_media_api.Prelude.{
  ◌≢◌, refl, inl, inr, [], ◌∷◌, Text, codes, text_eq, eq→text_eq, any, arith,
}
use scoreplay_media_api.LocalStorage.{holds}
use scoreplay_media_api.Service.{App, CreateInput, create_media, delete_media}
use scoreplay_media_api.Service.Consistency.{IsConsistent, create_media-IsConsistent}
use scoreplay_media_api.Service.Deletion.{delete_media-IsConsistent}
use scoreplay_media_api.StorageFixtures.{memory, memory-IsStorage}
use scoreplay_media_api.Fixtures.{env_at, tenant_ctx, shared_db}

abbrev stored_app : App
stored_app = record {
  db = shared_db;
  files = (codes "2/p.png", codes "p") ∷ (codes "2/q.png", codes "q") ∷ [];
  calls = 0;
}

different : codes "2/p.png" ≢ codes "2/q.png"
unfolding text_eq
different e = ground (arith, eq→text_eq (codes "2/p.png") (codes "2/q.png") e)

stored_app-IsConsistent : IsConsistent stored_app
unfolding holds any text_eq
stored_app-IsConsistent = record {
  held = (refl, (refl, tt));
  paths = (λ m. elim m [ inl e ↦ different e | inr n ↦ n ], (λ m. m, tt));
}

abbrev same : Text → Text
same s = s

abbrev upload : CreateInput
upload = record {
  name = codes "goal";
  file = codes "bytes";
  file_name = codes "g.png";
  file_size = 5;
  tag_ids = 11 ∷ [];
  tag_names = codes "b" ∷ [];
  content_type = codes "image/png";
}

create_media-IsConsistent_example :
    IsConsistent (create_media same env_at (tenant_ctx 2) memory upload stored_app).1
create_media-IsConsistent_example =
    create_media-IsConsistent same env_at (tenant_ctx 2) memory memory-IsStorage upload stored_app
      stored_app-IsConsistent

delete_media-IsConsistent_example :
    IsConsistent (delete_media same env_at (tenant_ctx 2) memory 21 stored_app).1
delete_media-IsConsistent_example =
    delete_media-IsConsistent same env_at (tenant_ctx 2) memory memory-IsStorage 21 stored_app
      stored_app-IsConsistent
