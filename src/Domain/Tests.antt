-- ===== src/Domain/Tests.antt =====
-- A scope that a category covers.
use scoreplay_media_api.Prelude.{◌≡◌, ◌↔◌, ◌⊎◌, [], ◌∷◌, true, none, codes}
use scoreplay_media_api.Domain.{Identity, has_scope}
use scoreplay_media_api.Domain.Scope.{SomeCovers, has_scope_iff}

abbrev writer : Identity
writer = record { tenant_id = 2; key_id = 41; scopes = codes "media:*" ∷ []; expires_at = none }

has_scope_iff_example :
    (has_scope writer (codes "media:write") ≡ true)
    ↔ ((codes "media:write" ≡ []) ⊎ SomeCovers (codes "media:*" ∷ []) (codes "media:write"))
has_scope_iff_example = has_scope_iff writer (codes "media:write")
