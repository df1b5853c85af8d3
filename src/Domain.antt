-- ===== src/Domain.antt =====
-- internal/domain: the entities, and the identity that a request carries (internal/port/auth.go).
-- A UUID is the number that its 128 bits write, a time the nanoseconds since a fixed epoch, a JSON
-- payload its text.
pub mod Scope
mod Tests
use scoreplay_media_api.Prelude.{
  ℕ, suc, Bool, true, false, ◌||◌, List, [], ◌∷◌, ◌++◌, Option, none, some, Text, codes, text_eq,
  is_empty, take, any, ◌==◌, if◌then◌else◌,
}
use scoreplay_media_api.Result.{Result, ok, err, err_no_tenant_context, ◌>>=◌}

abbrev pub Uuid : Type 0
Uuid = ℕ

abbrev pub Time : Type 0
Time = ℕ

abbrev pub second : ℕ
second = 1_000_000_000

pub data MediaType : Type 0 where
  image video : MediaType

pub record Tag : Type 0 where
  pub id : Uuid
  pub name : Text
  pub created_at : Time

pub record Media : Type 0 where
  pub id : Uuid
  pub name : Text
  pub media_type : MediaType
  pub file_path : Text
  pub original_name : Text
  pub file_size : ℕ
  pub tags : List Tag
  pub created_at : Time

pub data JobStatus : Type 0 where
  pending running completed failed : JobStatus

pub record Job : Type 0 where
  pub id : Uuid
  pub tenant_id : Uuid
  pub job_type : Text
  pub payload : Text
  pub status : JobStatus
  pub result : Option Text
  pub error : Text
  pub attempts : ℕ
  pub max_attempts : ℕ
  pub scheduled_at : Time
  pub started_at : Option Time
  pub completed_at : Option Time
  pub created_at : Time

pub data TenantStatus : Type 0 where
  active suspended : TenantStatus

abbrev pub legacy_tenant_id : Uuid
legacy_tenant_id = 1

pub record Identity : Type 0 where
  pub tenant_id : Uuid
  pub key_id : Uuid
  pub scopes : List Text
  pub expires_at : Option Time

-- `strings.IndexByte`
unfoldable pub index_byte : Text → ℕ → Option ℕ
index_byte [] b = none
index_byte (c ∷ s) b =
    if c == b then some 0 else elim (index_byte s b) [ none ↦ none | some i ↦ some (suc i) ]

-- The part of a scope before its first colon, or the whole scope.
unfoldable pub category_of : Text → Text
unfolding index_byte
category_of scope = elim (index_byte scope b':') [ none ↦ scope | some i ↦ take i scope ]

abbrev pub admin_scope : Text
admin_scope = codes "admin:*"

abbrev pub wildcard : Text
wildcard = codes ":*"

-- The loop over the granted scopes.
unfoldable pub granted_by : Text → Text → Text → Bool
granted_by scope category granted =
    text_eq granted scope || text_eq granted admin_scope || text_eq granted (category ++ wildcard)

unfoldable pub has_scope : Identity → Text → Bool
has_scope i scope =
    if text_eq scope [] then true else any (granted_by scope (category_of scope)) i.scopes

-- The request context, as far as the program reads it: the identity that `WithIdentity` stores.
pub record Context : Type 0 where
  pub identity : Option Identity

unfoldable pub with_identity : Context → Identity → Context
with_identity ctx i = record { identity = some i }

unfoldable pub identity_from_context : Context → Option Identity
identity_from_context ctx = ctx.identity

unfoldable pub tenant_id_from_context : Context → Result Uuid
unfolding identity_from_context
tenant_id_from_context ctx = elim (identity_from_context ctx) [
  | none ↦ err err_no_tenant_context
  | some i ↦ ok i.tenant_id
]
