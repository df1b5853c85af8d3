-- ===== src/Result.antt =====
-- internal/domain/errors.go and internal/port/auth.go: the sentinel errors, and Go's (value, error)
-- results. A wrapped error is the sentinel that `errors.Is` finds in it; `internal` stands for every
-- error that wraps no sentinel (a driver, storage or decoding error), but for PostgreSQL's error 23505,
-- which the tag repository looks for: `unique_violation`. Messages are left out.
use scoreplay_media_api.Prelude.{◌≡◌, refl, ◌⊎◌, inl, inr, Bool, true, false, if◌then◌else◌}

pub data Error : Type 0 where
  err_not_found err_conflict err_validation err_unsupported_media_type err_file_too_large : Error
  err_key_missing err_key_invalid err_key_expired err_key_revoked : Error
  err_no_tenant_context : Error
  unique_violation : Error
  internal : Error

-- A Go pair (value, error), of which a caller reads the value only if the error is nil.
pub data Result {ℓ} (A : Type ℓ) : Type ℓ where
  err : Error → Result A
  ok : A → Result A

-- `err == nil`
abbrev pub is_ok {ℓ} : {A : Type ℓ} → Result A → Bool
is_ok (ok a) = true
is_ok (err e) = false

pub Result-cases {ℓ} :
    {A : Type ℓ} (r : Result A) → ((a : A) × (r ≡ ok a)) ⊎ ((e : Error) × (r ≡ err e))
Result-cases (ok a) = inl (a, refl)
Result-cases (err e) = inr (e, refl)

-- `if bad { return err }`
abbrev pub refuse_if : Bool → Error → Result (Unit {0})
refuse_if bad e = if bad then err e else ok tt

-- `if err != nil { return err }` between two calls.
module _ {A B : Type 0} where
  infixl 10 ◌>>=◌
  abbrev pub ◌>>=◌ : Result A → (A → Result B) → Result B
  err e >>= next = err e
  ok value >>= next = next value

module _ {B : Type 0} where
  infixl 10 ◌>>◌
  abbrev pub ◌>>◌ : Result (Unit {0}) → Result B → Result B
  check >> next = check >>= λ passed. next
