-- ===== src/Database.antt =====
-- The tables of internal/adapter/postgres/migrations, as lists of rows, and internal/adapter/postgres/
-- tx.go. A statement of the repositories is a function on the tables that says what its SQL text
-- does: its WHERE clause, its unique constraints and its cascades. The row-level policies of migration
-- 006 are left out, so that what is shown rests on the WHERE clauses alone.
pub mod Ensures
pub mod Owned
pub mod Changes
pub mod Valid
pub mod Steady
mod Tests
use scoreplay_media_api.Prelude.{
  ℕ, ◌+◌, Bool, true, false, List, [], ◌∷◌, Option, none, some, Text, if◌then◌else◌,
}
use scoreplay_media_api.Result.{Error, Result, ok, err, internal}
use scoreplay_media_api.Domain.{
  Uuid, Time, MediaType, JobStatus, TenantStatus, Context, tenant_id_from_context,
}

pub record TagRow : Type 0 where
  pub id : Uuid
  pub tenant_id : Uuid
  pub name : Text
  pub created_at : Time

pub record MediaRow : Type 0 where
  pub id : Uuid
  pub tenant_id : Uuid
  pub name : Text
  pub media_type : MediaType
  pub file_path : Text
  pub original_name : Text
  pub file_size : ℕ
  pub created_at : Time

-- A row of `media_tags`.
pub record LinkRow : Type 0 where
  pub tenant_id : Uuid
  pub media_id : Uuid
  pub tag_id : Uuid

-- The columns `result` and `error` may be NULL.
pub record JobRow : Type 0 where
  pub id : Uuid
  pub tenant_id : Uuid
  pub job_type : Text
  pub payload : Text
  pub status : JobStatus
  pub result : Option Text
  pub error : Option Text
  pub attempts : ℕ
  pub max_attempts : ℕ
  pub scheduled_at : Time
  pub started_at : Option Time
  pub completed_at : Option Time
  pub created_at : Time

pub record IdempotencyRow : Type 0 where
  pub tenant_id : Uuid
  pub key : Text
  pub status_code : ℕ
  pub response : Text
  pub created_at : Time
  pub expires_at : Time

pub record TenantRow : Type 0 where
  pub id : Uuid
  pub name : Text
  pub status : TenantStatus

pub record KeyRow : Type 0 where
  pub id : Uuid
  pub tenant_id : Uuid
  pub key_hash : Text
  pub name : Text
  pub scopes : List Text
  pub expires_at : Option Time

pub record Db : Type 0 where
  pub tags : List TagRow
  pub media : List MediaRow
  pub media_tags : List LinkRow
  pub jobs : List JobRow
  pub idempotency_keys : List IdempotencyRow
  pub tenants : List TenantRow
  pub api_keys : List KeyRow

abbrev pub empty_db : Db
empty_db = record {
  tags = [];
  media = [];
  media_tags = [];
  jobs = [];
  idempotency_keys = [];
  tenants = [];
  api_keys = [];
}

-- What the database server adds to a transaction: `now()`, the ids that `gen_random_uuid()` draws,
-- the order of texts under its collation, and which of the statements fail (a lost connection, a
-- cancelled context).
pub record Env : Type 0 where
  pub now : Time
  pub draw : ℕ → Uuid
  pub text_before : Text → Text → Bool
  pub fails : ℕ → Bool

-- A transaction's view of the tables, and the number of statements that were sent.
pub record Conn : Type 0 where
  pub db : Db
  pub sent : ℕ

-- What was written before an error stays in the transaction's view, until it is rolled back.
abbrev pub Tx {ℓ} : Type ℓ → Type ℓ
Tx A = Env → Conn → Result A × Conn

module _ {ℓ} {A : Type ℓ} where
  unfoldable pub pure : A → Tx A
  pure a env c = (ok a, c)

  unfoldable pub raise : Error → Tx A
  raise e env c = (err e, c)

  -- The outcome of a statement that reached the server.
  abbrev pub landed : Conn → Result A × Db → Result A × Conn
  landed c (r, db) = (r, record { db = db; sent = c.sent + 1 })

  -- One statement: a fault, or what it does to the tables in this environment with this fresh id.
  unfoldable pub statement : (Env → Uuid → Db → Result A × Db) → Tx A
  statement f env c =
      if env.fails c.sent
      then (err internal, record c { sent = c.sent + 1 })
      else landed c (f env (env.draw c.sent) c.db)

module _ {ℓ} {A B : Type ℓ} where
  abbrev pub continue : Result A → (A → Tx B) → Tx B
  continue (ok a) f = f a
  continue (err e) f = raise e

  infixl 10 ◌>>=◌ ◌>>◌
  unfoldable pub ◌>>=◌ : Tx A → (A → Tx B) → Tx B
  unfolding raise
  ◌>>=◌ m f env c = let (r, c') = m env c in continue r f env c'

  abbrev pub ◌>>◌ : Tx A → Tx B → Tx B
  m >> n = m >>= λ _. n

-- The deferred ROLLBACK undoes what was not committed. A COMMIT that returns an error is taken to have
-- committed nothing.
abbrev pub settle {ℓ} : {A : Type ℓ} → Db → Result A × Conn → Result A × Db
settle db (ok a, c) = (ok a, c.db)
settle db (err e, c) = (err e, db)

-- BEGIN and SET LOCAL before, and COMMIT after, are statements that read and write no table.
unfoldable pub no_op : Tx (Unit {0})
unfolding statement
no_op = statement (λ env id db. (ok tt, db))

module _ {A : Type 0} where
  abbrev pub in_tx : Tx A → Tx A
  in_tx m = do no_op; no_op; a ← m; no_op; pure a

  unfoldable pub with_tenant_tx : (Uuid → Tx A) → Env → Context → Db → Result A × Db
  unfolding no_op pure ◌>>=◌
  with_tenant_tx fn env ctx db = elim (tenant_id_from_context ctx) [
    | err e ↦ (err e, db)
    | ok tenant_id ↦ settle db (in_tx (fn tenant_id) env (record { db = db; sent = 0 }))
  ]

  unfoldable pub with_system_tx : Tx A → Env → Db → Result A × Db
  unfolding no_op pure ◌>>=◌
  with_system_tx fn env db = settle db (in_tx fn env (record { db = db; sent = 0 }))
