-- ===== src/Database/Changes.antt =====
-- Transactions made of statements that each are a `Change`.
use scoreplay_media_api.Prelude.{◌≡◌, sym, ◌∙◌}
use mathlib.Core.Path.{subst}
use scoreplay_media_api.Result.{Error, Result, ok, err}
use scoreplay_media_api.Domain.{Uuid, Context, tenant_id_from_context}
use scoreplay_media_api.Database.{Db, Env, Tx, pure, raise, statement, ◌>>=◌, with_tenant_tx}
use scoreplay_media_api.Database.Ensures.{
  Post, Ensures-pure, Ensures-raise, Ensures-statement, Ensures-bind, Preserves,
  with_tenant_tx-Preserves,
}
use scoreplay_media_api.Database.Valid.{IsValid, Change, Change-refl, Change-trans}

-- Every success of the transaction is a change by the tenant.
abbrev pub Changes : {A : Type 0} → Uuid → Tx A → Type 0
Changes tenant m = (base : Db) → Preserves (Change tenant base) m

Post-after :
    {A : Type 0} (tenant : Uuid) (a b : Db) (r : Result A × Db)
    → Change tenant a b
    → Post (λ _. Change tenant b) r
    → Post (λ _. Change tenant a) r
Post-after tenant a b (ok x, c) h k = Change-trans tenant a b c h k
Post-after tenant a b (err e, c) h k = tt

module _ {A : Type 0} (tenant : Uuid) where
  pub Changes-statement :
      (f : Env → Uuid → Db → Result A × Db)
      → ((env : Env) (id : Uuid) (db : Db)
          → IsValid db
          → Post (λ _. Change tenant db) (f env id db))
      → Changes tenant (statement f)
  Changes-statement f k base =
      Ensures-statement _ _ f (λ env id db h. Post-after tenant base db _ h (k env id db h.valid))

  pub Changes-pure : (a : A) → Changes tenant (pure a)
  Changes-pure a base = Ensures-pure _ _ a (λ db h. h)

  pub Changes-raise : (e : Error) → Changes tenant (raise {A = A} e)
  Changes-raise e base = Ensures-raise _ _ e

-- A statement that only reads.
module _ {A : Type 0} (tenant : Uuid) where
  pub Changes-read :
      (f : Env → Uuid → Db → A) → Changes tenant (statement (λ env id db. (ok (f env id db), db)))
  Changes-read f = Changes-statement tenant _ (λ env id db v. Change-refl tenant db v)

module _ {A B : Type 0} (tenant : Uuid) where
  pub Changes-bind :
      (m : Tx A) (f : A → Tx B)
      → Changes tenant m
      → ((a : A) → Changes tenant (f a))
      → Changes tenant (m >>= f)
  Changes-bind m f km kf base = Ensures-bind _ _ _ m f (km base) (λ a. kf a base)

module _ {A : Type 0} where
  -- What a tenant's method does to the tables, whether it succeeds or fails.
  pub with_tenant_tx-Change :
      (fn : Uuid → Tx A) (env : Env) (ctx : Context) (db : Db) (tenant : Uuid)
      → tenant_id_from_context ctx ≡ ok tenant
      → ((t : Uuid) → Changes t (fn t))
      → IsValid db
      → Change tenant db (with_tenant_tx fn env ctx db).1
  with_tenant_tx-Change fn env ctx db tenant e k v =
      with_tenant_tx-Preserves (Change tenant db) fn env ctx db
        (λ t q. subst (λ u. Preserves (Change u db) (fn t)) (same t tenant (sym q ∙ e)) (k t db))
        (Change-refl tenant db v)
    where
      same : (t u : Uuid) → ◌≡◌ {A = Result Uuid} (ok t) (ok u) → t ≡ u
      same t u p = cc
