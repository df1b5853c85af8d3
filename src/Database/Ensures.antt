-- ===== src/Database/Ensures.antt =====
-- internal/adapter/postgres/tx.go: rules for what a transaction has done when it succeeds, and that
-- it has done nothing when it fails.
use scoreplay_media_api.Prelude.{◌≡◌, refl, Bool-cases, inl, inr}
use scoreplay_media_api.Result.{Error, Result, ok, err}
use scoreplay_media_api.Domain.{Uuid, Context, tenant_id_from_context}
use scoreplay_media_api.Database.{
  Db, Env, Conn, Tx, pure, raise, statement, no_op, in_tx, settle, landed, ◌>>=◌, with_tenant_tx,
  with_system_tx,
}

-- The condition holds of a result and the tables beside it, if the result is no error.
abbrev pub Post : {A : Type 0} → (A → Db → Type 0) → Result A × Db → Type 0
Post Q (ok a, db) = Q a db
Post Q (err e, db) = Unit

abbrev pub PostConn : {A : Type 0} → (A → Db → Type 0) → Result A × Conn → Type 0
PostConn Q (ok a, c) = Q a c.db
PostConn Q (err e, c) = Unit

-- From tables with `P`, a success of `m` with the result `a` leaves tables with `Q a`.
pub record Ensures {A : Type 0} (P : Db → Type 0) (m : Tx A) (Q : A → Db → Type 0) : Type 0 where
  pub at : (env : Env) (c : Conn) → P c.db → PostConn Q (m env c)

module _ {A : Type 0} (P : Db → Type 0) (Q : A → Db → Type 0) where
  pub Ensures-pure : (a : A) → ((db : Db) → P db → Q a db) → Ensures P (pure a) Q
  unfolding pure
  Ensures-pure a k = record { at = λ env c h. k c.db h }

  pub Ensures-raise : (e : Error) → Ensures P (raise e) Q
  unfolding raise
  Ensures-raise e = record { at = λ env c h. tt }

  landed-Post : (c : Conn) (r : Result A × Db) → Post Q r → PostConn Q (landed c r)
  landed-Post c (ok a, db) h = h
  landed-Post c (err e, db) h = tt

  pub Ensures-statement :
      (f : Env → Uuid → Db → Result A × Db)
      → ((env : Env) (id : Uuid) (db : Db) → P db → Post Q (f env id db))
      → Ensures P (statement f) Q
  unfolding statement
  Ensures-statement f k = record {
    at = λ env c h. elim (Bool-cases (env.fails c.sent)) [
      | inl e ↦ rw e tt
      | inr e ↦ rw e (landed-Post c _ (k env (env.draw c.sent) c.db h))
    ];
  }

module _ {A B : Type 0} (P : Db → Type 0) (R : A → Db → Type 0) (Q : B → Db → Type 0) where
  pub Ensures-bind :
      (m : Tx A) (f : A → Tx B)
      → Ensures P m R
      → ((a : A) → Ensures (R a) (f a) Q)
      → Ensures P (m >>= f) Q
  unfolding ◌>>=◌
  Ensures-bind m f km kf = record {
    at = λ env c h. let (r, c') = m env c in step r c' env (km.at env c h);
  }
    where
      step :
          (r : Result A) (c : Conn) (env : Env)
          → PostConn R (r, c)
          → PostConn Q ((λ (s : Tx A). (s >>= f) env c) (λ _ _. (r, c)))
      step (ok a) c env h = (kf a).at env c h
      step (err e) c env h = tt

-- A transaction's body takes good tables to good tables.
abbrev pub Preserves : {A : Type 0} → (Db → Type 0) → Tx A → Type 0
Preserves P m = Ensures P m (λ _. P)

pub Preserves-no_op : (P : Db → Type 0) → Preserves P no_op
unfolding no_op
Preserves-no_op P = Ensures-statement P (λ _. P) (λ env id db. (ok tt, db)) (λ env id db h. h)

module _ {A : Type 0} (P : Db → Type 0) where
  settle-Preserves :
      (db : Db) (r : Result A × Conn) → P db → PostConn (λ _. P) r → P (settle db r).1
  settle-Preserves db (ok a, c) h k = k
  settle-Preserves db (err e, c) h k = h

  in_tx-Preserves : (m : Tx A) → Preserves P m → Preserves P (in_tx m)
  in_tx-Preserves m k =
      Ensures-bind P (λ _. P) (λ _. P) _ _ (Preserves-no_op P)
        (λ _.
          Ensures-bind P (λ _. P) (λ _. P) _ _ (Preserves-no_op P)
            (λ _.
              Ensures-bind P (λ _. P) (λ _. P) _ _ k
                (λ a.
                  Ensures-bind P (λ _. P) (λ _. P) _ _ (Preserves-no_op P)
                    (λ _. Ensures-pure P (λ _. P) a (λ db h. h)))))

  pub with_tenant_tx-Preserves :
      (fn : Uuid → Tx A) (env : Env) (ctx : Context) (db : Db)
      → ((t : Uuid) → tenant_id_from_context ctx ≡ ok t → Preserves P (fn t))
      → P db
      → P (with_tenant_tx fn env ctx db).1
  unfolding with_tenant_tx
  with_tenant_tx-Preserves fn env ctx db k h = go (tenant_id_from_context ctx) refl
    where
      run : Result Uuid → Result A × Db
      run (err e) = (err e, db)
      run (ok t) = settle db (in_tx (fn t) env (record { db = db; sent = 0 }))

      go : (r : Result Uuid) → tenant_id_from_context ctx ≡ r → P (run r).1
      go (err e) q = h
      go (ok t) q =
          settle-Preserves db _ h
            ((in_tx-Preserves (fn t) (k t q)).at env (record { db = db; sent = 0 }) h)

  pub with_system_tx-Preserves :
      (fn : Tx A) (env : Env) (db : Db) → Preserves P fn → P db → P (with_system_tx fn env db).1
  unfolding with_system_tx
  with_system_tx-Preserves fn env db k h =
      settle-Preserves db _ h ((in_tx-Preserves fn k).at env (record { db = db; sent = 0 }) h)

ok_ne_err : {A : Type 0} (a : A) (e : Error) → ◌≡◌ {A = Result A} (ok a) (err e) → ⊥
ok_ne_err a e h = cc

module _ {A : Type 0} where
  settle_err :
      (db : Db) (r : Result A × Conn) (e : Error) → (settle db r).0 ≡ err e → (settle db r).1 ≡ db
  settle_err db (ok a, c) e h = absurd (ok_ne_err a e h)
  settle_err db (err f, c) e h = refl

  -- A tenant's transaction that returns an error leaves every table as it was, given that a COMMIT that
  -- returns one has committed nothing.
  pub with_tenant_tx_atomic :
      (fn : Uuid → Tx A) (env : Env) (ctx : Context) (db : Db) (e : Error)
      → (with_tenant_tx fn env ctx db).0 ≡ err e
      → (with_tenant_tx fn env ctx db).1 ≡ db
  unfolding with_tenant_tx
  with_tenant_tx_atomic fn env ctx db e h = go (tenant_id_from_context ctx) h
    where
      run : Result Uuid → Result A × Db
      run (err e) = (err e, db)
      run (ok t) = settle db (in_tx (fn t) env (record { db = db; sent = 0 }))

      go : (r : Result Uuid) → (run r).0 ≡ err e → (run r).1 ≡ db
      go (err f) q = refl
      go (ok t) q = settle_err db _ e q
