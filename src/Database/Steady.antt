-- ===== src/Database/Steady.antt =====
-- Transactions whose statements all reach the server, and what a success says.
use scoreplay_media_api.Prelude.{◌≡◌, inl, inr, refl, false}
use scoreplay_media_api.Result.{Error, Result, ok, err, Result-cases}
use scoreplay_media_api.Domain.{Uuid, Context, tenant_id_from_context}
use scoreplay_media_api.Database.{
  Db, Env, Conn, Tx, pure, statement, no_op, in_tx, settle, ◌>>=◌, ◌>>◌, with_tenant_tx,
  with_system_tx,
}
use scoreplay_media_api.Database.Ensures.{
  Post, PostConn, Ensures, Ensures-pure, Ensures-bind, Preserves-no_op,
}

abbrev pub steady : Env → Env
steady env = record env { fails = λ n. false }

-- The view of the tables after BEGIN and SET LOCAL.
abbrev pub opened : Db → Conn
opened db = record { db = db; sent = 2 }

module _ {A : Type 0} where
  settle_closed :
      (db : Db) (env : Env) (r : Result A × Conn)
      → settle db ((λ (m : Tx A). (do a ← m; no_op; pure a) (steady env) r.1) (λ e c. r))
        ≡ settle db r
  unfolding ◌>>=◌ no_op pure statement
  settle_closed db env (ok a, c) = refl
  settle_closed db env (err e, c) = refl

  pub with_tenant_tx-steady :
      (fn : Uuid → Tx A) (env : Env) (ctx : Context) (db : Db) (t : Uuid)
      → tenant_id_from_context ctx ≡ ok t
      → with_tenant_tx fn (steady env) ctx db ≡ settle db (fn t (steady env) (opened db))
  unfolding ◌>>=◌ no_op pure statement with_tenant_tx
  with_tenant_tx-steady fn env ctx db t h =
      rw (h, with_tenant_tx) (settle_closed db env (fn t (steady env) (opened db)))

module _ {A : Type 0} (Q : A → Db → Type 0) where
  settle-Post : (db : Db) (r : Result A × Conn) → PostConn Q r → Post Q (settle db r)
  settle-Post db (ok a, c) h = h
  settle-Post db (err e, c) h = tt

  in_tx-Ensures :
      (db : Db) (m : Tx A) → Ensures (λ d. d ≡ db) m Q → Ensures (λ d. d ≡ db) (in_tx m) Q
  in_tx-Ensures db m k =
      let P : Db → Type 0 = λ d. d ≡ db in
      Ensures-bind P (λ _. P) Q _ _ (Preserves-no_op P)
        (λ _.
          Ensures-bind P (λ _. P) Q _ _ (Preserves-no_op P)
            (λ _. Ensures-bind P Q Q _ _ k (λ a.
              Ensures-bind (Q a) (λ _. Q a) Q _ _ (Preserves-no_op (Q a))
                (λ _. Ensures-pure (Q a) Q a (λ d h. h)))))

  -- What a tenant's transaction ensures of its result and of the tables that it leaves.
  pub with_tenant_tx-Post :
      (fn : Uuid → Tx A) (env : Env) (ctx : Context) (db : Db) (t : Uuid)
      → tenant_id_from_context ctx ≡ ok t
      → Ensures (λ d. d ≡ db) (fn t) Q
      → Post Q (with_tenant_tx fn env ctx db)
  unfolding with_tenant_tx
  with_tenant_tx-Post fn env ctx db t h k =
      rw (h, with_tenant_tx)
        (settle-Post db _ ((in_tx-Ensures db (fn t) k).at env (record { db = db; sent = 0 }) refl))

  pub with_tenant_tx-Post_any :
      (fn : Uuid → Tx A) (env : Env) (ctx : Context) (db : Db)
      → ((t : Uuid) → Ensures (λ d. d ≡ db) (fn t) Q)
      → Post Q (with_tenant_tx fn env ctx db)
  unfolding with_tenant_tx
  with_tenant_tx-Post_any fn env ctx db k = elim (Result-cases (tenant_id_from_context ctx)) [
    | inl (t, h) ↦ with_tenant_tx-Post fn env ctx db t h (k t)
    | inr (e, h) ↦ rw (h, with_tenant_tx) tt
  ]

  pub with_system_tx-Post :
      (fn : Tx A) (env : Env) (db : Db)
      → Ensures (λ d. d ≡ db) fn Q
      → Post Q (with_system_tx fn env db)
  unfolding with_system_tx
  with_system_tx-Post fn env db k =
      settle-Post db _ ((in_tx-Ensures db fn k).at env (record { db = db; sent = 0 }) refl)

module _ {A : Type 0} where
  pub with_system_tx-steady :
      (fn : Tx A) (env : Env) (db : Db)
      → with_system_tx fn (steady env) db ≡ settle db (fn (steady env) (opened db))
  unfolding ◌>>=◌ no_op pure statement with_system_tx
  with_system_tx-steady fn env db = settle_closed db env (fn (steady env) (opened db))

  settle_err :
      (db : Db) (r : Result A × Conn) (e : Error) → (settle db r).0 ≡ err e → (settle db r).1 ≡ db
  settle_err db (ok a, c) e h = absurd (clash a e h)
    where
      clash : (a : A) (e : Error) → ◌≡◌ {A = Result A} (ok a) (err e) → ⊥
      clash a e h = cc
  settle_err db (err f, c) e h = refl

  pub with_system_tx_atomic :
      (fn : Tx A) (env : Env) (db : Db) (e : Error)
      → (with_system_tx fn env db).0 ≡ err e
      → (with_system_tx fn env db).1 ≡ db
  unfolding with_system_tx
  with_system_tx_atomic fn env db e h = settle_err db _ e h
