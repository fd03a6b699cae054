-- ===== src/Exec/Outcomes.antt =====
-- What holds after an action that returns. An exception promises nothing: what it leaves behind in
-- a transaction is rolled back.
use componi_back_nest.Prelude.{
  arith, ◌≡◌, refl, sym, ap, subst, Bool, true, false, Option, none, some, if◌then◌else◌,
}
use componi_back_nest.Database.{Db}
use componi_back_nest.Platform.Orm.{Orm}
use componi_back_nest.Exec.{
  Exec, World, Result, ok, err, Error, query_failed, in_failed_sql_transaction, unique_violation,
  continue, returned, transaction, transaction_db, require, present, in_trx, trx_insert, ◌>>=◌,
  ◌>>◌,
}

module _ {A : Type 0} where
  abbrev pub Post : (A → World → Type 0) → Result A × World → Type 0
  Post Q (ok a, w) = Q a w
  Post Q (err e, w) = Unit

result_or : {A : Type 0} → A → Result A → A
result_or a (ok b) = b
result_or a (err e) = a

-- What holds of the world after an action, whatever it returned.
pub world-Post :
    {A : Type 0} (P : World → Type 0) (r : Result A × World) → P r.1 → Post (λ _ v. P v) r
world-Post P (ok a, w) h = h
world-Post P (err e, w) h = tt

-- An action that returned.
pub ok-Post :
    {A : Type 0} (Q : A → World → Type 0) (r : Result A × World) (a : A)
    → r.0 ≡ ok a
    → Post Q r
    → Q a r.1
unfolding result_or
ok-Post Q (ok b, w) a e h = subst (λ c. Q c w) (ap (λ x. result_or b x) e) h
ok-Post Q (err x, w) a e h = ground (arith, e)

module _ {A B : Type 0} (R : A → World → Type 0) (Q : B → World → Type 0) where
  continue-Post :
      (r : Result A) (f : A → Exec B) (w : World)
      → Post R (r, w)
      → ((a : A) (v : World) → R a v → Post Q (f a v))
      → Post Q (continue r f w)
  continue-Post (ok a) f w h k = k a w h
  continue-Post (err e) f w h k = tt

  -- The rule of composition.
  pub bind-Post :
      (m : Exec A) (f : A → Exec B) (w : World)
      → Post R (m w)
      → ((a : A) (v : World) → R a v → Post Q (f a v))
      → Post Q ((m >>= f) w)
  bind-Post m f w h k = continue-Post (m w).0 f (m w).1 h k

module _ {B : Type 0} (Q : B → World → Type 0) where
  pub require-Post :
      (t : Bool) (e : Error) (m : Exec B) (w : World)
      → (t ≡ true → Post Q (m w))
      → Post Q ((require t e >> m) w)
  require-Post true e m w h = h refl
  require-Post false e m w h = tt

  pub present-Post :
      {A : Type 0} (o : Option A) (e : Error) (f : A → Exec B) (w : World)
      → ((a : A) → o ≡ some a → Post Q (f a w))
      → Post Q ((present o e >>= f) w)
  present-Post none e f w h = tt
  present-Post (some a) e f w h = h a refl

  unless-Post :
      (b : Bool) (e : Error) (w : World) (r : Result B × World)
      → (b ≡ false → Post Q r)
      → Post Q (if b then (err e, w) else r)
  unless-Post true e w r h = tt
  unless-Post false e w r h = h refl

  -- A statement in a transaction that has failed throws.
  pub in_trx-Post :
      (m : Exec B) (w : World) → (w.aborted ≡ false → Post Q (m w)) → Post Q (in_trx m w)
  in_trx-Post m w h = unless-Post w.aborted (query_failed in_failed_sql_transaction) w (m w) h

module _ (Q : Unit → World → Type 0) (f : Db → Option Db) (w : World)
    (h : (d : Db) → f w.db ≡ some d → Q tt (record w { db = d })) where
  inserted-Post :
      (o : Option Db)
      → f w.db ≡ o
      → Post Q (elim o as (λ _. Result Unit × World) [
        | none ↦ (err (query_failed unique_violation), record w { aborted = true })
        | some d ↦ (ok tt, record w { db = d })
      ])
  inserted-Post none e = tt
  inserted-Post (some d) e = h d e

  pub insert-Post : Post Q (trx_insert f w)
  insert-Post =
      in_trx-Post Q
        (λ v. elim (f v.db) as (λ _. Result Unit × World) [
          | none ↦ (err (query_failed unique_violation), record v { aborted = true })
          | some d ↦ (ok tt, record v { db = d })
        ])
        w (λ _. inserted-Post (f w.db) refl)

-- A transaction keeps what its callback keeps when it returns.
pub transaction-Post :
    {A : Type 0} (o : Orm) (P : Db → Type 0) (body : Exec A) (w : World)
    → P w.db
    → Post (λ _ v. P v.db) (body (record w { aborted = false }))
    → P (transaction o body w).1.db
transaction-Post {A = A} o P body w h k =
    transaction_db o P body w h
      (λ done _. returned-Post (body (record w { aborted = false })) done k)
  where
    returned-Post : (r : Result A × World) → returned r.0 ≡ true → Post (λ _ v. P v.db) r → P r.1.db
    returned-Post (ok a, v) e k = k
    returned-Post (err x, v) e k = ground arith

-- A transaction that returns leaves what its callback left, if no statement of it had failed.
pub committed-Post :
    {A : Type 0} (o : Orm) (Q : Db → Type 0) (body : Exec A) (w : World)
    → Post (λ _ v. (v.aborted ≡ false) × Q v.db) (body (record w { aborted = false }))
    → Post (λ _ v. Q v.db) (transaction o body w)
committed-Post {A = A} o Q body w h = settled (body (record w { aborted = false })) h
  where
    settled :
        (r : Result A × World)
        → Post (λ _ v. (v.aborted ≡ false) × Q v.db) r
        → Post
            (λ _ v. Q v.db)
            (
              r.0,
              record r.1 { db = o.settle w.db r.1.db (returned r.0) r.1.aborted; aborted = false },
            )
    settled (ok a, v) h =
        subst (λ b. Q (o.settle w.db v.db true b)) (sym h.0)
          (subst Q (sym (o.settle_commit w.db v.db)) h.1)
    settled (err e, v) h = tt
