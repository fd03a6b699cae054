-- ===== src/Exec/Keeps.antt =====
-- What an action keeps, whether it returns or throws.
use componi_back_nest.Prelude.{
  arith, ◌≡◌, refl, Bool, true, false, Option, none, some, if◌then◌else◌,
}
use componi_back_nest.Database.{Db}
use componi_back_nest.Exec.{
  Exec, World, Result, ok, err, Error, query_failed, unique_violation, present, in_trx, trx_insert,
  trx_write, insert_alone, caught,
}
use componi_back_nest.Exec.Outcomes.{Post}

pub one_of_two :
    {A : Type 0} (P : A → Type 0) (b : Bool) (x y : A) → P x → P y → P (if b then x else y)
one_of_two P true x y h k = h
one_of_two P false x y h k = k

-- A statement of a transaction that fails or has an effect.
module _ {A : Type 0} (P : World → Type 0) where
  pub in_trx_keeps : (m : Exec A) (w : World) → P w → P (m w).1 → P (in_trx m w).1
  in_trx_keeps m w h k = one_of_two (λ (s : Result A × World). P s.1) w.aborted _ (m w) h k

module _ (P : Db → Type 0) (f : Db → Option Db) (w : World) (h : P w.db) where
  inserted_keeps :
      (o : Option Db)
      → ((d : Db) → o ≡ some d → P d)
      → P
          (elim o as (λ _. Result Unit × World) [
            | none ↦ (err (query_failed unique_violation), record w { aborted = true })
            | some d ↦ (ok tt, record w { db = d })
          ]).1.db
  inserted_keeps none k = h
  inserted_keeps (some d) k = k d refl

  pub trx_insert_keeps : ((d : Db) → f w.db ≡ some d → P d) → P (trx_insert f w).1.db
  trx_insert_keeps k =
      one_of_two (λ (s : Result Unit × World). P s.1.db) w.aborted _ _ h (inserted_keeps (f w.db) k)

pub caught_world : (r : Result Unit × World) → (caught r).1 ≡ r.1
caught_world (ok a, w) = refl
caught_world (err (query_failed unique_violation), w) = refl
caught_world (err e, w) = ground arith

module _ (P : Db → Type 0) (f : Db → Db) (w : World) where
  pub trx_write_keeps : P w.db → P (f w.db) → P (trx_write f w).1.db
  trx_write_keeps h k = one_of_two (λ (s : Result Unit × World). P s.1.db) w.aborted _ _ h k

module _ (P : Db → Type 0) where
  pub present_db :
      {A : Type 0} (o : Option A) (x : Error) (w : World) → P w.db → P (present o x w).1.db
  present_db none x w h = h
  present_db (some a) x w h = h

-- An action that keeps a property of the database keeps it when it returns.
pub kept-Post :
    {A : Type 0} (P : Db → Type 0) (r : Result A × World) → P r.1.db → Post (λ _ v. P v.db) r
kept-Post P (ok a, w) h = h
kept-Post P (err e, w) h = tt

-- A statement outside a transaction.
module _ (P : Db → Type 0) (f : Db → Option Db) (w : World) (h : P w.db) where
  created_keeps :
      (o : Option Db)
      → ((d : Db) → o ≡ some d → P d)
      → P
          (elim o as (λ _. Result Unit × World) [
            | none ↦ (err (query_failed unique_violation), w)
            | some d ↦ (ok tt, record w { db = d })
          ]).1.db
  created_keeps none k = h
  created_keeps (some d) k = k d refl

  pub insert_alone_keeps : ((d : Db) → f w.db ≡ some d → P d) → P (insert_alone f w).1.db
  insert_alone_keeps k = created_keeps (f w.db) k

pub present_world : {A : Type 0} (o : Option A) (e : Error) (w : World) → (present o e w).1 ≡ w
present_world none e w = refl
present_world (some a) e w = refl
