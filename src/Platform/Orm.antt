-- ===== src/Platform/Orm.antt =====
-- TypeORM's repositories and transactions over Postgres. A table is the list of its rows, and the
-- laws speak of how many rows satisfy a test, so they say nothing of an order of rows.
use componi_back_nest.Prelude.{
  length, ◌≤◌, ℕ, ◌+◌, ◌<◌, ◌≡◌, ◌≢◌, Bool, true, false, not, ◌&&◌, Option, none, some, List, arith,
  count, bit, count_mono, count_cong, count_none, Every, ◌∙◌, if◌then◌else◌, Bool-cases, inl, inr,
  ltb,
}
use native.Mathlib.Decide.{dec_lt}
use componi_back_nest.Database.{Db}

pub record Orm : Type 1 where
  -- `findOne({ where })`: some row that satisfies the test.
  pub find_one : {A : Type 0} → (A → Bool) → List A → Option A
  -- `where(...).orderBy(column, 'DESC').getOne()`: a row with the highest number in the column.
  pub find_last : {A : Type 0} → (A → Bool) → (A → ℕ) → List A → Option A
  -- `find({ where })`: the rows that satisfy the test.
  pub find : {A : Type 0} → (A → Bool) → List A → List A
  -- `orderBy(...).take(n)`: at most n of the rows that satisfy the test, in the order of the second
  -- argument, of which the laws say nothing.
  pub find_page : {A : Type 0} → (A → Bool) → (A → A → Bool) → ℕ → List A → List A
  -- `insert(row)` into a table with a unique index: `none` is the error 23505. The test says which
  -- rows clash with the new one.
  pub insert : {A : Type 0} → (A → Bool) → A → List A → Option (List A)
  -- `update(where, set)`, `increment(where, column, 1)`, `decrement(where, column, 1)`.
  pub update : {A : Type 0} → (A → Bool) → (A → A) → List A → List A
  -- `delete(where)`: the rows that stay.
  pub delete : {A : Type 0} → (A → Bool) → List A → List A
  -- The `affected` of an update or a delete.
  pub affected : {A : Type 0} → (A → Bool) → List A → ℕ
  -- `transaction(cb)`: from the database at BEGIN and the one after the callback, what other
  -- connections see in the end. The first test says whether the callback returned (so that a COMMIT
  -- is sent), the second whether a statement of it had failed.
  pub settle : (begun work : Db) → (returned aborted : Bool) → Db
  pub find_one_none : {A : Type 0} (p : A → Bool) (t : List A) → find_one p t ≡ none → count p t ≡ 0
  pub find_one_some :
      {A : Type 0} (p q : A → Bool) (t : List A) (r : A)
      → find_one p t ≡ some r
      → q r ≡ true
      → 0 < count (λ x. p x && q x) t
  pub find_last_none :
      {A : Type 0} (p : A → Bool) (key : A → ℕ) (t : List A)
      → find_last p key t ≡ none
      → count p t ≡ 0
  pub find_last_some :
      {A : Type 0} (p q : A → Bool) (key : A → ℕ) (t : List A) (r : A)
      → find_last p key t ≡ some r
      → q r ≡ true
      → 0 < count (λ x. p x && q x) t
  pub find_last_above :
      {A : Type 0} (p : A → Bool) (key : A → ℕ) (t : List A) (r : A)
      → find_last p key t ≡ some r
      → count (λ x. p x && ltb (key r) (key x)) t ≡ 0
  pub count-find :
      {A : Type 0} (q p : A → Bool) (t : List A) → count q (find p t) ≡ count (λ r. p r && q r) t
  pub count-find_page :
      {A : Type 0} (q p : A → Bool) (before : A → A → Bool) (n : ℕ) (t : List A)
      → count q (find_page p before n t) ≤ count (λ r. p r && q r) t
  pub length-find_page :
      {A : Type 0} (p : A → Bool) (before : A → A → Bool) (n : ℕ) (t : List A)
      → length (find_page p before n t) ≤ n
  pub insert_clash :
      {A : Type 0} (c : A → Bool) (r : A) (t : List A) → 0 < count c t → insert c r t ≡ none
  pub insert_free :
      {A : Type 0} (c : A → Bool) (r : A) (t : List A)
      → count c t ≡ 0
      → (t' : List A) × (insert c r t ≡ some t')
  pub count-insert :
      {A : Type 0} (q c : A → Bool) (r : A) (t t' : List A)
      → insert c r t ≡ some t'
      → count q t' ≡ bit (q r) + count q t
  pub count-update :
      {A : Type 0} (q p : A → Bool) (f : A → A) (t : List A)
      → count q (update p f t) ≡ count (λ r. q (if p r then f r else r)) t
  pub count-delete :
      {A : Type 0} (q p : A → Bool) (t : List A)
      → count q (delete p t) ≡ count (λ r. not (p r) && q r) t
  pub affected_lem : {A : Type 0} (p : A → Bool) (t : List A) → affected p t ≡ count p t
  pub settle_commit : (begun work : Db) → settle begun work true false ≡ work
  pub settle_rollback : (begun work : Db) (aborted : Bool) → settle begun work false aborted ≡ begun
  -- COMMIT of a transaction in which a statement failed is a ROLLBACK.
  pub settle_aborted : (begun work : Db) (returned : Bool) → settle begun work returned true ≡ begun

module _ (o : Orm) {A : Type 0} where
  -- A row that is found has every test that all rows of its kind have.
  pub find_one-sat :
      (p q : A → Bool) (t : List A) (r : A)
      → o.find_one p t ≡ some r
      → count (λ x. p x && not (q x)) t ≡ 0
      → q r ≡ true
  find_one-sat p q t r e h = elim (Bool-cases (q r)) [
    | inl yes_q ↦ yes_q
    | inr no_q ↦
        absurd (omega (arith, h, o.find_one_some p (λ x. not (q x)) t r e (ground (arith, no_q))))
  ]

  pub find_one-test : (p : A → Bool) (t : List A) (r : A) → o.find_one p t ≡ some r → p r ≡ true
  find_one-test p t r e = find_one-sat p p t r e (count_none _ t (λ x. ground arith))

  pub find_one-Every :
      (p q : A → Bool) (t : List A) (r : A) → o.find_one p t ≡ some r → Every q t → q r ≡ true
  find_one-Every p q t r e h = find_one-sat p q t r e (
      omega (arith, h, count_mono (λ x. p x && not (q x)) (λ x. not (q x)) t (λ x k. ground arith)))

  -- Where a row satisfies the test, one is found.
  pub find_one-found : (p : A → Bool) (t : List A) → 0 < count p t → o.find_one p t ≢ none
  find_one-found p t h e = omega (arith, o.find_one_none p t e)

  -- A row that was inserted clashed with none.
  pub insert-free :
      (c : A → Bool) (r : A) (t t' : List A) → o.insert c r t ≡ some t' → count c t ≡ 0
  insert-free c r t t' e = elim (dec_lt 0 (count c t)) [
    | yes taken ↦ cc (o.insert_clash c r t taken, e)
    | no free ↦ omega arith
  ]

  -- An update that no row's test can see.
  pub count-update_same :
      (q p : A → Bool) (f : A → A) (t : List A)
      → ((r : A) → q (f r) ≡ q r)
      → count q (o.update p f t) ≡ count q t
  count-update_same q p f t h = o.count-update q p f t ∙ count_cong _ q t (λ r. same_test r)
    where
      same_test : (r : A) → q (if p r then f r else r) ≡ q r
      same_test r = ground (arith, h r)
