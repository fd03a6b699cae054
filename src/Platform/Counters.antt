-- ===== src/Platform/Counters.antt =====
-- Counter columns: a column that holds how many rows of another table point at its row, and the
-- updates and deletes that keep it so. The services keep every counter by hand.
use componi_back_nest.Prelude.{
  ℕ, ◌+◌, ◌≤◌, ◌≡◌, ◌∙◌, Bool, true, not, ◌&&◌, some, List, arith, bit, count, count_mono,
  count_none, count_split, count_cong, Every, ◌==◌, ℤ, inc, dec, is_nat, is_nat-inc, is_nat-dec,
  Bool-cases, inl, inr, if◌then◌else◌,
}
use componi_back_nest.Entities.Accounts.{Uuid}
use componi_back_nest.Platform.Orm.{Orm, insert-free}

module _ {A : Type 0} (ident : A → Uuid) (column : A → ℤ) where
  abbrev pub counted : (Uuid → ℕ) → A → Bool
  counted f x = is_nat (f (ident x)) (column x)

  -- In every row the column holds the number that the row's id stands for.
  abbrev pub Counts : (Uuid → ℕ) → List A → Type 0
  Counts f t = Every (counted f) t

-- An update after which no row fails the new test that did not fail the old one.
pub Every-update :
    (o : Orm) {A : Type 0} (q q' p : A → Bool) (set : A → A) (t : List A)
    → ((x : A) → q x ≡ true → q' (if p x then set x else x) ≡ true)
    → Every q t
    → Every q' (o.update p set t)
Every-update o q q' p set t step h = omega (
  arith,
  o.count-update (λ x. not (q' x)) p set t,
  h,
  count_mono (λ x. not (q' (if p x then set x else x))) (λ x. not (q x)) t
      (λ x k. ground (arith, step x)),
)

pub Every-cong :
    {A : Type 0} (q q' : A → Bool) (t : List A)
    → ((x : A) → q x ≡ true → q' x ≡ true)
    → Every q t
    → Every q' t
Every-cong q q' t step h =
    omega
      (arith, h, count_mono (λ x. not (q' x)) (λ x. not (q x)) t (λ x k. ground (arith, step x)))

-- The counts are what the numbers are.
pub Counts-cong :
    {A : Type 0} (ident : A → Uuid) (column : A → ℤ) (f g : Uuid → ℕ) (t : List A)
    → ((id : Uuid) → g id ≡ f id)
    → Counts ident column f t
    → Counts ident column g t
Counts-cong ident column f g t same =
    Every-cong (counted ident column f) (counted ident column g) t
      (λ x k. ground (arith, same (ident x)))

module _ (o : Orm) {A : Type 0} (ident : A → Uuid) (column : A → ℤ) (f g : Uuid → ℕ) (y : Uuid)
    (set : A → A) (t : List A) (same : (x : A) → ident (set x) ≡ ident x) where
  -- One more row for `y`, and the column of `y` incremented.
  pub Counts-inc :
      ((x : A) → column (set x) ≡ inc (column x))
      → ((id : Uuid) → g id ≡ bit (id == y) + f id)
      → Counts ident column f t
      → Counts ident column g (o.update (λ x. ident x == y) set t)
  Counts-inc moved more =
      Every-update o (counted ident column f) (counted ident column g) (λ x. ident x == y) set t
        (λ x k.
          ground (arith, same x, moved x, more (ident x), is_nat-inc (f (ident x)) (column x)))

  -- One row less for `y`, and the column of `y` decremented.
  pub Counts-dec :
      ((x : A) → column (set x) ≡ dec (column x))
      → ((id : Uuid) → f id ≡ bit (id == y) + g id)
      → Counts ident column f t
      → Counts ident column g (o.update (λ x. ident x == y) set t)
  Counts-dec moved less =
      Every-update o (counted ident column f) (counted ident column g) (λ x. ident x == y) set t
        (λ x k.
          ground (arith, same x, moved x, less (ident x), is_nat-dec (g (ident x)) (column x)))

  -- An update of other columns.
  pub Counts-same :
      (p : A → Bool)
      → ((x : A) → column (set x) ≡ column x)
      → Counts ident column f t
      → Counts ident column f (o.update p set t)
  Counts-same p kept =
      Every-update o (counted ident column f) (counted ident column f) p set t
        (λ x k. ground (arith, same x, kept x))

module _ {E : Type 0} (end : E → Uuid) where
  -- How many rows point at an id.
  abbrev pub degree : List E → Uuid → ℕ
  degree t id = count (λ e. end e == id) t

  own-degree :
      (own : E → Bool) (y id : Uuid) (t : List E)
      → ((e : E) → own e ≡ true → end e ≡ y)
      → count own t ≡ 1
      → count (λ e. own e && end e == id) t ≡ bit (id == y)
  own-degree own y id t ends one = elim (Bool-cases (id == y)) [
    | inl here ↦ count_cong _ own t (λ e. ground (arith, ends e, here)) ∙ one ∙ rw here
    | inr there ↦ count_none _ t (λ e. ground (arith, ends e, there)) ∙ rw there
  ]

-- A table of pairs: each row points at the row `end`, and one row satisfies `own`.
module _ (o : Orm) {E : Type 0} (end : E → Uuid) (own : E → Bool) (y : Uuid) (t : List E) where
  -- Deleting the only row of its kind.
  pub degree-delete :
      ((e : E) → own e ≡ true → end e ≡ y)
      → count own t ≡ 1
      → (id : Uuid) → degree end t id ≡ bit (id == y) + degree end (o.delete own t) id
  degree-delete ends one id = omega (
    arith,
    count_split own (λ e. end e == id) t,
    o.count-delete (λ e. end e == id) own t,
    own-degree end own y id t ends one,
  )

  -- Deleting where there is nothing to delete.
  pub degree-delete_none :
      count own t ≡ 0 → (id : Uuid) → degree end (o.delete own t) id ≡ degree end t id
  degree-delete_none gone id = omega (
    arith,
    gone,
    count_split own (λ e. end e == id) t,
    o.count-delete (λ e. end e == id) own t,
    count_mono (λ e. own e && end e == id) own t (λ e k. ground arith),
  )

  -- Inserting a row.
  pub degree-insert :
      (e : E) (t' : List E)
      → end e ≡ y
      → o.insert own e t ≡ some t'
      → (id : Uuid) → degree end t' id ≡ bit (id == y) + degree end t id
  degree-insert e t' ends done id =
      o.count-insert (λ e. end e == id) own e t t' done ∙ rw ends (ground arith)

-- A table of pairs with a primary key over both columns.
module _ {E : Type 0} (left right : E → Uuid) where
  abbrev pub pair : Uuid → Uuid → E → Bool
  pair a b e = left e == a && right e == b

  abbrev pub Once : List E → Type 0
  Once t = (a b : Uuid) → count (pair a b) t ≤ 1

module _ (o : Orm) {E : Type 0} (left right : E → Uuid) (t : List E) where
  pub Once-insert :
      (e : E) (t' : List E)
      → o.insert (pair left right (left e) (right e)) e t ≡ some t'
      → Once left right t
      → Once left right t'
  Once-insert e t' done once a b =
      let free = insert-free o (pair left right (left e) (right e)) e t t' done in
      let total =
        o.count-insert (pair left right a b) (pair left right (left e) (right e)) e t t' done in
      elim (Bool-cases (pair left right a b e)) [
        | inl own ↦
            rw (total, own)
              (omega (
                arith,
                free,
                count_mono (pair left right a b) (pair left right (left e) (right e)) t
                    (λ r k. ground (arith, k, own)),
              ))
        | inr other ↦ rw (total, other) (omega (arith, once a b))
      ]

  pub Once-delete : (p : E → Bool) → Once left right t → Once left right (o.delete p t)
  Once-delete p once a b = omega (
    arith,
    once a b,
    o.count-delete (pair left right a b) p t,
    count_mono (λ r. not (p r) && pair left right a b r) (pair left right a b) t
        (λ r k. ground arith),
  )
