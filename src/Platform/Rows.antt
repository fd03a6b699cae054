-- ===== src/Platform/Rows.antt =====
-- Rows with a primary key, and updates that replace one.
use componi_back_nest.Prelude.{
  ◌+◌, ◌≤◌, ◌≡◌, Bool, true, not, ◌&&◌, some, none, List, arith, bit, count, count_mono, count_cong,
  count_split, Bool-cases, Option-cases, inl, inr, if◌then◌else◌,
}
use componi_back_nest.Platform.Orm.{Orm, find_one-test}

module _ (o : Orm) {A : Type 0} (key test : A → Bool) (t : List A) where
  -- The only row with a key, which was found by a test that implies the key.
  pub only_row :
      (q : A → Bool) (r : A)
      → ((x : A) → test x ≡ true → key x ≡ true)
      → count key t ≤ 1
      → o.find_one test t ≡ some r
      → count (λ x. key x && q x) t ≡ bit (q r)
  only_row q r keyed once e = elim (Bool-cases (q r)) [
    | inl yes_q ↦ rw yes_q (
        omega (
          arith,
          once,
          o.find_one_some test q t r e yes_q,
          count_mono (λ x. test x && q x) (λ x. key x && q x) t (λ x k. ground (arith, k, keyed x)),
          count_mono (λ x. key x && q x) key t (λ x k. ground (arith, k)),
        ))
    | inr no_q ↦ rw no_q (
        omega (
          arith,
          once,
          o.find_one_some test (λ x. not (q x)) t r e (ground (arith, no_q)),
          count_split q key t,
          count_mono (λ x. test x && not (q x)) (λ x. not (q x) && key x) t
              (λ x k. ground (arith, k, keyed x)),
          count_cong (λ x. q x && key x) (λ x. key x && q x) t (λ x. ground arith),
        ))
  ]

module _ (o : Orm) {A : Type 0} (key q : A → Bool) (t : List A) where
  -- The rows that satisfy a test after an update: those that the update leaves, and those that it
  -- makes.
  pub count-set :
      (set : A → A)
      → count q (o.update key set t)
        ≡ count (λ x. key x && q (set x)) t + count (λ x. not (key x) && q x) t
  count-set set = omega (
    arith,
    o.count-update q key set t,
    count_split key (λ x. q (if key x then set x else x)) t,
    count_cong (λ x. key x && q (if key x then set x else x)) (λ x. key x && q (set x)) t
        (λ x. ground arith),
    count_cong (λ x. not (key x) && q (if key x then set x else x)) (λ x. not (key x) && q x) t
        (λ x. ground arith),
  )

-- No row is found where none satisfies the test.
pub find_one-missing :
    (o : Orm) {A : Type 0} (p : A → Bool) (t : List A) → count p t ≡ 0 → o.find_one p t ≡ none
find_one-missing o p t none_there = elim (Option-cases (o.find_one p t)) [
  | inl e ↦ e
  | inr (r, e) ↦ absurd (
      omega (
        arith,
        none_there,
        o.find_one_some p p t r e (find_one-test o p t r e),
        count_mono (λ x. p x && p x) p t (λ x k. ground (arith, k)),
      ))
]
