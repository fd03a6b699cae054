-- ===== src/Instances/Tables.antt =====
-- Tables in memory: what TypeORM and Postgres do to lists of rows.
use componi_back_nest.Prelude.{
  length, zero, suc, ℕ, ◌+◌, ◌≤◌, ◌<◌, ◌≡◌, refl, sym, ap, subst, or_else, ◌⊎◌, Bool, true, false,
  not, ◌&&◌, Option, none, some, List, [], ◌∷◌, arith, bit, count, count_mono, ltb, if◌then◌else◌,
  Bool-cases, Option-cases, inl, inr,
}
use componi_back_nest.Database.{Db}
use componi_back_nest.Platform.Orm.{Orm}

module _ {A : Type 0} where
  unfoldable pub find_one : (A → Bool) → List A → Option A
  find_one p [] = none
  find_one p (r ∷ t) = let rest = find_one p t in if p r then some r else rest

  unfoldable pub later_of : (A → ℕ) → A → Option A → A
  later_of key r none = r
  later_of key r (some s) = if ltb (key r) (key s) then s else r

  unfoldable pub find_last : (A → Bool) → (A → ℕ) → List A → Option A
  unfolding later_of
  find_last p key [] = none
  find_last p key (r ∷ t) =
      let rest = find_last p key t in if p r then some (later_of key r rest) else rest

  unfoldable pub find : (A → Bool) → List A → List A
  find p [] = []
  find p (r ∷ t) = let rest = find p t in if p r then r ∷ rest else rest

  -- Insertion into a list in order.
  unfoldable pub place : (A → A → Bool) → A → List A → List A
  place before r [] = r ∷ []
  place before r (s ∷ t) = let rest = place before r t in if before r s then r ∷ s ∷ t else s ∷ rest

  unfoldable pub sort : (A → A → Bool) → List A → List A
  sort before [] = []
  sort before (r ∷ t) = place before r (sort before t)

  unfoldable pub take : ℕ → List A → List A
  take zero t = []
  take (suc n) [] = []
  take (suc n) (r ∷ t) = r ∷ take n t

  unfoldable pub find_page : (A → Bool) → (A → A → Bool) → ℕ → List A → List A
  find_page p before n t = take n (sort before (find p t))

  unfoldable pub insert : (A → Bool) → A → List A → Option (List A)
  unfolding find_one
  insert c r t = elim (find_one c t) [ none ↦ some (r ∷ t) | some s ↦ none ]

  unfoldable pub update : (A → Bool) → (A → A) → List A → List A
  update p set [] = []
  update p set (r ∷ t) = (if p r then set r else r) ∷ update p set t

  unfoldable pub delete : (A → Bool) → List A → List A
  delete p [] = []
  delete p (r ∷ t) = let rest = delete p t in if p r then rest else r ∷ rest

unfoldable pub settle : (begun work : Db) → (returned aborted : Bool) → Db
settle begun work true false = work
settle begun work true true = begun
settle begun work false aborted = begun

module _ {A : Type 0} where
  some-inj : (a b : A) → ◌≡◌ {A = Option A} (some a) (some b) → a ≡ b
  some-inj a b e = ap (λ o. or_else o a) e

  pub find_none : (p : A → Bool) (t : List A) → find_one p t ≡ none → count p t ≡ 0
  unfolding find_one count
  find_none p [] e = refl
  find_none p (r ∷ t) e = ground (arith, e, find_none p t)

  -- The row found is the tested row at the head, or is found further on.
  pub find_some :
      (p q : A → Bool) (t : List A) (r : A)
      → find_one p t ≡ some r
      → q r ≡ true
      → 0 < count (λ x. p x && q x) t
  unfolding find_one count
  find_some p q [] r e h = ground arith
  find_some p q (s ∷ t) r e h = elim (Bool-cases (p s)) [
    | inl own ↦ ground (arith, own, subst (λ x. q x ≡ true) (sym (some-inj s r (rw own at e))) h)
    | inr other ↦ ground (arith, other, find_some p q t r (rw other at e) h)
  ]

  find_free : (p : A → Bool) (t : List A) → count p t ≡ 0 → find_one p t ≡ none
  unfolding find_one count
  find_free p [] e = refl
  find_free p (r ∷ t) e = ground (arith, e, find_free p t)

  pub last_none :
      (p : A → Bool) (key : A → ℕ) (t : List A) → find_last p key t ≡ none → count p t ≡ 0
  unfolding find_last count
  last_none p key [] e = refl
  last_none p key (r ∷ t) e = ground (arith, e, last_none p key t)

  pub update_count :
      (q p : A → Bool) (f : A → A) (t : List A)
      → count q (update p f t) ≡ count (λ r. q (if p r then f r else r)) t
  unfolding update count
  update_count q p f [] = refl
  update_count q p f (r ∷ t) = omega (arith, update_count q p f t)

  pub delete_count :
      (q p : A → Bool) (t : List A) → count q (delete p t) ≡ count (λ r. not (p r) && q r) t
  unfolding delete count
  delete_count q p [] = refl
  delete_count q p (r ∷ t) = ground (arith, delete_count q p t)

  later_of-sat :
      (q : A → Bool) (key : A → ℕ) (r : A) (o : Option A)
      → q (later_of key r o) ≡ true
      → (q r ≡ true) ⊎ ((s : A) × (o ≡ some s) × (q s ≡ true))
  unfolding later_of
  later_of-sat q key r none h = inl h
  later_of-sat q key r (some s) h = elim (Bool-cases (ltb (key r) (key s))) [
    | inl up ↦ inr (s, refl, (rw up at h))
    | inr stays ↦ inl (rw stays at h)
  ]

  later_of-above :
      (key : A → ℕ) (r s : A)
      → (key r ≤ key (later_of key r (some s))) × (key s ≤ key (later_of key r (some s)))
  unfolding later_of
  later_of-above key r s = elim (Bool-cases (ltb (key r) (key s))) [
    | inl up ↦ rw up (ground (arith, up), omega arith)
    | inr stays ↦ rw stays (omega arith, ground (arith, stays))
  ]

  pub last_some :
      (p q : A → Bool) (key : A → ℕ) (t : List A) (r : A)
      → find_last p key t ≡ some r
      → q r ≡ true
      → 0 < count (λ x. p x && q x) t
  unfolding find_last count
  last_some p q key [] r e h = ground arith
  last_some p q key (s ∷ t) r e h = elim (Bool-cases (p s)) [
    | inl own ↦
        elim (later_of-sat q key s (find_last p key t)
          (subst (λ x. q x ≡ true) (sym (some-inj _ r (rw own at e))) h)) [
            | inl here ↦ ground (arith, own, here)
            | inr (x, f, g) ↦ ground (arith, last_some p q key t x f g)
          ]
    | inr other ↦ ground (arith, other, last_some p q key t r (rw other at e) h)
  ]

  pub last_above :
      (p : A → Bool) (key : A → ℕ) (t : List A) (r : A)
      → find_last p key t ≡ some r
      → count (λ x. p x && ltb (key r) (key x)) t ≡ 0
  unfolding find_last count
  last_above p key [] r e = refl
  last_above p key (s ∷ t) r e = elim (Bool-cases (p s)) [
    | inl own ↦ above own (λ x f. last_above p key t x f) (Option-cases (find_last p key t))
    | inr other ↦ ground (arith, other, last_above p key t r (rw other at e))
  ]
    where
      above :
          p s ≡ true
          → ((x : A) → find_last p key t ≡ some x → count (λ y. p y && ltb (key x) (key y)) t ≡ 0)
          → (find_last p key t ≡ none) ⊎ ((x : A) × (find_last p key t ≡ some x))
          → count (λ x. p x && ltb (key r) (key x)) (s ∷ t) ≡ 0
      above own rest (inl f) =
          let same : s ≡ r = some-inj s r (rw (own, f) at e) in
          ground (
            arith,
            ap key same,
            last_none p key t f,
            count_mono (λ x. p x && ltb (key r) (key x)) p t (λ x k. ground (arith, k)),
          )
      above own rest (inr (x, f)) =
          let same : later_of key s (some x) ≡ r = some-inj _ r (rw (own, f) at e) in
          let (up, over) = later_of-above key s x in
          ground (
            arith,
            ap key same,
            up,
            over,
            rest x f,
            count_mono (λ y. p y && ltb (key r) (key y)) (λ y. p y && ltb (key x) (key y)) t
                (λ y k. ground (arith, k, ap key same, over)),
          )

module _ {A : Type 0} where
  pub count-find_lem :
      (q p : A → Bool) (t : List A) → count q (find p t) ≡ count (λ r. p r && q r) t
  unfolding find count
  count-find_lem q p [] = refl
  count-find_lem q p (r ∷ t) = ground (arith, count-find_lem q p t)

  pub count-place :
      (q : A → Bool) (before : A → A → Bool) (r : A) (t : List A)
      → count q (place before r t) ≡ bit (q r) + count q t
  unfolding place count
  count-place q before r [] = refl
  count-place q before r (s ∷ t) = ground (arith, count-place q before r t)

  pub count-sort :
      (q : A → Bool) (before : A → A → Bool) (t : List A) → count q (sort before t) ≡ count q t
  unfolding sort count
  count-sort q before [] = refl
  count-sort q before (r ∷ t) =
      omega (arith, count-place q before r (sort before t), count-sort q before t)

  pub count-take : (q : A → Bool) (n : ℕ) (t : List A) → count q (take n t) ≤ count q t
  unfolding take count
  count-take q zero t = omega arith
  count-take q (suc n) [] = omega arith
  count-take q (suc n) (r ∷ t) = omega (arith, count-take q n t)

  pub length-take : (n : ℕ) (t : List A) → length (take n t) ≤ n
  unfolding take length
  length-take zero t = omega arith
  length-take (suc n) [] = omega arith
  length-take (suc n) (r ∷ t) = omega (arith, length-take n t)

  pub page_count :
      (q p : A → Bool) (before : A → A → Bool) (n : ℕ) (t : List A)
      → count q (find_page p before n t) ≤ count (λ r. p r && q r) t
  unfolding find_page
  page_count q p before n t = omega (
    arith,
    count-take q n (sort before (find p t)),
    count-sort q before (find p t),
    count-find_lem q p t,
  )

  pub page_length :
      (p : A → Bool) (before : A → A → Bool) (n : ℕ) (t : List A)
      → length (find_page p before n t) ≤ n
  unfolding find_page
  page_length p before n t = length-take n (sort before (find p t))

  pub insert_taken : (c : A → Bool) (r : A) (t : List A) → 0 < count c t → insert c r t ≡ none
  unfolding insert
  insert_taken c r t h = elim (Option-cases (find_one c t)) [
    | inl e ↦ absurd (omega (arith, h, find_none c t e))
    | inr (s, e) ↦ rw (e, insert) refl
  ]

  pub insert_fits :
      (c : A → Bool) (r : A) (t : List A) → count c t ≡ 0 → (t' : List A) × (insert c r t ≡ some t')
  unfolding insert
  insert_fits c r t h = (r ∷ t, rw (find_free c t h, insert) refl)

  pub insert_count :
      (q c : A → Bool) (r : A) (t t' : List A)
      → insert c r t ≡ some t'
      → count q t' ≡ bit (q r) + count q t
  unfolding insert count
  insert_count q c r t t' e = elim (Option-cases (find_one c t)) [
    | inl f ↦ ap (λ o. count q (or_else o [])) (sym (rw (f, insert) at e))
    | inr (s, f) ↦ ground (arith, (rw (f, insert) at e))
  ]

pub settle-ok : (begun work : Db) → settle begun work true false ≡ work
unfolding settle
settle-ok begun work = refl

pub settle-thrown : (begun work : Db) (aborted : Bool) → settle begun work false aborted ≡ begun
unfolding settle
settle-thrown begun work aborted = refl

pub settle-failed : (begun work : Db) (returned : Bool) → settle begun work returned true ≡ begun
unfolding settle
settle-failed begun work true = refl
settle-failed begun work false = refl

abbrev pub memory : Orm
memory = record {
  find_one = find_one;
  find_last = find_last;
  find = find;
  find_page = find_page;
  insert = insert;
  update = update;
  delete = delete;
  affected = count;
  settle = settle;
  find_one_none = find_none;
  find_one_some = find_some;
  find_last_none = last_none;
  find_last_some = last_some;
  find_last_above = last_above;
  count-find = count-find_lem;
  count-find_page = page_count;
  length-find_page = page_length;
  insert_clash = insert_taken;
  insert_free = insert_fits;
  count-insert = insert_count;
  count-update = update_count;
  count-delete = delete_count;
  affected_lem = λ p t. refl;
  settle_commit = settle-ok;
  settle_rollback = settle-thrown;
  settle_aborted = settle-failed;
}
