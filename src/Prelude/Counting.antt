-- ===== src/Prelude/Counting.antt =====
-- How many rows of a table satisfy a test. The order of the rows plays no part in it.
use Prim.Native.Nat.{ℕ, ◌+◌, ◌≤◌}
use mathlib.Core.Path.{◌≡◌, refl}
use mathlib.Core.Bool.{Bool, true, false, not, ◌&&◌}
use mathlib.Core.List.{List, [], ◌∷◌}
use native.Mathlib.Omega.{arith}

-- 1 for a row that counts, 0 for one that does not.
abbrev pub bit : Bool → ℕ
bit true = 1
bit false = 0

module _ {ℓ} {A : Type ℓ} where
  unfoldable pub count : (A → Bool) → List A → ℕ
  count q [] = 0
  count q (r ∷ t) = bit (q r) + count q t

  unfoldable pub length : List A → ℕ
  length [] = 0
  length (r ∷ t) = 1 + length t

  pub count_le_length : (p : A → Bool) (t : List A) → count p t ≤ length t
  unfolding count length
  count_le_length p [] = omega arith
  count_le_length p (r ∷ t) = ground (arith, count_le_length p t)

  pub count_mono :
      (p q : A → Bool) (t : List A) → ((r : A) → p r ≡ true → q r ≡ true) → count p t ≤ count q t
  unfolding count
  count_mono p q [] h = omega arith
  count_mono p q (r ∷ t) h = ground (arith, h r, count_mono p q t h)

  pub count_cong : (p q : A → Bool) (t : List A) → ((r : A) → p r ≡ q r) → count p t ≡ count q t
  unfolding count
  count_cong p q [] h = refl
  count_cong p q (r ∷ t) h = ground (arith, h r, count_cong p q t h)

  pub count_none : (p : A → Bool) (t : List A) → ((r : A) → p r ≡ false) → count p t ≡ 0
  unfolding count
  count_none p [] h = refl
  count_none p (r ∷ t) h = ground (arith, h r, count_none p t h)

  -- The rows that satisfy a test, split by another one.
  pub count_split :
      (p q : A → Bool) (t : List A)
      → count q t ≡ count (λ r. p r && q r) t + count (λ r. not (p r) && q r) t
  unfolding count
  count_split p q [] = refl
  count_split p q (r ∷ t) = ground (arith, count_split p q t)

  -- Every row satisfies the test: none fails it.
  abbrev pub Every : (A → Bool) → List A → Type 0
  Every q t = count (λ r. not (q r)) t ≡ 0
