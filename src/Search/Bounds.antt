-- ===== src/Search/Bounds.antt =====
-- How many results the searches return, and which.
use componi_back_nest.Prelude.{
  ℕ, zero, suc, ◌≤◌, ◌≡◌, ℤ, pos, negsuc, String, Bool, true, not, ◌&&◌, ◌||◌, List, arith, length,
  Every, count_none, is_none, ltb,
}
use componi_back_nest.Platform.Orm.{Orm}
use componi_back_nest.Platform.Js.{Js}
use componi_back_nest.Search.{
  Sql, Found, safe_limit, matches_component, matches_user, search_all, min_query, max_query,
}
use componi_back_nest.Exec.{Platform, World, returned}
use componi_back_nest.Exec.Outcomes.{Post, require-Post}

-- The limit that is asked for, and 1 where it is less than that.
abbrev pub at_least_one : ℤ → ℕ
at_least_one (pos zero) = 1
at_least_one (pos (suc n)) = suc n
at_least_one (negsuc n) = 1

safe_limit_le : (limit : ℤ) → (safe_limit limit ≤ 50) × (safe_limit limit ≤ at_least_one limit)
unfolding safe_limit
safe_limit_le (pos zero) = (ground arith, ground arith)
safe_limit_le (pos (suc n)) = (ground arith, ground arith)
safe_limit_le (negsuc n) = (ground arith, ground arith)

module _ (o : Orm) {A : Type 0} where
  -- A page holds only rows of the query.
  page-Every :
      (p q : A → Bool) (before : A → A → Bool) (n : ℕ) (t : List A)
      → ((r : A) → p r ≡ true → q r ≡ true)
      → Every q (o.find_page p before n t)
  page-Every p q before n t h = omega (
    arith,
    o.count-find_page (λ r. not (q r)) p before n t,
    count_none (λ r. p r && not (q r)) t (λ r. ground (arith, h r)),
  )

module _ (p : Platform) (js : Js) (s : Sql) where
  -- What a search by text promises of its answer.
  pub record IsAnswer (limit : ℤ) (f : Found) : Type 0 where
    pub components : (length f.components ≤ 50) × (length f.components ≤ at_least_one limit)
    pub users : (length f.users ≤ 50) × (length f.users ≤ at_least_one limit)
    pub public : Every (λ c. c.is_public && is_none c.deleted_at) f.components
    pub live : Every (λ u. is_none u.deleted_at) f.users

  answer :
      (q : String) (limit : ℤ) (w : World)
      → IsAnswer limit (record {
        components =
            p.orm.find_page
              (matches_component p js s q)
              s.by_likes
              (safe_limit limit)
              w.db.components;
        users =
            p.orm.find_page (matches_user p js s q) s.by_followers (safe_limit limit) w.db.users;
      })
  unfolding matches_component matches_user
  answer q limit w = record {
    components = within _ (p.orm.length-find_page _ s.by_likes (safe_limit limit) w.db.components);
    users = within _ (p.orm.length-find_page _ s.by_followers (safe_limit limit) w.db.users);
    public =
        page-Every p.orm (matches_component p js s q) (λ c. c.is_public && is_none c.deleted_at)
          s.by_likes (safe_limit limit) w.db.components (λ c k. ground (arith, k));
    live =
        page-Every p.orm (matches_user p js s q) (λ u. is_none u.deleted_at) s.by_followers
          (safe_limit limit) w.db.users (λ u k. ground (arith, k));
  }
    where
      within : (n : ℕ) → n ≤ safe_limit limit → (n ≤ 50) × (n ≤ at_least_one limit)
      within n h =
          let (fifty, asked) = safe_limit_le limit in
          (omega (arith, h, fifty), omega (arith, h, asked))

  -- A search by text whose trimmed query has 2 to 60 UTF-16 units returns, for whatever limit, at
  -- most 50 components, all public and not deleted, and at most 50 users, none deleted; of either
  -- never more than the limit, or 1 where that is less than 1. For any other query it throws.
  pub search_all-IsAnswer :
      (query : String) (limit : ℤ) (w : World)
      → Post (λ f _. IsAnswer limit f) (search_all p js s query limit w)
        × (returned (search_all p js s query limit w).0
            ≡ not (ltb (js.length (js.trim query)) 2 || ltb 60 (js.length (js.trim query))))
  unfolding search_all
  search_all-IsAnswer query limit w = (
    require-Post (λ f _. IsAnswer limit f) (not (ltb (js.length (js.trim query)) min_query)) _ _ w
        (λ _.
          require-Post (λ f _. IsAnswer limit f) (not (ltb max_query (js.length (js.trim query)))) _
            _ w (λ _. answer (js.trim query) limit w)),
    ground arith,
  )
