-- ===== src/Cache/Eviction.antt =====
-- The loop of `invalidateTags` over several tags, and a read after it.
use componi_back_nest.Prelude.{
  ℕ, ◌+◌, ◌≤◌, ◌≡◌, refl, ◌∙◌, Bool, true, false, none, List, [], ◌∷◌, arith, Bool-cases,
  Option-cases, inl, inr,
}
use componi_back_nest.Entities.Accounts.{Date}
use componi_back_nest.Platform.Redis.{Keyspace, Redis, string_at}
use componi_back_nest.Messages.{CacheKey, CacheTag, CacheName, k, tag_key, same_name}
use componi_back_nest.Exec.{Platform, World, wait}
use componi_back_nest.Cache.{Json, get, set, store, purge, purge_all, invalidate_tags}
use componi_back_nest.Cache.Tags.{eq_of_same_tag}
use componi_back_nest.Cache.Freshness.{Among, Covered, gone_later, store-Covered}
use componi_back_nest.Cache.Invalidation.{
  OnlyKeys, purge-none, purge-gone, purge-member, purge-OnlyKeys, store-OnlyKeys,
}

module _ (r : Redis CacheName same_name) (now : Date) where
  purge_all-none :
      (at : Date) (ts : List CacheTag) (x : CacheName) (c : Bool × Keyspace CacheName)
      → string_at at x c.1 ≡ none
      → string_at at x (purge_all r now ts c).1 ≡ none
  unfolding purge_all
  purge_all-none at [] x c h = h
  purge_all-none at (t ∷ ts) x (false, ks) h = h
  purge_all-none at (t ∷ ts) x (true, ks) h =
      purge_all-none at ts x (purge r now t ks) (purge-none r now at t x ks h)

  purge_all-done :
      (ts : List CacheTag) (c : Bool × Keyspace CacheName)
      → (purge_all r now ts c).0 ≡ true
      → c.0 ≡ true
  unfolding purge_all
  purge_all-done [] c h = h
  purge_all-done (t ∷ ts) (false, ks) h = h
  purge_all-done (t ∷ ts) (true, ks) h = refl

  -- A covered value is gone after its own tag is dropped.
  purge-Covered_gone :
      (at : Date) (key : CacheKey) (t : CacheTag) (ks : Keyspace CacheName)
      → now ≤ at
      → Covered now key t ks
      → (purge r now t ks).0 ≡ true
      → string_at at (k key) (purge r now t ks).1 ≡ none
  purge-Covered_gone at key t ks later c done = elim (Option-cases (string_at now (k key) ks)) [
    | inl e ↦ purge-none r now at t (k key) ks (gone_later r now at (k key) ks later e)
    | inr (v, e) ↦ purge-gone r now at t (k key) ks done (c now (omega arith) (λ n. cc (e, n)))
  ]

  purge-Covered :
      (key : CacheKey) (s t : CacheTag) (ks : Keyspace CacheName)
      → OnlyKeys now ks
      → same_name (tag_key s) (tag_key t) ≡ false
      → Covered now key t ks
      → Covered now key t (purge r now s ks).1
  purge-Covered key s t ks only other c at later readable =
      purge-member r now at s t (k key) ks only other
      ∙ c at later (λ n. readable (purge-none r now at s (k key) ks n))

  -- If the loop went through, a value that one of the tags covers is gone.
  pub purge_all-gone :
      (at : Date) (key : CacheKey) (t : CacheTag) (ts : List CacheTag)
      (c : Bool × Keyspace CacheName)
      → now ≤ at
      → Among t ts
      → OnlyKeys now c.1
      → Covered now key t c.1
      → (purge_all r now ts c).0 ≡ true
      → string_at at (k key) (purge_all r now ts c).1 ≡ none
  unfolding purge_all
  purge_all-gone at key t [] c later among only cov done = absurd among
  purge_all-gone at key t (s ∷ ts) (false, ks) later among only cov done = cc
  purge_all-gone at key t (s ∷ ts) (true, ks) later (inl e) only cov done =
      purge_all-none at ts (k key) (purge r now s ks) (
        rw (← e) (
          purge-Covered_gone at key t ks later cov
            (rw e (purge_all-done ts (purge r now s ks) done))))
  purge_all-gone at key t (s ∷ ts) (true, ks) later (inr rest) only cov done =
      elim (Bool-cases (same_name (tag_key s) (tag_key t))) [
        | inl own ↦
            let e = eq_of_same_tag s t own in
            purge_all-none at ts (k key) (purge r now s ks) (
              rw e (
                purge-Covered_gone at key t ks later cov
                  (rw (← e) (purge_all-done ts (purge r now s ks) done))))
        | inr other ↦
            purge_all-gone at key t ts (purge r now s ks) later rest
              (purge-OnlyKeys r now s ks only) (purge-Covered key s t ks only other cov) done
      ]

module _ (p : Platform) {A : Type 0} (json : Json A) where
  pub get_of_gone :
      (key : CacheKey) (w : World)
      → string_at w.clock (k key) w.redis ≡ none
      → get p json key w ≡ none
  unfolding get
  get_of_gone key w gone = elim (Option-cases (p.redis.get w.clock (k key) w.redis)) [
    | inl e ↦ rw (e, get)
    | inr (o, e) ↦ rw (e, get, p.redis.get_lem w.clock (k key) w.redis o e, gone, get)
  ]

  -- A value is stored after a miss, under a tag, some time passes, the tag is invalidated, some time
  -- passes, and the value is read. If nothing else writes to the cache in between, no set of a tag
  -- has a tag as a member, and Redis could be reached during the invalidation, the read is a miss.
  -- It does not matter whether Redis could be reached when the value was stored.
  pub get-invalidate_tags :
      (key : CacheKey) (value : A) (ttl : ℕ) (tags dropped : List CacheTag) (t : CacheTag)
      (w : World) (ms later : ℕ)
      → string_at w.clock (k key) w.redis ≡ none
      → OnlyKeys w.clock w.redis
      → Among t tags
      → Among t dropped
      → (let w' = wait ms (set p json key value ttl tags w).1 in
          (purge_all p.redis w'.clock dropped (true, w'.redis)).0 ≡ true)
      → get p json key
          (wait later (invalidate_tags p dropped (wait ms (set p json key value ttl tags w).1)).1)
        ≡ none
  unfolding set invalidate_tags
  get-invalidate_tags key value ttl tags dropped t w ms later miss only tagged named reached =
      get_of_gone key _ (
        purge_all-gone p.redis (w.clock + ms) (w.clock + ms + later) key t dropped
          (true, store p.redis w.clock key (json.stringify value) ttl tags w.redis) (omega arith)
          named
          (λ at s u from.
            store-OnlyKeys p.redis w.clock key ttl (json.stringify value) tags w.redis only at s u
              (omega arith))
          (λ at from.
            store-Covered p.redis w.clock key t (json.stringify value) ttl tags w.redis tagged miss
              at (omega arith))
          reached)
