-- ===== src/Cache/Tags.antt =====
-- The sets of tagged keys: what `set` puts into them and how long it stays there.
use text.Mathlib.TextPositions.{eq_refl}
use componi_back_nest.Prelude.{none, some, ℕ, ◌+◌, ◌*◌, ◌≤◌, ◌<◌, ◌≡◌, refl, true, arith, ==_refl}
use componi_back_nest.Entities.Accounts.{Date}
use componi_back_nest.Platform.Redis.{Keyspace, Redis, member, lives, contains, sadd, expire}
use componi_back_nest.Messages.{
  CacheKey, component_public, feed_trending_page, feed_following_page, session, search_page,
  search_semantic, CacheTag, component, author, feed_trending, user_feed, user_session, CacheName,
  k, tag_key, same_name,
}

pub same_name-refl_tag : (t : CacheTag) → same_name (tag_key t) (tag_key t) ≡ true
same_name-refl_tag (component a) = ==_refl a
same_name-refl_tag (author a) = ==_refl a
same_name-refl_tag feed_trending = refl
same_name-refl_tag (user_feed a) = ==_refl a
same_name-refl_tag (user_session a) = ==_refl a
same_name-refl_tag search_semantic = refl

pub same_name-refl_key : (key : CacheKey) → same_name (k key) (k key) ≡ true
same_name-refl_key (component_public a) = ==_refl a
same_name-refl_key (feed_trending_page n) = ==_refl n
same_name-refl_key (feed_following_page a n) = ground (arith, ==_refl a, ==_refl n)
same_name-refl_key (session a) = ==_refl a
same_name-refl_key (search_page none s n) = ground (arith, eq_refl s, ==_refl n)
same_name-refl_key (search_page (some a) s n) = ground (arith, ==_refl a, eq_refl s, ==_refl n)

pub eq_of_same_tag : (s t : CacheTag) → same_name (tag_key s) (tag_key t) ≡ true → s ≡ t
eq_of_same_tag (component a) t h = ground arith
eq_of_same_tag (author a) t h = ground arith
eq_of_same_tag feed_trending t h = ground arith
eq_of_same_tag (user_feed a) t h = ground arith
eq_of_same_tag (user_session a) t h = ground arith
eq_of_same_tag search_semantic t h = ground arith

-- A set with a member exists.
lives_of_member :
    (t : Date) (j x : CacheName) (ks : Keyspace CacheName)
    → member same_name t j x ks ≡ true
    → lives t j ks ≡ true
unfolding contains
lives_of_member t j x ks h = ground arith

module _ (r : Redis CacheName same_name) (now until : Date) (key : CacheKey) (t : CacheTag) where
  -- The entry is in the set of the tag from now until a time.
  abbrev pub Tagged : Keyspace CacheName → Type 0
  Tagged ks =
      (at : Date) → now ≤ at → at < until → member same_name at (tag_key t) (k key) ks ≡ true

  -- The commands for one tag, that one or another, keep an entry in the set.
  pub one_tag-Tagged :
      (s : CacheTag) (ttl : ℕ) (ks : Keyspace CacheName)
      → until ≤ now + ttl * 2 * 1000
      → Tagged ks
      → Tagged
          (r.apply now (expire (tag_key s) (ttl * 2)) (r.apply now (sadd (tag_key s) (k key)) ks))
  one_tag-Tagged s ttl ks bound h at from to =
      let ks' = r.apply now (sadd (tag_key s) (k key)) ks in
      ground (
        arith,
        r.member-expire now at (tag_key s) (tag_key t) (k key) (ttl * 2) ks' from,
        r.member-sadd now at (tag_key s) (tag_key t) (k key) (k key) ks from,
        r.member-sadd now now (tag_key s) (tag_key t) (k key) (k key) ks,
        h at from to,
        h now,
        lives_of_member at (tag_key t) (k key) ks,
        lives_of_member now (tag_key t) (k key) ks,
        eq_of_same_tag s t,
        same_name-refl_key key,
      )

  -- The commands for the tag put the entry into the set.
  pub own_tag-Tagged :
      (ttl : ℕ) (ks : Keyspace CacheName)
      → until ≤ now + ttl * 2 * 1000
      → Tagged
          (r.apply now (expire (tag_key t) (ttl * 2)) (r.apply now (sadd (tag_key t) (k key)) ks))
  own_tag-Tagged ttl ks bound at from to = ground (
    arith,
    r.member-expire now at (tag_key t) (tag_key t) (k key) (ttl * 2)
        (r.apply now (sadd (tag_key t) (k key)) ks) from,
    r.member-sadd now now (tag_key t) (tag_key t) (k key) (k key) ks,
    same_name-refl_tag t,
    same_name-refl_key key,
  )
