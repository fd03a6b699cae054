-- ===== src/Cache.antt =====
-- cache.service.ts: JSON values in Redis with a time to live, tagged so that related entries can
-- be dropped together. A failure of Redis is logged and otherwise ignored.
pub mod Tags
pub mod Freshness
pub mod Invalidation
pub mod Eviction
pub mod Reading
use Prim.Native.String.{len}
use text.Mathlib.Text.{◌==◌ as str_eq}
use componi_back_nest.Prelude.{
  ℕ, ◌+◌, ◌*◌, String, Bool, true, false, Option, none, some, List, [], ◌∷◌, map, ltb,
  if◌then◌else◌,
}
use componi_back_nest.Entities.Accounts.{Date}
use componi_back_nest.Platform.Redis.{Keyspace, Command, set_ex, sadd, expire, Redis}
use componi_back_nest.Messages.{CacheKey, CacheTag, CacheName, k, tag_key, same_name}
use componi_back_nest.Exec.{Exec, Platform, World, Result, ok, modify, pure, gets, ◌>>=◌, ◌>>◌}

abbrev pub max_payload_bytes : ℕ
max_payload_bytes = 256 * 1024

-- JSON.stringify and JSON.parse at a type of values; `none` is a SyntaxError.
pub record Json (A : Type 0) : Type 0 where
  pub stringify : A → String
  pub parse : String → Option A

-- The commands of `set` for the tags of an entry.
unfoldable pub tag_commands : CacheKey → ℕ → List CacheTag → List (Command CacheName)
tag_commands key ttl [] = []
tag_commands key ttl (t ∷ ts) =
    sadd (tag_key t) (k key) ∷ expire (tag_key t) (ttl * 2) ∷ tag_commands key ttl ts

module _ (r : Redis CacheName same_name) where
  unfoldable pub store :
      Date → CacheKey → String → ℕ → List CacheTag → Keyspace CacheName → Keyspace CacheName
  unfolding tag_commands
  store now key payload ttl tags ks =
      if ltb max_payload_bytes (len payload)
      then ks
      else elim (r.exec now (set_ex (k key) payload ttl ∷ tag_commands key ttl tags) ks) [
        | none ↦ ks
        | some ks' ↦ ks'
      ]

  -- The body of the loop of `invalidateTags`, and whether all its commands succeeded.
  unfoldable pub drop_members :
      Date → List CacheName → Keyspace CacheName → Bool × Keyspace CacheName
  drop_members now [] ks = (true, ks)
  drop_members now (m ∷ ms) ks = elim (r.del now (m ∷ ms) ks) [
    | none ↦ (false, ks)
    | some ks' ↦ (true, ks')
  ]

  unfoldable pub drop_tag : Date → CacheTag → Bool × Keyspace CacheName → Bool × Keyspace CacheName
  drop_tag now t (false, ks) = (false, ks)
  drop_tag now t (true, ks) = elim (r.del now (tag_key t ∷ []) ks) [
    | none ↦ (false, ks)
    | some ks' ↦ (true, ks')
  ]

  unfoldable pub purge : Date → CacheTag → Keyspace CacheName → Bool × Keyspace CacheName
  unfolding drop_members drop_tag
  purge now t ks = elim (r.smembers now (tag_key t) ks) [
    | none ↦ (false, ks)
    | some ms ↦ drop_tag now t (drop_members now ms ks)
  ]

  -- The loop: the first failure ends it.
  unfoldable pub purge_all :
      Date → List CacheTag → Bool × Keyspace CacheName → Bool × Keyspace CacheName
  purge_all now [] s = s
  purge_all now (t ∷ ts) (false, ks) = (false, ks)
  purge_all now (t ∷ ts) (true, ks) = purge_all now ts (purge now t ks)

module _ (p : Platform) {A : Type 0} (json : Json A) where
  unfoldable pub get : CacheKey → World → Option A
  get key w = elim (p.redis.get w.clock (k key) w.redis) [
    | none ↦ none
    | some none ↦ none
    | some (some raw) ↦ if str_eq raw "" then none else json.parse raw
  ]

  unfoldable pub set : CacheKey → A → ℕ → List CacheTag → Exec Unit
  unfolding store
  set key value ttl tags =
      modify
        λ w. record w { redis = store p.redis w.clock key (json.stringify value) ttl tags w.redis }

  -- A value that the loader gives is stored; `none` stands for null and undefined.
  unfoldable pub keep : CacheKey → ℕ → List CacheTag → Option A → Exec (Option A)
  keep key ttl tags none = pure none
  keep key ttl tags (some fresh) = do set key fresh ttl tags; pure (some fresh)

  unfoldable pub serve : CacheKey → Exec (Option A) → ℕ → List CacheTag → Option A → Exec (Option A)
  serve key loader ttl tags (some value) = pure (some value)
  serve key loader ttl tags none = do fresh ← loader; keep key ttl tags fresh

  unfoldable pub wrap : CacheKey → Exec (Option A) → ℕ → List CacheTag → Exec (Option A)
  unfolding get set keep serve
  wrap key loader ttl tags = do hit ← gets (get key); serve key loader ttl tags hit

module _ (p : Platform) where
  unfoldable pub del : List CacheKey → Exec Unit
  unfolding drop_members
  del keys = modify λ w. record w { redis = (drop_members p.redis w.clock (map k keys) w.redis).1 }

  unfoldable pub invalidate_tags : List CacheTag → Exec Unit
  invalidate_tags tags =
      modify λ w. record w { redis = (purge_all p.redis w.clock tags (true, w.redis)).1 }
