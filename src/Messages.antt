-- ===== src/Messages.antt =====
-- What the services send: realtime events and rooms (common/realtime/realtime.types.ts), queue
-- jobs (notifications.service.ts, embeddings.service.ts, thumbnails.service.ts), and the names of
-- cache entries and tags. A template string such as `user:${userId}` has a constructor.
use text.Mathlib.Text.{◌==◌ as str_eq}
use componi_back_nest.Prelude.{ℕ, String, Option, none, some, Bool, true, false, ◌&&◌, ◌==◌, ℤ}
use componi_back_nest.Entities.Accounts.{
  Uuid, Date, NotificationType, DedupeKey, like_key, favorite_key, follow_key, fork_key, Payload,
}

-- `userRoom` and `componentRoom` of the gateway.
pub data Room : Type 0 where
  user_room component_room : Uuid → Room

abbrev pub same_room : Room → Room → Bool
same_room (user_room a) (user_room b) = a == b
same_room (component_room a) (component_room b) = a == b
same_room _ _ = false

-- ServerToClientEvents, but for `error`, which goes to one socket.
pub data ServerEvent : Type 0 where
  notification :
      (type : NotificationType) (actor_id : Option Uuid) (payload : Payload) (created_at : Date)
      → ServerEvent
  component_like : (component_id actor_id : Uuid) (likes_count : ℤ) → ServerEvent
  component_unlike : (component_id actor_id : Uuid) (likes_count : ℤ) → ServerEvent
  component_comment : (component_id comment_id actor_id : Uuid) (comments_count : ℤ) → ServerEvent
  user_follow : (follower_id : Uuid) (followers_count : ℤ) → ServerEvent

pub record Emit : Type 0 where
  pub room : Room
  pub event : ServerEvent

pub record NotificationJob : Type 0 where
  pub user_id : Uuid
  pub type : NotificationType
  pub actor_id : Option Uuid
  pub payload : Payload
  pub dedupe_key : Option DedupeKey

abbrev pub same_dedupe_key : DedupeKey → DedupeKey → Bool
same_dedupe_key (like_key a b) (like_key c d) = a == c && b == d
same_dedupe_key (favorite_key a b) (favorite_key c d) = a == c && b == d
same_dedupe_key (follow_key a b) (follow_key c d) = a == c && b == d
same_dedupe_key (fork_key a) (fork_key b) = a == b
same_dedupe_key _ _ = false

-- The `jobId`s: `${type}:${userId}:${dedupeKey}`, `embed:${id}` and `verify:${id}`.
pub data JobId : Type 0 where
  notify_id : NotificationType → Uuid → DedupeKey → JobId
  embed_id : Uuid → JobId
  verify_id : Uuid → JobId

pub data JobData : Type 0 where
  notify : NotificationJob → JobData
  embed : Uuid → JobData
  verify : (component_id : Uuid) (thumbnail_url : String) → JobData

pub record Job : Type 0 where
  pub body : JobData
  pub job_id : Option JobId

-- The keys of cached values.
pub data CacheKey : Type 0 where
  component_public : Uuid → CacheKey
  feed_trending_page : ℕ → CacheKey
  feed_following_page : Uuid → ℕ → CacheKey
  session : Uuid → CacheKey
  -- search:semantic:${viewerKey}:${queryHash}:${limit}
  search_page : (viewer : Option Uuid) (hash : String) (limit : ℕ) → CacheKey

-- The tags of cached values.
pub data CacheTag : Type 0 where
  component : Uuid → CacheTag
  author : Uuid → CacheTag
  feed_trending : CacheTag
  user_feed : Uuid → CacheTag
  user_session : Uuid → CacheTag
  search_semantic : CacheTag

-- The Redis keys of the cache: `cache:${key}` and `cache:tag:${tag}`.
pub data CacheName : Type 0 where
  k : CacheKey → CacheName
  tag_key : CacheTag → CacheName

-- `viewer?.id ?? 'anon'`
abbrev pub same_viewer : Option Uuid → Option Uuid → Bool
same_viewer none none = true
same_viewer (some a) (some b) = a == b
same_viewer _ _ = false

abbrev pub same_cache_key : CacheKey → CacheKey → Bool
same_cache_key (component_public a) (component_public b) = a == b
same_cache_key (feed_trending_page n) (feed_trending_page m) = n == m
same_cache_key (feed_following_page a n) (feed_following_page b m) = a == b && n == m
same_cache_key (session a) (session b) = a == b
same_cache_key (search_page u s n) (search_page v t m) = same_viewer u v && (str_eq s t && n == m)
same_cache_key _ _ = false

abbrev pub same_cache_tag : CacheTag → CacheTag → Bool
same_cache_tag (component a) (component b) = a == b
same_cache_tag (author a) (author b) = a == b
same_cache_tag feed_trending feed_trending = true
same_cache_tag (user_feed a) (user_feed b) = a == b
same_cache_tag (user_session a) (user_session b) = a == b
same_cache_tag search_semantic search_semantic = true
same_cache_tag _ _ = false

abbrev pub same_name : CacheName → CacheName → Bool
same_name (k a) (k b) = same_cache_key a b
same_name (tag_key a) (tag_key b) = same_cache_tag a b
same_name _ _ = false
