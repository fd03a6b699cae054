-- ===== src/Entities/Accounts.antt =====
-- user.entity.ts, follow.entity.ts, notification.entity.ts, and the roles of
-- common/types/auth-user.type.ts.
use componi_back_nest.Prelude.{ℕ, String, Option, Bool, true, false, ℤ}

-- A `uuid` column, or a UUID in a request.
abbrev pub Uuid : Type 0
Uuid = ℕ

-- A `timestamptz` column, or a `Date`: milliseconds since 1970.
abbrev pub Date : Type 0
Date = ℕ

pub data UserRole : Type 0 where
  user moderator admin : UserRole

abbrev pub same_role : UserRole → UserRole → Bool
same_role UserRole.user UserRole.user = true
same_role UserRole.moderator UserRole.moderator = true
same_role UserRole.admin UserRole.admin = true
same_role _ _ = false

pub record User : Type 0 where
  pub id : Uuid
  pub email : String
  pub username : String
  pub github_username : Option String
  pub display_name : Option String
  pub avatar_url : Option String
  pub bio : Option String
  pub website_url : Option String
  pub followers_count : ℤ
  pub following_count : ℤ
  pub components_count : ℤ
  pub role : UserRole
  pub suspended_until : Option Date
  pub suspension_reason : Option String
  pub privacy_accepted_at : Option Date
  pub privacy_accepted_version : Option String
  pub terms_accepted_at : Option Date
  pub terms_accepted_version : Option String
  pub created_at : Date
  pub updated_at : Date
  pub deleted_at : Option Date

pub record Follow : Type 0 where
  pub follower_id : Uuid
  pub followee_id : Uuid
  pub created_at : Date

pub data NotificationType : Type 0 where
  like favorite comment reply follow mention version : NotificationType

abbrev pub same_type : NotificationType → NotificationType → Bool
same_type NotificationType.like NotificationType.like = true
same_type NotificationType.favorite NotificationType.favorite = true
same_type NotificationType.comment NotificationType.comment = true
same_type NotificationType.reply NotificationType.reply = true
same_type NotificationType.follow NotificationType.follow = true
same_type NotificationType.mention NotificationType.mention = true
same_type NotificationType.version NotificationType.version = true
same_type _ _ = false

-- The idempotency keys that the callers of `enqueue` write as template strings:
-- `like:${userId}:${componentId}` and so on. Each template has a constructor.
pub data DedupeKey : Type 0 where
  like_key favorite_key follow_key : Uuid → Uuid → DedupeKey
  fork_key : Uuid → DedupeKey

-- The `jsonb` payload: the keys that the callers write, and `dedupeKey`, which `deliver` adds.
pub record Payload : Type 0 where
  pub component_id : Option Uuid
  pub fork_id : Option Uuid
  pub parent_id : Option Uuid
  pub kind : Option String
  pub dedupe_key : Option DedupeKey

pub record Notification : Type 0 where
  pub id : Uuid
  pub user_id : Uuid
  pub actor_id : Option Uuid
  pub type : NotificationType
  pub payload : Payload
  pub read_at : Option Date
  pub created_at : Date
