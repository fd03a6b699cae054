-- ===== src/Moderation/Blocks.antt =====
-- blocks.service.ts. `trim` of the optional reason is a parameter: the text is stored, never read.
pub mod Effects
use text.Mathlib.Text.{◌==◌ as str_eq}
use mathlib.Core.Option
use componi_back_nest.Prelude.{
  ℕ, String, Bool, true, false, not, ◌&&◌, ◌||◌, Option, none, some, List, [], ◌∷◌, ◌==◌, ltb,
  is_some, is_none, inc, dec, if◌then◌else◌,
}
use componi_back_nest.Entities.Accounts.{Uuid, Date, User, Follow}
use componi_back_nest.Entities.Moderation.{Block}
use componi_back_nest.Platform.Orm.{Orm}
use componi_back_nest.Database.{Db, live_user, block_of, follow_of}
use componi_back_nest.Messages.{user_feed}
use componi_back_nest.Exec.{
  Exec, Result, ok, err, Platform, World, bad_request, not_found, require, present, returned,
  transaction, trx_read, trx_write, trx_insert, trx_delete, if_new, new_uuid, now, write, pure,
  raise, gets, in_trx, ◌>>=◌, ◌>>◌,
}
use componi_back_nest.Cache.{invalidate_tags}

-- `text?.trim() || null`
unfoldable pub trimmed : (String → String) → Option String → Option String
trimmed trim none = none
trimmed trim (some s) = if str_eq (trim s) "" then none else some (trim s)

-- The condition of `isBlockedEitherWay`.
abbrev pub either_way : Uuid → Uuid → Block → Bool
either_way a b r = block_of a b r || block_of b a r

abbrev pub has_id : Uuid → User → Bool
has_id id u = u.id == id

abbrev pub following_inc : User → User
following_inc u = record u { following_count = inc u.following_count }

abbrev pub following_dec : User → User
following_dec u = record u { following_count = dec u.following_count }

abbrev pub followers_inc : User → User
followers_inc u = record u { followers_count = inc u.followers_count }

abbrev pub followers_dec : User → User
followers_dec u = record u { followers_count = dec u.followers_count }

unfoldable pub new_block : (String → String) → Uuid → Uuid → Uuid → Option String → Date → Block
new_block trim id blocker blocked reason at = record {
  id = id;
  blocker_id = blocker;
  blocked_id = blocked;
  reason = trimmed trim reason;
  created_at = at;
}

module _ (o : Orm) where
  -- follows.delete({ followerId: a, followeeId: b })
  unfoldable pub drop_follow : Uuid → Uuid → Db → Db
  drop_follow a b d = record d { follows = o.delete (follow_of a b) d.follows }

  -- The two decrements after a follow of `b` by `a` is gone.
  unfoldable pub uncount_follow : Uuid → Uuid → Db → Db
  uncount_follow a b d = record d {
    users = o.update (has_id b) followers_dec (o.update (has_id a) following_dec d.users);
  }

  unfoldable pub insert_block : Block → Db → Option Db
  insert_block b d =
      Option.map (λ rows. record d { blocks = rows })
        (o.insert (block_of b.blocker_id b.blocked_id) b d.blocks)

module _ (p : Platform) where
  -- After the insert: the follows in both directions and their counters.
  unfoldable pub tear_down : Uuid → Uuid → Exec Unit
  tear_down blocker blocked = do
    forward ←
        trx_delete (λ d. p.orm.affected (follow_of blocker blocked) d.follows)
          (drop_follow p.orm blocker blocked)
    reverse ←
        trx_delete (λ d. p.orm.affected (follow_of blocked blocker) d.follows)
          (drop_follow p.orm blocked blocker)
    if ltb 0 forward then trx_write (uncount_follow p.orm blocker blocked) else pure tt
    if ltb 0 reverse then trx_write (uncount_follow p.orm blocked blocker) else pure tt

module _ (p : Platform) (trim : String → String) where
  unfoldable pub block_trx : Uuid → Uuid → Option String → Exec Unit
  block_trx blocker blocked reason = do
    found ← trx_read (λ d. p.orm.find_one (live_user blocked) d.users)
    target ← present found (not_found "User not found")
    require (is_none target.deleted_at) (not_found "User not found")
    id ← new_uuid
    at ← now
    fresh ← if_new (trx_insert (insert_block p.orm (new_block trim id blocker blocked reason at)))
    if fresh then tear_down p blocker blocked else pure tt

  unfoldable pub block : Uuid → Uuid → Option String → Exec Unit
  block blocker blocked reason = do
    require (not (blocker == blocked)) (bad_request "Cannot block yourself")
    transaction p.orm (block_trx blocker blocked reason)
    invalidate_tags p (user_feed blocker ∷ user_feed blocked ∷ [])

module _ (p : Platform) where
  unfoldable pub unblock : Uuid → Uuid → Exec Unit
  unblock blocker blocked =
      write (λ d. record d { blocks = p.orm.delete (block_of blocker blocked) d.blocks })

  unfoldable pub blocked_pair : Uuid → Uuid → Db → Bool
  blocked_pair viewer author d =
      if viewer == author
      then false
      else is_some (p.orm.find_one (either_way viewer author) d.blocks)

  unfoldable pub is_blocked_either_way : Uuid → Uuid → Exec Bool
  unfolding blocked_pair
  is_blocked_either_way viewer author = gets (λ w. blocked_pair viewer author w.db)
