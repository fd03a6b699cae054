-- ===== src/Social.antt =====
-- social.service.ts: likes, favorites and follows, with their counters, notifications and realtime
-- events.
pub mod Invariant
pub mod Effects
pub mod Frames
pub mod Counters
pub mod Handlers
pub mod History
pub mod Wall
use mathlib.Core.Option
use componi_back_nest.Prelude.{
  ℕ, String, Bool, true, false, not, Option, none, some, List, ◌==◌, ltb, is_some, ℤ, inc, dec,
  if◌then◌else◌, ◌&&◌,
}
use componi_back_nest.Entities.Accounts.{
  Uuid, Date, User, Follow, NotificationType, Payload, DedupeKey, like_key, favorite_key,
  follow_key,
}
use componi_back_nest.Entities.Content.{Component, Like, Favorite}
use componi_back_nest.Platform.Orm.{Orm}
use componi_back_nest.Database.{Db, live_user, live_component, like_of, favorite_of, follow_of}
use componi_back_nest.Exec.{
  Exec, Result, ok, err, Platform, World, bad_request, not_found, require, present, returned,
  transaction, trx_read, trx_write, trx_insert, trx_delete, now, pure, gets, in_trx, ◌>>=◌, ◌>>◌,
}
use componi_back_nest.Moderation.Blocks.{
  has_id, following_inc, followers_inc, drop_follow, uncount_follow, is_blocked_either_way,
}
use componi_back_nest.Notifications.{enqueue}
use componi_back_nest.Realtime.Service.{component_liked, component_unliked, user_followed}

abbrev pub plain_payload : Option Uuid → Payload
plain_payload component = record {
  component_id = component;
  fork_id = none;
  parent_id = none;
  kind = none;
  dedupe_key = none;
}

abbrev pub component_id : Uuid → Component → Bool
component_id id c = c.id == id

abbrev pub likes_inc : Component → Component
likes_inc c = record c { likes_count = inc c.likes_count }

abbrev pub likes_dec : Component → Component
likes_dec c = record c { likes_count = dec c.likes_count }

abbrev pub favorites_inc : Component → Component
favorites_inc c = record c { favorites_count = inc c.favorites_count }

abbrev pub favorites_dec : Component → Component
favorites_dec c = record c { favorites_count = dec c.favorites_count }

module _ (o : Orm) where
  unfoldable pub insert_like : Like → Db → Option Db
  insert_like l d =
      Option.map (λ rows. record d { likes = rows })
        (o.insert (like_of l.user_id l.component_id) l d.likes)

  unfoldable pub insert_favorite : Favorite → Db → Option Db
  insert_favorite f d =
      Option.map (λ rows. record d { favorites = rows })
        (o.insert (favorite_of f.user_id f.component_id) f d.favorites)

  unfoldable pub insert_follow : Follow → Db → Option Db
  insert_follow f d =
      Option.map (λ rows. record d { follows = rows })
        (o.insert (follow_of f.follower_id f.followee_id) f d.follows)

  -- likes.delete({ userId, componentId }), favorites.delete({ userId, componentId })
  unfoldable pub drop_like : Uuid → Uuid → Db → Db
  drop_like u c d = record d { likes = o.delete (like_of u c) d.likes }

  unfoldable pub drop_favorite : Uuid → Uuid → Db → Db
  drop_favorite u c d = record d { favorites = o.delete (favorite_of u c) d.favorites }

  -- components.increment / decrement({ id }, ..., 1)
  unfoldable pub set_component : (Component → Component) → Uuid → Db → Db
  set_component set id d = record d { components = o.update (component_id id) set d.components }

  unfoldable pub set_user : (User → User) → Uuid → Db → Db
  set_user set id d = record d { users = o.update (has_id id) set d.users }

module _ (p : Platform) where
  -- The checks with which `like` and `favorite` begin: the component, which must not be of an
  -- author in a block with the user.
  unfoldable pub reachable_target : Uuid → Uuid → Exec Component
  unfolding is_blocked_either_way
  reachable_target user_id component = do
    found ← trx_read (λ d. p.orm.find_one (live_component component) d.components)
    target ← present found (not_found "Component not found")
    hidden ←
        if target.author_id == user_id
        then pure false
        else is_blocked_either_way p user_id target.author_id
    require (not hidden) (not_found "Component not found")
    pure target

  -- What the transaction of `like` returns: `{ authorId, likesCount }`, or null.
  unfoldable pub like_trx : Uuid → Uuid → Exec (Option (Uuid × ℤ))
  unfolding reachable_target
  like_trx user_id component = do
    target ← reachable_target user_id component
    existing ← trx_read (λ d. p.orm.find_one (like_of user_id component) d.likes)
    at ← now
    if is_some existing then pure none else do
      trx_insert (
          insert_like p.orm
            (record { user_id = user_id; component_id = component; created_at = at }))
      trx_write (set_component p.orm likes_inc component)
      pure (some (target.author_id, inc target.likes_count))

  unfoldable pub announce_like : Uuid → Uuid → Option (Uuid × ℤ) → Exec Unit
  announce_like user_id component none = pure tt
  announce_like user_id component (some (author, count)) = do
    enqueue p author NotificationType.like (plain_payload (some component)) (some user_id)
        (some (like_key user_id component))
    component_liked p component user_id count

  unfoldable pub like : Uuid → Uuid → Exec Unit
  unfolding announce_like
  like user_id component = do
    result ← transaction p.orm (like_trx user_id component)
    announce_like user_id component result

  -- `after?.likesCount ?? null`
  unfoldable pub likes_after : Uuid → Exec (Option ℤ)
  likes_after component = do
    after ← trx_read (λ d. p.orm.find_one (live_component component) d.components)
    pure (Option.map (λ (c : Component). c.likes_count) after)

  unfoldable pub unlike_trx : Uuid → Uuid → Exec (Option ℤ)
  unfolding likes_after
  unlike_trx user_id component = do
    deleted ←
        trx_delete (λ d. p.orm.affected (like_of user_id component) d.likes)
          (drop_like p.orm user_id component)
    if ltb 0 deleted
        then (do trx_write (set_component p.orm likes_dec component); likes_after component)
        else pure none

  unfoldable pub announce_unlike : Uuid → Uuid → Option ℤ → Exec Unit
  announce_unlike user_id component none = pure tt
  announce_unlike user_id component (some count) = component_unliked p component user_id count

  unfoldable pub unlike : Uuid → Uuid → Exec Unit
  unfolding announce_unlike
  unlike user_id component = do
    count ← transaction p.orm (unlike_trx user_id component)
    announce_unlike user_id component count

  unfoldable pub favorite_trx : Uuid → Uuid → Exec (Option Component)
  unfolding reachable_target
  favorite_trx user_id component = do
    target ← reachable_target user_id component
    existing ← trx_read (λ d. p.orm.find_one (favorite_of user_id component) d.favorites)
    at ← now
    if is_some existing then pure none else do
      trx_insert (
          insert_favorite p.orm
            (record { user_id = user_id; component_id = component; created_at = at }))
      trx_write (set_component p.orm favorites_inc component)
      pure (some target)

  unfoldable pub announce_favorite : Uuid → Uuid → Option Component → Exec Unit
  announce_favorite user_id component none = pure tt
  announce_favorite user_id component (some target) =
      enqueue p target.author_id NotificationType.favorite (plain_payload (some component))
        (some user_id) (some (favorite_key user_id component))

  unfoldable pub favorite : Uuid → Uuid → Exec Unit
  unfolding announce_favorite
  favorite user_id component = do
    target ← transaction p.orm (favorite_trx user_id component)
    announce_favorite user_id component target

  unfoldable pub unfavorite_trx : Uuid → Uuid → Exec Unit
  unfavorite_trx user_id component = do
    deleted ←
        trx_delete (λ d. p.orm.affected (favorite_of user_id component) d.favorites)
          (drop_favorite p.orm user_id component)
    if ltb 0 deleted then trx_write (set_component p.orm favorites_dec component) else pure tt

  unfoldable pub unfavorite : Uuid → Uuid → Exec Unit
  unfavorite user_id component = transaction p.orm (unfavorite_trx user_id component)

  -- The checks with which `follow` begins.
  unfoldable pub follow_target : Uuid → Uuid → Exec User
  unfolding is_blocked_either_way
  follow_target follower followee = do
    found ← trx_read (λ d. p.orm.find_one (live_user followee) d.users)
    target ← present found (not_found "User not found")
    hidden ← is_blocked_either_way p follower followee
    require (not hidden) (not_found "User not found")
    pure target

  -- The insert and the increments.
  unfoldable pub record_follow : Uuid → Uuid → Date → User → Exec (Option ℤ)
  record_follow follower followee at target = do
    trx_insert (
        insert_follow p.orm
          (record { follower_id = follower; followee_id = followee; created_at = at }))
    trx_write (set_user p.orm following_inc follower)
    trx_write (set_user p.orm followers_inc followee)
    pure (some (inc target.followers_count))

  unfoldable pub follow_trx : Uuid → Uuid → Exec (Option ℤ)
  follow_trx follower followee = do
    target ← follow_target follower followee
    existing ← trx_read (λ d. p.orm.find_one (follow_of follower followee) d.follows)
    at ← now
    if is_some existing then pure none else record_follow follower followee at target

  unfoldable pub announce_follow : Uuid → Uuid → Option ℤ → Exec Unit
  announce_follow follower followee none = pure tt
  announce_follow follower followee (some count) = do
    enqueue p followee NotificationType.follow (plain_payload none) (some follower)
        (some (follow_key follower followee))
    user_followed p followee follower count

  unfoldable pub follow : Uuid → Uuid → Exec Unit
  unfolding announce_follow
  follow follower followee = do
    require (not (follower == followee)) (bad_request "Cannot follow yourself")
    created ← transaction p.orm (follow_trx follower followee)
    announce_follow follower followee created

  unfoldable pub unfollow_trx : Uuid → Uuid → Exec Unit
  unfollow_trx follower followee = do
    deleted ←
        trx_delete (λ d. p.orm.affected (follow_of follower followee) d.follows)
          (drop_follow p.orm follower followee)
    if ltb 0 deleted then trx_write (uncount_follow p.orm follower followee) else pure tt

  unfoldable pub unfollow : Uuid → Uuid → Exec Unit
  unfollow follower followee = transaction p.orm (unfollow_trx follower followee)
