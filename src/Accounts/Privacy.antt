-- ===== src/Accounts/Privacy.antt =====
-- account-privacy.service.ts: the export of a user's data and the erasure of an account.
pub mod Erased
use Prim.Native.String.{◌++◌}
use componi_back_nest.Prelude.{
  ℕ, String, Bool, true, false, not, ◌&&◌, ◌||◌, Option, none, some, List, [], ◌∷◌, ◌==◌, is_none,
  is_some, length, if◌then◌else◌,
}
use componi_back_nest.Entities.Accounts.{Uuid, Date, User, Follow, Notification}
use componi_back_nest.Entities.Content.{
  Component, ComponentVersion, Like, Favorite, Comment, Collection, CollectionComponent, Share,
}
use componi_back_nest.Entities.Moderation.{Block, Mute, Report, AuditAction, AuditTarget, Metadata}
use componi_back_nest.Platform.Orm.{Orm}
use componi_back_nest.Platform.Js.{Js}
use componi_back_nest.Database.{Db, live_user}
use componi_back_nest.Messages.{user_feed, author, feed_trending}
use componi_back_nest.Cache.{invalidate_tags}
use componi_back_nest.Session.{invalidate}
use componi_back_nest.Admin.Users.{set_marker}
use componi_back_nest.Audit.{AuditContext, log}
use componi_back_nest.Moderation.Blocks.{has_id}
use componi_back_nest.Exec.{
  Exec, Result, ok, err, not_found, Platform, World, pure, require, present, gets, now, modify,
  trx_read, trx_write, in_trx, transaction, ◌>>=◌, ◌>>◌,
}

pub record Export : Type 0 where
  pub exported_at : Date
  pub schema_version : ℕ
  pub user : User
  pub components : List Component
  pub versions : List ComponentVersion
  pub comments : List Comment
  pub likes : List Like
  pub favorites : List Favorite
  pub following : List Follow
  pub followers : List Follow
  pub blocks : List Block
  pub mutes : List Mute
  pub notifications : List Notification
  pub collections : List Collection
  pub collection_items : List CollectionComponent
  pub shares : List Share
  pub reports_filed : List Report

abbrev pub owns : Uuid → Share → Bool
owns user s = elim s.user_id [ none ↦ false | some id ↦ id == user ]

-- "actorId" = $1, which a NULL does not satisfy.
abbrev pub acted : Uuid → Notification → Bool
acted user n = elim n.actor_id [ none ↦ false | some id ↦ id == user ]

-- The rows that `deleteAccount` deletes, by table.
abbrev pub follows_of : Uuid → Follow → Bool
follows_of user f = f.follower_id == user || f.followee_id == user

abbrev pub blocks_of : Uuid → Block → Bool
blocks_of user b = b.blocker_id == user || b.blocked_id == user

abbrev pub mutes_of : Uuid → Mute → Bool
mutes_of user m = m.muter_id == user || m.muted_id == user

abbrev pub notifications_of : Uuid → Notification → Bool
notifications_of user n = n.user_id == user || acted user n

-- "collectionId" IN (SELECT id FROM collections WHERE "ownerId" = $1)
unfoldable pub owner_has : Orm → Uuid → Db → CollectionComponent → Bool
owner_has o user d i =
    is_some
      (o.find_one (λ (c : Collection). c.id == i.collection_id && c.owner_id == user) d.collections)

unfoldable pub version_by : Orm → Uuid → Db → ComponentVersion → Bool
version_by o user d v = is_some (
    o.find_one
      (λ (c : Component). c.id == v.component_id && (c.author_id == user && is_none c.deleted_at))
      d.components)

module _ (p : Platform) (trim : String → String) where
  -- What `exportData` collects. The finds on entities with a `@DeleteDateColumn` leave deleted rows
  -- out, and so do the joins of the query builders.
  unfoldable pub gather : Uuid → User → World → Export
  unfolding version_by
  gather id user w = record {
    exported_at = w.clock;
    schema_version = 1;
    user = user;
    components = p.orm.find (λ c. c.author_id == id && is_none c.deleted_at) w.db.components;
    versions = p.orm.find (version_by p.orm id w.db) w.db.versions;
    comments = p.orm.find (λ c. c.author_id == id && is_none c.deleted_at) w.db.comments;
    likes = p.orm.find (λ l. l.user_id == id) w.db.likes;
    favorites = p.orm.find (λ f. f.user_id == id) w.db.favorites;
    following = p.orm.find (λ f. f.follower_id == id) w.db.follows;
    followers = p.orm.find (λ f. f.followee_id == id) w.db.follows;
    blocks = p.orm.find (λ b. b.blocker_id == id) w.db.blocks;
    mutes = p.orm.find (λ m. m.muter_id == id) w.db.mutes;
    notifications = p.orm.find (λ n. n.user_id == id) w.notifications;
    collections = p.orm.find (λ c. c.owner_id == id && is_none c.deleted_at) w.db.collections;
    collection_items = p.orm.find (owned_item id w.db) w.db.collection_components;
    shares = p.orm.find (owns id) w.db.shares;
    reports_filed = p.orm.find (λ r. r.reporter_id == id) w.db.reports;
  }
    where
      owned_item : Uuid → Db → CollectionComponent → Bool
      owned_item id d i = is_some (
          p.orm.find_one
            (λ (c : Collection).
              c.id == i.collection_id && (c.owner_id == id && is_none c.deleted_at))
            d.collections)

  unfoldable pub export_data : AuditContext → Exec Export
  unfolding gather
  export_data ctx = do
    found ← gets (λ w. p.orm.find_one (live_user ctx.actor_id) w.db.users)
    user ← present found (not_found "User not found")
    require (is_none user.deleted_at) (not_found "User not found")
    dump ← gets (gather ctx.actor_id user)
    log p trim ctx (record {
      action = AuditAction.export_user_data;
      target_type = some AuditTarget.user;
      target_id = some ctx.actor_id;
      metadata = Metadata.exported (
          length dump.components
          ∷ length dump.comments
          ∷ length dump.likes
          ∷ length dump.favorites
          ∷ length dump.following
          ∷ length dump.followers
          ∷ length dump.notifications
          ∷ []);
      reason = none;
    })
    at ← now
    pure (record dump { exported_at = at })

-- After a transaction: the notifications that it leaves, or those of its beginning.
unfoldable pub with_notifications : List Notification → Result Unit × World → Result Unit × World
with_notifications begun (ok u, w) = (ok u, w)
with_notifications begun (err e, w) = (err e, record w { notifications = begun })

module _ (p : Platform) (js : Js) (undashed : String → String) where
  -- The columns that the erasure sets.
  unfoldable pub anonymized : Uuid → Date → User → User
  anonymized id at u = record u {
    email = "deleted+" ++ js.show id ++ "@deleted.componi.local";
    username = "deleted_" ++ undashed (js.show id);
    github_username = none;
    display_name = some "Deleted User";
    avatar_url = none;
    bio = none;
    website_url = none;
    suspended_until = none;
    suspension_reason = none;
    deleted_at = some at;
  }

  unfoldable pub drop_notifications : Uuid → Exec Unit
  drop_notifications id =
      in_trx (
        modify λ w. record w { notifications = p.orm.delete (notifications_of id) w.notifications })

  unfoldable pub erase_trx : AuditContext → Exec Unit
  unfolding owner_has drop_notifications set_marker
  erase_trx ctx = do
    let id = ctx.actor_id
    set_marker p js.trim
    found ← trx_read (λ d. p.orm.find_one (live_user id) d.users)
    user ← present found (not_found "User not found")
    require (is_none user.deleted_at) (not_found "User not found")
    trx_write (λ d. record d { likes = p.orm.delete (λ l. l.user_id == id) d.likes })
    trx_write (λ d. record d { favorites = p.orm.delete (λ f. f.user_id == id) d.favorites })
    trx_write (λ d. record d { follows = p.orm.delete (follows_of id) d.follows })
    trx_write (λ d. record d { blocks = p.orm.delete (blocks_of id) d.blocks })
    trx_write (λ d. record d { mutes = p.orm.delete (mutes_of id) d.mutes })
    drop_notifications id
    trx_write (λ d. record d {
      collection_components = p.orm.delete (owner_has p.orm id d) d.collection_components;
    })
    trx_write (λ d. record d { collections = p.orm.delete (λ c. c.owner_id == id) d.collections })
    trx_write (λ d. record d { shares = p.orm.delete (owns id) d.shares })
    at ← now
    trx_write (λ d. record d { users = p.orm.update (has_id id) (anonymized id at) d.users })
    log p js.trim ctx (record {
      action = AuditAction.erase_user;
      target_type = some AuditTarget.user;
      target_id = some id;
      metadata = Metadata.self_service;
      reason = some "user-requested-self-deletion";
    })

  -- The transaction. `Exec` rolls the tables of `Db` back, and here also the notifications.
  unfoldable pub erase : AuditContext → Exec Unit
  erase ctx w = with_notifications w.notifications (transaction p.orm (erase_trx ctx) w)

  unfoldable pub delete_account : AuditContext → Exec Unit
  unfolding erase
  delete_account ctx = do
    erase ctx
    invalidate p ctx.actor_id
    invalidate_tags p (user_feed ctx.actor_id ∷ author ctx.actor_id ∷ feed_trending ∷ [])
