-- ===== src/Database.antt =====
-- The database: the tables of src/database/entities, each as the list of its rows in no
-- particular order, and the conditions that its unique indexes and its soft deletion put on rows
-- (src/database/entities, src/database/migrations).
use componi_back_nest.Prelude.{Bool, ◌&&◌, List, ◌==◌, is_none}
use componi_back_nest.Entities.Accounts.{Uuid, User, Follow}
use componi_back_nest.Entities.Content.{
  Component, ComponentVersion, Like, Favorite, Comment, Collection, CollectionComponent, Tag,
  ComponentTag, Share,
}
use componi_back_nest.Entities.Moderation.{Block, Mute, Report}

-- The tables that transactions change. Notifications and audit rows, which are only ever written
-- through a repository outside the transaction, stand in the `World`.
pub record Db : Type 0 where
  pub users : List User
  pub follows : List Follow
  pub components : List Component
  pub versions : List ComponentVersion
  pub likes : List Like
  pub favorites : List Favorite
  pub comments : List Comment
  pub collections : List Collection
  pub collection_components : List CollectionComponent
  pub blocks : List Block
  pub mutes : List Mute
  pub reports : List Report
  pub tags : List Tag
  pub component_tags : List ComponentTag
  pub shares : List Share

-- `where: { id }` on an entity with a `@DeleteDateColumn`: `find*` adds `deletedAt IS NULL`.
abbrev pub live_user : Uuid → User → Bool
live_user id r = r.id == id && is_none r.deleted_at

abbrev pub live_component : Uuid → Component → Bool
live_component id r = r.id == id && is_none r.deleted_at

abbrev pub live_comment : Uuid → Comment → Bool
live_comment id r = r.id == id && is_none r.deleted_at

abbrev pub live_collection : Uuid → Collection → Bool
live_collection id r = r.id == id && is_none r.deleted_at

-- The rows with a primary key or a unique pair.
abbrev pub like_of : Uuid → Uuid → Like → Bool
like_of user component r = r.user_id == user && r.component_id == component

abbrev pub favorite_of : Uuid → Uuid → Favorite → Bool
favorite_of user component r = r.user_id == user && r.component_id == component

abbrev pub follow_of : Uuid → Uuid → Follow → Bool
follow_of follower followee r = r.follower_id == follower && r.followee_id == followee

abbrev pub block_of : Uuid → Uuid → Block → Bool
block_of blocker blocked r = r.blocker_id == blocker && r.blocked_id == blocked

abbrev pub mute_of : Uuid → Uuid → Mute → Bool
mute_of muter muted r = r.muter_id == muter && r.muted_id == muted

abbrev pub item_of : Uuid → Uuid → CollectionComponent → Bool
item_of collection component r = r.collection_id == collection && r.component_id == component
