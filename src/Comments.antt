-- ===== src/Comments.antt =====
-- comments.service.ts. The list of a component's comments is a read that the model leaves out, and
-- so are the columns `updatedAt` that TypeORM sets on an update.
pub mod Counted
use mathlib.Core.Option
use componi_back_nest.Prelude.{
  ℕ, ℤ, inc, dec, String, Bool, true, false, not, ◌&&◌, Option, none, some, ◌==◌, is_none,
  if◌then◌else◌,
}
use componi_back_nest.Entities.Accounts.{Uuid, Date}
use componi_back_nest.Entities.Content.{Component, Comment}
use componi_back_nest.Platform.Orm.{Orm}
use componi_back_nest.Database.{Db, live_component, live_comment}
use componi_back_nest.Realtime.Service.{component_commented}
use componi_back_nest.Social.{set_component}
use componi_back_nest.Exec.{
  Exec, Result, ok, err, not_found, Platform, World, require, present, now, new_uuid, pure, gets,
  transaction, trx_read, trx_write, trx_insert, ◌>>=◌, ◌>>◌,
}

pub record CreateCommentDto : Type 0 where
  pub parent_id : Option Uuid
  pub body : String

abbrev pub comment_id : Uuid → Comment → Bool
comment_id id c = c.id == id

abbrev pub comments_inc : Component → Component
comments_inc c = record c { comments_count = inc c.comments_count }

abbrev pub comments_dec : Component → Component
comments_dec c = record c { comments_count = dec c.comments_count }

unfoldable pub comment_deleted : Date → Comment → Comment
comment_deleted at c = record c { deleted_at = some at }

unfoldable pub new_comment : Uuid → Uuid → CreateCommentDto → Uuid → Date → Comment
new_comment component author dto id at = record {
  id = id;
  component_id = component;
  author_id = author;
  parent_id = dto.parent_id;
  body = dto.body;
  created_at = at;
  updated_at = at;
  deleted_at = none;
}

module _ (o : Orm) where
  -- save(comment) of a new row: its id clashes with none.
  unfoldable pub insert_comment : Comment → Db → Option Db
  insert_comment c d =
      Option.map (λ rows. record d { comments = rows }) (o.insert (comment_id c.id) c d.comments)

  -- softRemove(comment), and the soft delete of the moderators.
  unfoldable pub soft_remove : Uuid → Date → Db → Db
  unfolding comment_deleted
  soft_remove id at d = record d {
    comments = o.update (comment_id id) (comment_deleted at) d.comments;
  }

module _ (p : Platform) where
  unfoldable pub create_trx : Uuid → Uuid → CreateCommentDto → Exec (Comment × ℤ)
  create_trx component user dto = do
    found ← trx_read (λ d. p.orm.find_one (live_component component) d.components)
    target ← present found (not_found "Component not found")
    id ← new_uuid
    at ← now
    trx_insert (insert_comment p.orm (new_comment component user dto id at))
    trx_write (set_component p.orm comments_inc component)
    pure (new_comment component user dto id at, inc target.comments_count)

  unfoldable pub announce_comment : Uuid → Uuid → Comment × ℤ → Exec Comment
  announce_comment component user (saved, count) = do
    component_commented p component saved.id user count
    pure saved

  unfoldable pub create : Uuid → Uuid → CreateCommentDto → Exec Comment
  create component user dto = do
    result ← transaction p.orm (create_trx component user dto)
    announce_comment component user result

  unfoldable pub remove_trx : Comment → Exec Unit
  remove_trx comment = do
    at ← now
    trx_write (soft_remove p.orm comment.id at)
    trx_write (set_component p.orm comments_dec comment.component_id)

  unfoldable pub remove : Uuid → Uuid → Exec Unit
  remove id user = do
    found ← gets (λ w. p.orm.find_one (live_comment id) w.db.comments)
    comment ← present found (not_found "Comment not found")
    require (comment.author_id == user) (not_found "Comment not found")
    transaction p.orm (remove_trx comment)
