-- ===== src/Admin/Content.antt =====
-- admin-content.service.ts: takedowns by moderators.
use componi_back_nest.Prelude.{dec, String, Option, some, [], ◌∷◌, is_none}
use componi_back_nest.Entities.Accounts.{Uuid, Date, User}
use componi_back_nest.Entities.Content.{Component, Comment}
use componi_back_nest.Entities.Moderation.{AuditAction, AuditTarget, Metadata}
use componi_back_nest.Database.{live_component, live_comment}
use componi_back_nest.Messages.{component, author, feed_trending}
use componi_back_nest.Cache.{invalidate_tags}
use componi_back_nest.Audit.{AuditContext, log}
use componi_back_nest.Social.{set_component, set_user}
use componi_back_nest.Comments.{soft_remove, comments_dec}
use componi_back_nest.Exec.{
  Exec, not_found, Platform, require, present, now, gets, transaction, trx_write, ◌>>=◌, ◌>>◌,
}

unfoldable pub component_deleted : Date → Component → Component
component_deleted at c = record c { deleted_at = some at }

abbrev pub components_dec : User → User
components_dec u = record u { components_count = dec u.components_count }

module _ (p : Platform) (trim : String → String) where
  unfoldable pub delete_component_trx : AuditContext → Component → String → Option Uuid → Exec Unit
  delete_component_trx ctx row reason report = do
    at ← now
    trx_write (set_component p.orm (component_deleted at) row.id)
    trx_write (set_user p.orm components_dec row.author_id)
    log p trim ctx (record {
      action = AuditAction.delete_component;
      target_type = some AuditTarget.component;
      target_id = some row.id;
      metadata = Metadata.removed_component row.author_id report;
      reason = some reason;
    })

  unfoldable pub delete_component : AuditContext → Uuid → String → Option Uuid → Exec Unit
  delete_component ctx id reason report = do
    found ← gets (λ w. p.orm.find_one (live_component id) w.db.components)
    row ← present found (not_found "Component not found")
    require (is_none row.deleted_at) (not_found "Component not found")
    transaction p.orm (delete_component_trx ctx row reason report)
    invalidate_tags p (component id ∷ author row.author_id ∷ feed_trending ∷ [])

  unfoldable pub delete_comment_trx : AuditContext → Comment → String → Option Uuid → Exec Unit
  delete_comment_trx ctx row reason report = do
    at ← now
    trx_write (soft_remove p.orm row.id at)
    trx_write (set_component p.orm comments_dec row.component_id)
    log p trim ctx (record {
      action = AuditAction.delete_comment;
      target_type = some AuditTarget.comment;
      target_id = some row.id;
      metadata = Metadata.removed_comment row.author_id row.component_id report;
      reason = some reason;
    })

  unfoldable pub delete_comment : AuditContext → Uuid → String → Option Uuid → Exec Unit
  delete_comment ctx id reason report = do
    found ← gets (λ w. p.orm.find_one (live_comment id) w.db.comments)
    row ← present found (not_found "Comment not found")
    require (is_none row.deleted_at) (not_found "Comment not found")
    transaction p.orm (delete_comment_trx ctx row reason report)
    invalidate_tags p (component row.component_id ∷ [])
