-- ===== src/Admin/Users.antt =====
-- admin-users.service.ts: suspensions and roles. `SET LOCAL app.privileged_update` is a statement
-- that changes no row; the trigger that asks for it is not modelled.
pub mod Limits
pub mod Admins
pub mod Audited
use componi_back_nest.Prelude.{
  ℕ, ◌+◌, ◌*◌, String, Bool, true, false, not, ◌&&◌, Option, none, some, ◌==◌, ltb, is_none,
  if◌then◌else◌, List, count,
}
use componi_back_nest.Entities.Accounts.{Uuid, Date, User, UserRole, same_role}
use componi_back_nest.Entities.Moderation.{AuditAction, AuditTarget, Metadata}
use componi_back_nest.Platform.Orm.{Orm}
use componi_back_nest.Database.{Db, live_user}
use componi_back_nest.Moderation.Blocks.{has_id}
use componi_back_nest.Audit.{AuditContext, AuditEntry, log}
use componi_back_nest.Session.{invalidate}
use componi_back_nest.Exec.{
  Exec, Result, ok, err, Error, bad_request, forbidden, not_found, Platform, World, require,
  present, now, pure, transaction, trx_read, trx_write, trx_update, gets, in_trx, write, ◌>>=◌,
  ◌>>◌,
}

-- MODERATOR_MAX_SUSPEND_HOURS
abbrev pub moderator_max_suspend_hours : ℕ
moderator_max_suspend_hours = 720

-- PERMANENT_BAN_TIMESTAMP, 9999-12-31T23:59:59Z
abbrev pub permanent_ban_timestamp : Date
permanent_ban_timestamp = 253402300799000

unfoldable pub suspended : Date → String → User → User
suspended until reason u = record u {
  suspended_until = some until;
  suspension_reason = some reason;
}

unfoldable pub unsuspended : User → User
unsuspended u = record u { suspended_until = none; suspension_reason = none }

unfoldable pub with_role : UserRole → User → User
with_role role u = record u { role = role }

-- ['user', 'moderator', 'admin'].indexOf(role)
unfoldable pub role_index : UserRole → ℕ
role_index UserRole.user = 0
role_index UserRole.moderator = 1
role_index UserRole.admin = 2

-- The COUNT of the other admins.
abbrev pub other_admin : Uuid → User → Bool
other_admin target u =
    same_role u.role UserRole.admin && (is_none u.deleted_at && not (u.id == target))

unfoldable pub suspension_end : ℕ → Date → Date
suspension_end hours at =
    if hours == 0 then permanent_ban_timestamp else at + hours * 60 * 60 * 1000

module _ (p : Platform) (trim : String → String) where
  -- Inside the three transactions: SET LOCAL, and the audit entry.
  unfoldable pub set_marker : Exec Unit
  set_marker = trx_write (λ d. d)

  unfoldable pub update_users : (User → Bool) → (User → User) → Exec ℕ
  update_users where_ set =
      trx_update (λ d. p.orm.affected where_ d.users)
        (λ d. record d { users = p.orm.update where_ set d.users })

  unfoldable pub log_user : AuditContext → AuditAction → Uuid → String → Metadata → Exec Unit
  log_user ctx action target reason metadata = log p trim ctx (record {
    action = action;
    target_type = some AuditTarget.user;
    target_id = some target;
    metadata = metadata;
    reason = some reason;
  })

  unfoldable pub suspend_trx : AuditContext → Uuid → ℕ → Date → String → Exec Unit
  suspend_trx ctx target hours until reason = do
    set_marker
    affected ← update_users (live_user target) (suspended until (trim reason))
    require (not (affected == 0)) (not_found "User not found")
    log_user ctx (if hours == 0 then AuditAction.ban_user else AuditAction.suspend_user) target
        reason (Metadata.suspension hours until)

  unfoldable pub suspend : AuditContext → UserRole → Uuid → ℕ → String → Exec Unit
  unfolding suspension_end
  suspend ctx actor_role target hours reason = do
    require (not (ctx.actor_id == target)) (bad_request "Cannot suspend yourself")
    require (not (hours == 0 && not (same_role actor_role UserRole.admin)))
        (forbidden "Permanent bans are admin-only")
    require
        (not (
          not (hours == 0)
          && (same_role actor_role UserRole.moderator && ltb moderator_max_suspend_hours hours)))
        (forbidden "Moderators can suspend for up to 720 hours")
    at ← now
    transaction p.orm (suspend_trx ctx target hours (suspension_end hours at) reason)
    invalidate p target

  unfoldable pub unsuspend_trx : AuditContext → Uuid → String → Exec Unit
  unsuspend_trx ctx target reason = do
    set_marker
    affected ← update_users (has_id target) unsuspended
    require (not (affected == 0)) (not_found "User not found")
    log_user ctx AuditAction.unsuspend_user target reason Metadata.none_given

  unfoldable pub unsuspend : AuditContext → Uuid → String → Exec Unit
  unsuspend ctx target reason = do
    transaction p.orm (unsuspend_trx ctx target reason)
    invalidate p target

  -- The floor under the number of admins.
  unfoldable pub keep_an_admin : Uuid → UserRole → UserRole → Exec Unit
  keep_an_admin target previous new =
      if same_role previous UserRole.admin && not (same_role new UserRole.admin)
      then (do
        remaining ← trx_read (λ d. p.orm.affected (other_admin target) d.users)
        require (not (remaining == 0))
            (bad_request "Cannot demote the last admin — promote another user first"))
      else pure tt

  unfoldable pub change_role : AuditContext → Uuid → UserRole → UserRole → String → Exec Unit
  change_role ctx target previous new reason = do
    keep_an_admin target previous new
    affected ← update_users (has_id target) (with_role new)
    log_user ctx
        (if ltb (role_index previous) (role_index new)
          then AuditAction.promote_role
          else AuditAction.demote_role)
        target reason (Metadata.role_change previous new)

  unfoldable pub set_role_trx : AuditContext → Uuid → UserRole → String → Exec Unit
  set_role_trx ctx target new reason = do
    set_marker
    rows ← trx_read (λ d. p.orm.find_one (live_user target) d.users)
    row ← present rows (not_found "User not found")
    if same_role row.role new then pure tt else change_role ctx target row.role new reason

  unfoldable pub set_role : AuditContext → Uuid → UserRole → String → Exec Unit
  set_role ctx target new reason = do
    require (not (ctx.actor_id == target && not (same_role new UserRole.admin)))
        (bad_request "Cannot demote yourself")
    transaction p.orm (set_role_trx ctx target new reason)
    invalidate p target
