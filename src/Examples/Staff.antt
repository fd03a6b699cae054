-- ===== src/Examples/Staff.antt =====
-- What user 1, an admin, does.
use componi_back_nest.Prelude.{
  ℕ, suc, ◌≤◌, ◌<◌, ◌≡◌, ◌≢◌, ◌⊎◌, refl, none, some, arith, count, Every,
}
use componi_back_nest.Entities.Accounts.{UserRole}
use componi_back_nest.Entities.Moderation.{AuditAction, AuditTarget, Metadata}
use componi_back_nest.Exec.{ok, err, not_found}
use componi_back_nest.Moderation.Blocks.{trimmed}
use componi_back_nest.Instances.Tables.{find_one, insert}
use componi_back_nest.Instances.Deployment.{deployment}
use componi_back_nest.Examples.Start.{start, same_text}
use componi_back_nest.Audit.{
  AuditContext, AuditEntry, log, save_log, requires_reason, is_justified, log-IsJustified,
}
use componi_back_nest.Admin.Users.{
  suspend, set_role, suspend_trx, set_marker, update_users, log_user,
}
use componi_back_nest.Admin.Users.Admins.{HasAdmin, set_role-HasAdmin}
use componi_back_nest.Admin.Users.Audited.{about, suspends, administer, administer-audited}
use componi_back_nest.Admin.Users.Limits.{Hit, suspend-limits}
use componi_back_nest.Admin.Reports.{claim, claim-claim}
use componi_back_nest.Session.{invalidate}
use componi_back_nest.Cache.{invalidate_tags}

abbrev admin : AuditContext
admin = record { actor_id = 1; ip_address = none; user_agent = none }

start-HasAdmin : HasAdmin start.db
unfolding count
start-HasAdmin = record { key = λ id. ground arith; some_admin = omega arith }

-- Promoting the other user.
set_role-HasAdmin_example :
    HasAdmin (set_role deployment same_text admin 2 UserRole.admin "trusted" start).1.db
set_role-HasAdmin_example =
    set_role-HasAdmin deployment same_text admin 2 UserRole.admin "trusted" start start-HasAdmin

administer-audited_example :
    ((administer deployment same_text admin 2 "spam" (suspends UserRole.admin 24) start).1.db
      ≡ start.db)
    ⊎ (count
          (about 1 2)
          (administer deployment same_text admin 2 "spam"
            (suspends UserRole.admin 24)
            start).1.audit_logs
        ≡ suc (count (about 1 2) start.audit_logs))
administer-audited_example =
    administer-audited deployment same_text admin 2 "spam" (suspends UserRole.admin 24) start

returns : (suspend deployment same_text admin UserRole.moderator 2 720 "spam" start).0 ≡ ok tt
unfolding suspend suspend_trx set_marker update_users log_user log save_log requires_reason trimmed
    invalidate invalidate_tags deployment count find_one insert
returns = refl

suspend-limits_example :
    (admin.actor_id ≢ 2)
    × (◌≡◌ {A = ℕ} 720 0 → UserRole.moderator ≡ UserRole.admin)
    × (UserRole.moderator ≡ UserRole.moderator → (0 < 720) × (720 ≤ 720))
    × Hit deployment same_text admin UserRole.moderator 2 720 "spam" start
        (suspend deployment same_text admin UserRole.moderator 2 720 "spam" start).1.db
suspend-limits_example =
    suspend-limits deployment same_text admin UserRole.moderator 2 720 "spam" start returns

claim-claim_example :
    (claim deployment 7 2 (claim deployment 7 1 start).1).0
    ≡ err (not_found "Report not found or already in progress")
claim-claim_example = claim-claim deployment 7 1 2 start

abbrev promotion : AuditEntry
promotion = record {
  action = AuditAction.promote_role;
  target_type = some AuditTarget.user;
  target_id = some 2;
  metadata = Metadata.role_change UserRole.user UserRole.admin;
  reason = some "trusted";
}

log-IsJustified_example :
    Every is_justified (log deployment same_text admin promotion start).1.audit_logs
unfolding count
log-IsJustified_example = log-IsJustified deployment same_text admin promotion start refl
