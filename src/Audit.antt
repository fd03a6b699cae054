-- ===== src/Audit.antt =====
-- audit.service.ts: the audit trail of privileged actions. Its repository is not the one of the
-- transaction that calls it, so a row stays when that transaction is rolled back. `trim` of strings
-- is a parameter.
use componi_back_nest.Prelude.{
  suc, ◌+◌, ◌≡◌, String, Bool, true, false, not, ◌&&◌, ◌||◌, Option, none, some, ◌==◌, is_none,
  is_some, count, bit, Every, arith, Option-cases, inl, inr, ◌⊎◌,
}
use componi_back_nest.Entities.Accounts.{Uuid, Date}
use componi_back_nest.Entities.Moderation.{AuditAction, AuditTarget, Metadata, AuditLog}
use componi_back_nest.Exec.{
  Exec, Platform, World, ok, err, bad_request, query_failed, unique_violation, require, ◌>>◌,
}
use componi_back_nest.Moderation.Blocks.{trimmed}

pub record AuditContext : Type 0 where
  pub actor_id : Uuid
  pub ip_address : Option String
  pub user_agent : Option String

pub record AuditEntry : Type 0 where
  pub action : AuditAction
  pub target_type : Option AuditTarget
  pub target_id : Option Uuid
  pub metadata : Metadata
  pub reason : Option String

-- REQUIRES_REASON
unfoldable pub requires_reason : AuditAction → Bool
requires_reason AuditAction.suspend_user = true
requires_reason AuditAction.ban_user = true
requires_reason AuditAction.unsuspend_user = false
requires_reason AuditAction.erase_user = true
requires_reason AuditAction.delete_component = true
requires_reason AuditAction.delete_comment = true
requires_reason AuditAction.promote_role = true
requires_reason AuditAction.demote_role = true
requires_reason AuditAction.resolve_report = false
requires_reason AuditAction.export_user_data = false

module _ (p : Platform) (trim : String → String) where
  unfoldable pub audit_row : AuditContext → AuditEntry → Uuid → Date → AuditLog
  audit_row ctx entry id at = record {
    id = id;
    actor_id = ctx.actor_id;
    action = entry.action;
    target_type = entry.target_type;
    target_id = entry.target_id;
    metadata = entry.metadata;
    reason = trimmed trim entry.reason;
    ip_address = ctx.ip_address;
    user_agent = ctx.user_agent;
    created_at = at;
  }

  -- this.auditLogs.save(this.auditLogs.create(...))
  unfoldable pub save_log : AuditContext → AuditEntry → Exec Unit
  unfolding audit_row
  save_log ctx entry w =
      let id = w.uuids w.drawn in
      elim (p.orm.insert (λ r. r.id == id) (audit_row ctx entry id w.clock) w.audit_logs) [
        | none ↦ (err (query_failed unique_violation), record w { drawn = suc w.drawn })
        | some rows ↦ (ok tt, record w { audit_logs = rows; drawn = suc w.drawn })
      ]

  unfoldable pub log : AuditContext → AuditEntry → Exec Unit
  log ctx entry = do
    require (not (requires_reason entry.action && is_none (trimmed trim entry.reason)))
        (bad_request "Action requires a non-empty reason for audit compliance.")
    save_log ctx entry

-- The row of an action that needs a reason has one.
unfoldable pub is_justified : AuditLog → Bool
is_justified r = not (requires_reason r.action) || is_some r.reason

module _ (p : Platform) (trim : String → String) (ctx : AuditContext) (entry : AuditEntry)
    (w : World) where
  -- What `log` adds to the trail: nothing, or the row, which has a reason where one is needed.
  pub log_rows :
      (q : AuditLog → Bool)
      → (count q (log p trim ctx entry w).1.audit_logs ≡ count q w.audit_logs)
        ⊎ ((count q (log p trim ctx entry w).1.audit_logs
              ≡ bit (q (audit_row p trim ctx entry (w.uuids w.drawn) w.clock))
                + count q w.audit_logs)
            × (is_justified (audit_row p trim ctx entry (w.uuids w.drawn) w.clock) ≡ true))
  unfolding log save_log is_justified audit_row
  log_rows q =
      elim (Option-cases (
        p.orm.insert (λ r. r.id == w.uuids w.drawn)
          (audit_row p trim ctx entry (w.uuids w.drawn) w.clock) w.audit_logs)) [
            | inl e ↦ inl (ground arith)
            | inr (rows, e) ↦ ground (
              arith,
              p.orm.count-insert q (λ r. r.id == w.uuids w.drawn)
                  (audit_row p trim ctx entry (w.uuids w.drawn) w.clock) w.audit_logs rows e,
            )
          ]

  -- If every row of the audit trail whose action needs a reason has one, then so it is after `log`,
  -- whether it throws or not.
  pub log-IsJustified :
      Every is_justified w.audit_logs → Every is_justified (log p trim ctx entry w).1.audit_logs
  log-IsJustified h = elim (log_rows (λ r. not (is_justified r))) [
    | inl same ↦ omega (arith, same, h)
    | inr (more, own) ↦ ground (arith, more, h, own)
  ]

  -- `log` returns only after the row is written.
  pub log-written :
      (q : AuditLog → Bool)
      → (log p trim ctx entry w).0 ≡ ok tt
      → count q (log p trim ctx entry w).1.audit_logs
        ≡ bit (q (audit_row p trim ctx entry (w.uuids w.drawn) w.clock)) + count q w.audit_logs
  unfolding log save_log audit_row
  log-written q =
      elim (Option-cases (
        p.orm.insert (λ r. r.id == w.uuids w.drawn)
          (audit_row p trim ctx entry (w.uuids w.drawn) w.clock) w.audit_logs)) [
            | inl e ↦ λ h. ground arith
            | inr (rows, e) ↦ λ h. ground (
              arith,
              p.orm.count-insert q (λ r. r.id == w.uuids w.drawn)
                  (audit_row p trim ctx entry (w.uuids w.drawn) w.clock) w.audit_logs rows e,
            )
          ]

  pub log_db : (log p trim ctx entry w).1.db ≡ w.db
  unfolding log save_log
  log_db = ground arith

  pub log_aborted : (log p trim ctx entry w).1.aborted ≡ w.aborted
  unfolding log save_log
  log_aborted = ground arith
