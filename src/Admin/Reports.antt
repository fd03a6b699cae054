-- ===== src/Admin/Reports.antt =====
-- admin-reports.service.ts: the work on reports. The paginated queue is a read that the model
-- leaves out.
use componi_back_nest.Prelude.{
  ◌≡◌, String, Bool, true, false, not, ◌&&◌, Option, some, ◌==◌, if◌then◌else◌, count_none, arith,
}
use componi_back_nest.Entities.Accounts.{Uuid, Date}
use componi_back_nest.Entities.Moderation.{
  Report, ReportStatus, ReportAction, AuditAction, AuditTarget, Metadata,
}
use componi_back_nest.Audit.{AuditContext, AuditEntry, log}
use componi_back_nest.Exec.{
  Exec, err, not_found, Platform, World, require, present, now, pure, gets, write, ◌>>=◌, ◌>>◌,
}

-- 'actioned' | 'dismissed'
pub data Resolution : Type 0 where
  as_actioned as_dismissed : Resolution

unfoldable pub status_of : Resolution → ReportStatus
status_of as_actioned = ReportStatus.actioned
status_of as_dismissed = ReportStatus.dismissed

pub record ResolveReportDto : Type 0 where
  pub status : Resolution
  pub action_taken : ReportAction
  pub resolution_note : String
  pub public_reason : Option String

unfoldable pub is_unclaimed : ReportStatus → Bool
is_unclaimed ReportStatus.opened = true
is_unclaimed _ = false

abbrev pub claimable : Uuid → Report → Bool
claimable id r = r.id == id && is_unclaimed r.status

unfoldable pub claimed : Uuid → Report → Report
claimed moderator r = record r { status = ReportStatus.reviewing; resolved_by_id = some moderator }

unfoldable pub resolved : (String → String) → Uuid → ResolveReportDto → Date → Report → Report
unfolding status_of
resolved trim actor dto at r = record r {
  status = status_of dto.status;
  action_taken = dto.action_taken;
  resolution_note = some (trim dto.resolution_note);
  resolved_by_id = some actor;
  resolved_at = some at;
}

unfoldable pub resolution_entry : Uuid → ResolveReportDto → Report → AuditEntry
resolution_entry id dto report = record {
  action = AuditAction.resolve_report;
  target_type = some AuditTarget.report;
  target_id = some id;
  metadata =
      Metadata.resolution (status_of dto.status) dto.action_taken report.target_type
        report.target_id dto.public_reason;
  reason = some dto.resolution_note;
}

abbrev pub report_id : Uuid → Report → Bool
report_id id r = r.id == id

module _ (p : Platform) where
  unfoldable pub find_by_id : Uuid → Exec Report
  find_by_id id = do
    found ← gets (λ w. p.orm.find_one (report_id id) w.db.reports)
    present found (not_found "Report not found")

  unfoldable pub claim : Uuid → Uuid → Exec Unit
  claim id moderator = do
    affected ← gets (λ w. p.orm.affected (claimable id) w.db.reports)
    write (λ d. record d { reports = p.orm.update (claimable id) (claimed moderator) d.reports })
    require (not (affected == 0)) (not_found "Report not found or already in progress")

  unfoldable pub resolve : (String → String) → AuditContext → Uuid → ResolveReportDto → Exec Report
  unfolding find_by_id
  resolve trim ctx id dto = do
    report ← find_by_id id
    at ← now
    write (λ d. record d {
      reports = p.orm.update (report_id id) (resolved trim ctx.actor_id dto at) d.reports;
    })
    log p trim ctx (resolution_entry id dto report)
    pure (resolved trim ctx.actor_id dto at report)

  -- After any claim of a report, whether it succeeds or not, another claim of the report is
  -- refused, whoever makes it.
  pub claim-claim :
      (id first second : Uuid) (w : World)
      → (claim id second (claim id first w).1).0
        ≡ err (not_found "Report not found or already in progress")
  unfolding claim claimed is_unclaimed
  claim-claim id first second w = ground (
    arith,
    p.orm.affected_lem (claimable id) (p.orm.update (claimable id) (claimed first) w.db.reports),
    p.orm.count-update (claimable id) (claimable id) (claimed first) w.db.reports,
    count_none (λ r. claimable id (if claimable id r then claimed first r else r)) w.db.reports
        (λ r. ground arith),
  )
