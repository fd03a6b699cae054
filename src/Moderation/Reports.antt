-- ===== src/Moderation/Reports.antt =====
-- reports.service.ts: the intake of reports. The list of a user's own reports is a read that the
-- model leaves out.
pub mod OneOpen
use mathlib.Core.Option
use componi_back_nest.Prelude.{
  String, Bool, true, false, not, ◌&&◌, Option, none, some, ◌==◌, is_none, if◌then◌else◌,
}
use componi_back_nest.Entities.Accounts.{Uuid, Date, User}
use componi_back_nest.Entities.Content.{Component, Comment}
use componi_back_nest.Entities.Moderation.{
  Report, ReportTargetType, ReportStatus, ReportReason, ReportAction,
}
use componi_back_nest.Platform.Orm.{Orm}
use componi_back_nest.Database.{Db, live_user, live_component, live_comment}
use componi_back_nest.Moderation.Blocks.{trimmed}
use componi_back_nest.Exec.{
  Exec, Result, ok, err, bad_request, not_found, conflict, query_failed, unique_violation, Platform,
  World, require, present, now, new_uuid, pure, gets, insert_alone, ◌>>=◌, ◌>>◌,
}

pub record CreateReportDto : Type 0 where
  pub target_type : ReportTargetType
  pub target_id : Uuid
  pub reason : ReportReason
  pub details : Option String

unfoldable pub same_target : ReportTargetType → ReportTargetType → Bool
same_target ReportTargetType.component ReportTargetType.component = true
same_target ReportTargetType.comment ReportTargetType.comment = true
same_target ReportTargetType.user ReportTargetType.user = true
same_target _ _ = false

-- status IN ('open', 'reviewing')
unfoldable pub is_open : ReportStatus → Bool
is_open ReportStatus.opened = true
is_open ReportStatus.reviewing = true
is_open ReportStatus.actioned = false
is_open ReportStatus.dismissed = false

-- The rows that UQ_reports_open_per_reporter lets stand once.
unfoldable pub open_report : Uuid → ReportTargetType → Uuid → Report → Bool
open_report reporter type id r =
    r.reporter_id == reporter
    && (same_target r.target_type type && (r.target_id == id && is_open r.status))

unfoldable pub is_live : {A : Type 0} → (A → Option Date) → Option A → Bool
is_live deleted_at none = false
is_live deleted_at (some r) = is_none (deleted_at r)

unfoldable pub insert_report : Orm → Report → Db → Option Db
insert_report o r d =
    Option.map (λ rows. record d { reports = rows })
      (o.insert (open_report r.reporter_id r.target_type r.target_id) r d.reports)

-- The `catch`: 23505 is a conflict.
unfoldable pub as_conflict : Result Unit × World → Result Unit × World
as_conflict (err (query_failed unique_violation), w) =
    (err (conflict "You already have an open report for this target"), w)
as_conflict (r, w) = (r, w)

module _ (p : Platform) (trim : String → String) where
  unfoldable pub target_exists : ReportTargetType → Uuid → World → Bool
  unfolding is_live
  target_exists ReportTargetType.user id w =
      is_live (λ (u : User). u.deleted_at) (p.orm.find_one (live_user id) w.db.users)
  target_exists ReportTargetType.component id w =
      is_live (λ (c : Component). c.deleted_at) (p.orm.find_one (live_component id) w.db.components)
  target_exists ReportTargetType.comment id w =
      is_live (λ (c : Comment). c.deleted_at) (p.orm.find_one (live_comment id) w.db.comments)

  unfoldable pub new_report : Uuid → CreateReportDto → Uuid → Date → Report
  new_report reporter dto id at = record {
    id = id;
    reporter_id = reporter;
    target_type = dto.target_type;
    target_id = dto.target_id;
    reason = dto.reason;
    details = trimmed trim dto.details;
    status = ReportStatus.opened;
    resolved_by_id = none;
    resolved_at = none;
    resolution_note = none;
    action_taken = ReportAction.nothing;
    created_at = at;
    updated_at = at;
  }

  unfoldable pub save_report : Report → Exec Unit
  save_report r w = as_conflict (insert_alone (insert_report p.orm r) w)

  unfoldable pub create : Uuid → CreateReportDto → Exec Report
  create reporter dto = do
    exists ← gets (target_exists dto.target_type dto.target_id)
    require exists (not_found "Target not found")
    require (not (same_target dto.target_type ReportTargetType.user && dto.target_id == reporter))
        (bad_request "Cannot report yourself")
    id ← new_uuid
    at ← now
    save_report (new_report reporter dto id at)
    pure (new_report reporter dto id at)
