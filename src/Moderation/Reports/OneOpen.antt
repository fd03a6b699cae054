-- ===== src/Moderation/Reports/OneOpen.antt =====
-- At most one open report of a reporter and a target.
use mathlib.Core.Option
use componi_back_nest.Prelude.{
  ◌≤◌, ◌≡◌, ap, String, Bool, true, some, if◌then◌else◌, count, count_mono, bit, arith, List,
  Option-cases, Bool-cases, inl, inr, ◌⊎◌,
}
use componi_back_nest.Entities.Accounts.{Uuid, Date}
use componi_back_nest.Entities.Moderation.{Report, ReportTargetType}
use componi_back_nest.Platform.Orm.{Orm, insert-free}
use componi_back_nest.Database.{Db}
use componi_back_nest.Audit.{AuditContext, log, log_db}
use componi_back_nest.Exec.{Platform, World, pure, bind_keeps, ◌>>=◌}
use componi_back_nest.Moderation.Reports.{
  CreateReportDto, open_report, is_open, same_target, insert_report, new_report, save_report,
  as_conflict, create,
}
use componi_back_nest.Admin.Reports.{
  claim, claimed, claimable, is_unclaimed, resolve, resolved, report_id, ResolveReportDto,
  status_of, find_by_id, resolution_entry,
}

abbrev pub OneOpen : Db → Type 0
OneOpen d =
    (reporter : Uuid) (t : ReportTargetType) (id : Uuid)
    → count (open_report reporter t id) d.reports ≤ 1

same_as_both :
    (a b c : ReportTargetType)
    → same_target a c ≡ true
    → same_target b c ≡ true
    → same_target a b ≡ true
unfolding same_target
same_as_both a b c h k = ground arith

same_rows :
    (reporter id : Uuid) (t : ReportTargetType) (r x : Report)
    → open_report reporter t id r ≡ true
    → open_report reporter t id x ≡ true
    → open_report r.reporter_id r.target_type r.target_id x ≡ true
unfolding open_report
same_rows reporter id t r x h k = ground (arith, h, k, same_as_both x.target_type r.target_type t)

module _ (o : Orm) (d : Db) (one : OneOpen d) where
  -- An insert clashes with an open report of the same target.
  insert_report-OneOpen : (r : Report) (d' : Db) → insert_report o r d ≡ some d' → OneOpen d'
  unfolding insert_report
  insert_report-OneOpen r d' e reporter t id =
      let (rows, done, same) = (Option.map-eq-some_iff _ _).0 e in
      rw (← same) (at_most_one rows done)
    where
      at_most_one :
          (rows : List Report)
          → o.insert (open_report r.reporter_id r.target_type r.target_id) r d.reports ≡ some rows
          → count (open_report reporter t id) rows ≤ 1
      at_most_one rows done =
          let own = open_report r.reporter_id r.target_type r.target_id in
          let q = open_report reporter t id in
          let free = insert-free o own r d.reports rows done in
          let total = o.count-insert q own r d.reports rows done in
          elim (Bool-cases (q r)) [
            | inl mine ↦ omega (
              arith,
              free,
              total,
              count_mono q own d.reports (λ x k. same_rows reporter id t r x mine k),
              ap bit mine,
            )
            | inr other ↦ omega (arith, total, one reporter t id, ap bit other)
          ]

  -- An update that opens no report.
  update-OneOpen :
      (p : Report → Bool) (set : Report → Report)
      → ((q : Uuid) (t : ReportTargetType) (i : Uuid) (r : Report)
          → p r ≡ true
          → open_report q t i (set r) ≡ true
          → open_report q t i r ≡ true)
      → OneOpen (record d { reports = o.update p set d.reports })
  update-OneOpen p set closes reporter t id = omega (
    arith,
    one reporter t id,
    o.count-update (open_report reporter t id) p set d.reports,
    count_mono (λ r. open_report reporter t id (if p r then set r else r))
        (open_report reporter t id) d.reports (λ r k. ground (arith, closes reporter t id r)),
  )

  claim-OneOpen :
      (id moderator : Uuid)
      → OneOpen (record d { reports = o.update (claimable id) (claimed moderator) d.reports })
  unfolding claimed open_report is_open is_unclaimed
  claim-OneOpen id moderator =
      update-OneOpen (claimable id) (claimed moderator) (λ q t i r h k. ground (arith, h, k))

  resolve-OneOpen :
      (trim : String → String) (actor id : Uuid) (dto : ResolveReportDto) (at : Date)
      → OneOpen
          (record d { reports = o.update (report_id id) (resolved trim actor dto at) d.reports })
  unfolding resolved open_report is_open status_of
  resolve-OneOpen trim actor id dto at =
      update-OneOpen (report_id id) (resolved trim actor dto at)
        (λ q t i r h k. ground (arith, h, k))

-- What users and moderators do to reports.
pub data ReportStep : Type 0 where
  files : Uuid → CreateReportDto → ReportStep
  claims : Uuid → Uuid → ReportStep
  resolves : AuditContext → Uuid → ResolveReportDto → ReportStep

module _ (p : Platform) (trim : String → String) where
  -- The world after a step, whether it returned or threw.
  unfoldable pub step : ReportStep → World → World
  step (files reporter dto) w = (create p trim reporter dto w).1
  step (claims id moderator) w = (claim p id moderator w).1
  step (resolves ctx id dto) w = (resolve p trim ctx id dto w).1

  abbrev row : Uuid → CreateReportDto → World → Report
  row reporter dto w = new_report p trim reporter dto (w.uuids w.drawn) w.clock

  create_db :
      (reporter : Uuid) (dto : CreateReportDto) (w : World)
      → ((create p trim reporter dto w).1.db ≡ w.db)
        ⊎ ((d : Db) × (insert_report p.orm (row reporter dto w) w.db ≡ some d)
            × ((create p trim reporter dto w).1.db ≡ d))
  unfolding create save_report as_conflict
  create_db reporter dto w = elim (Option-cases (insert_report p.orm (row reporter dto w) w.db)) [
    | inl e ↦ inl (ground (arith, e))
    | inr (d, e) ↦ elim (two d e) [ inl h ↦ inl h | inr h ↦ inr (d, e, h) ]
  ]
    where
      two :
          (d : Db)
          → insert_report p.orm (row reporter dto w) w.db ≡ some d
          → ((create p trim reporter dto w).1.db ≡ w.db) ⊎ ((create p trim reporter dto w).1.db ≡ d)
      two d e = ground (arith, e)

  claim_db :
      (id moderator : Uuid) (w : World)
      → (claim p id moderator w).1.db
        ≡ record w.db { reports = p.orm.update (claimable id) (claimed moderator) w.db.reports }
  unfolding claim
  claim_db id moderator w = ground arith

  resolve_db :
      (ctx : AuditContext) (id : Uuid) (dto : ResolveReportDto) (w : World)
      → ((resolve p trim ctx id dto w).1.db ≡ w.db)
        ⊎ ((resolve p trim ctx id dto w).1.db ≡ record w.db {
          reports =
              p.orm.update (report_id id) (resolved trim ctx.actor_id dto w.clock) w.db.reports;
        })
  unfolding resolve find_by_id
  resolve_db ctx id dto w = elim (Option-cases (p.orm.find_one (report_id id) w.db.reports)) [
    | inl e ↦ inl (ground (arith, e))
    | inr (r, e) ↦ inr (rw e (logged r _))
  ]
    where
      logged :
          (r : Report) (v : World)
          → ((log p trim ctx (resolution_entry id dto r) >>= λ _.
                pure (resolved trim ctx.actor_id dto w.clock r))
              v).1.db
            ≡ v.db
      logged r v =
          bind_keeps (λ s. s.db ≡ v.db) (log p trim ctx (resolution_entry id dto r))
            (λ _. pure (resolved trim ctx.actor_id dto w.clock r)) v
            (log_db p trim ctx (resolution_entry id dto r) v) (λ _ s h. h)

  create-OneOpen :
      (reporter : Uuid) (dto : CreateReportDto) (w : World)
      → OneOpen w.db
      → OneOpen (create p trim reporter dto w).1.db
  create-OneOpen reporter dto w one = elim (create_db reporter dto w) [
    | inl e ↦ rw e one
    | inr (d, e, h) ↦ rw h (insert_report-OneOpen p.orm w.db one (row reporter dto w) d e)
  ]

  -- If no reporter has two reports of the same target that are open or in review, then none has
  -- after a report is filed, claimed or resolved, whether that succeeds or throws.
  pub step-OneOpen : (s : ReportStep) (w : World) → OneOpen w.db → OneOpen (step s w).db
  unfolding step
  step-OneOpen (files reporter dto) w one = create-OneOpen reporter dto w one
  step-OneOpen (claims id moderator) w one =
      rw (claim_db id moderator w) (claim-OneOpen p.orm w.db one id moderator)
  step-OneOpen (resolves ctx id dto) w one = elim (resolve_db ctx id dto w) [
    | inl e ↦ rw e one
    | inr e ↦ rw e (resolve-OneOpen p.orm w.db one trim ctx.actor_id id dto w.clock)
  ]
