-- ===== src/Admin/Users/Audited.antt =====
-- No change of a suspension or a role without a row in the audit trail.
use componi_back_nest.Prelude.{
  ℕ, suc, ◌≡◌, refl, sym, subst, ◌⊎◌, inl, inr, String, Bool, true, false, not, ◌&&◌, some, ◌==◌,
  ltb, or_else, if◌then◌else◌, count, arith, Bool-cases, Option-cases, ==_refl,
}
use componi_back_nest.Entities.Accounts.{Uuid, User, UserRole, same_role}
use componi_back_nest.Entities.Moderation.{AuditAction, Metadata, AuditLog}
use componi_back_nest.Database.{Db, live_user}
use componi_back_nest.Audit.{AuditContext, audit_row, log-written}
use componi_back_nest.Moderation.Blocks.{has_id}
use componi_back_nest.Session.{invalidate}
use componi_back_nest.Cache.{invalidate_tags}
use componi_back_nest.Exec.{
  Exec, ok, Platform, World, returned, returned_ok, transaction, transaction_db, bind_keeps,
  require_keeps, bad_request, forbidden, ◌>>◌,
}
use componi_back_nest.Admin.Users.Limits.{
  other_user, not_forever, not_long, suspend_now, suspend_month, suspend_permanent,
}
use componi_back_nest.Admin.Users.{
  log_user, suspend, suspend_trx, unsuspend, unsuspend_trx, set_role, set_role_trx, change_role,
  keep_an_admin, set_marker, update_users, suspended, unsuspended, suspension_end, role_index,
  with_role,
}

-- The rows of the trail about what one user did to another.
unfoldable pub about : Uuid → Uuid → AuditLog → Bool
about actor target r = r.actor_id == actor && or_else r.target_id (suc target) == target

pub data AdminAction : Type 0 where
  suspends : UserRole → ℕ → AdminAction
  unsuspends : AdminAction
  sets_role : UserRole → AdminAction

module _ (p : Platform) (trim : String → String) (ctx : AuditContext) (target : Uuid)
    (reason : String) where
  unfoldable pub administer : AdminAction → Exec Unit
  administer (suspends role hours) = suspend p trim ctx role target hours reason
  administer unsuspends = unsuspend p trim ctx target reason
  administer (sets_role role) = set_role p trim ctx target role reason

  log_user-written :
      (action : AuditAction) (m : Metadata) (w : World)
      → (log_user p trim ctx action target reason m w).0 ≡ ok tt
      → count
          (about ctx.actor_id target)
          (log_user p trim ctx action target reason m w).1.audit_logs
        ≡ suc (count (about ctx.actor_id target) w.audit_logs)
  unfolding log_user about audit_row
  log_user-written action m w h = ground (
    arith,
    log-written p trim ctx _ w (about ctx.actor_id target) h,
    ==_refl ctx.actor_id,
    ==_refl target,
  )

  -- The transaction changes nothing, or leaves a row in the trail.
  abbrev Trail : World → Db → World → Type 0
  Trail w d v =
      (d ≡ w.db)
      ⊎ (count (about ctx.actor_id target) v.audit_logs
          ≡ suc (count (about ctx.actor_id target) w.audit_logs))

  suspend_trx-Trail :
      (hours until : ℕ) (w : World)
      → w.aborted ≡ false
      → returned (suspend_trx p trim ctx target hours until reason w).0 ≡ true
      → Trail w
          (suspend_trx p trim ctx target hours until reason w).1.db
          (suspend_trx p trim ctx target hours until reason w).1
  unfolding suspend_trx set_marker update_users
  suspend_trx-Trail hours until w clean h = ground (
    arith,
    clean,
    h,
    returned_ok _ h,
    log_user-written (if hours == 0 then AuditAction.ban_user else AuditAction.suspend_user)
        (Metadata.suspension hours until)
        (record w {
          db = record w.db {
            users = p.orm.update (live_user target) (suspended until (trim reason)) w.db.users;
          };
        }),
  )

  unsuspend_trx-Trail :
      (w : World)
      → w.aborted ≡ false
      → returned (unsuspend_trx p trim ctx target reason w).0 ≡ true
      → Trail w
          (unsuspend_trx p trim ctx target reason w).1.db
          (unsuspend_trx p trim ctx target reason w).1
  unfolding unsuspend_trx set_marker update_users
  unsuspend_trx-Trail w clean h = ground (
    arith,
    clean,
    h,
    returned_ok _ h,
    log_user-written AuditAction.unsuspend_user Metadata.none_given (record w {
      db = record w.db { users = p.orm.update (has_id target) unsuspended w.db.users };
    }),
  )

  change_role-Trail :
      (previous new : UserRole) (w : World)
      → w.aborted ≡ false
      → returned (change_role p trim ctx target previous new reason w).0 ≡ true
      → Trail w
          (change_role p trim ctx target previous new reason w).1.db
          (change_role p trim ctx target previous new reason w).1
  unfolding change_role keep_an_admin update_users
  change_role-Trail previous new w clean h = ground (
    arith,
    clean,
    h,
    returned_ok _ h,
    log_user-written
        (if ltb (role_index previous) (role_index new)
          then AuditAction.promote_role
          else AuditAction.demote_role)
        (Metadata.role_change previous new)
        (record w {
          db = record w.db { users = p.orm.update (has_id target) (with_role new) w.db.users };
        }),
  )

  set_role_trx-Trail :
      (new : UserRole) (w : World)
      → w.aborted ≡ false
      → returned (set_role_trx p trim ctx target new reason w).0 ≡ true
      → Trail w
          (set_role_trx p trim ctx target new reason w).1.db
          (set_role_trx p trim ctx target new reason w).1
  unfolding set_role_trx set_marker
  set_role_trx-Trail new w clean h =
      elim (Option-cases (p.orm.find_one (live_user target) w.db.users)) [
        | inl e ↦ ground (arith, clean, h, e)
        | inr (row, e) ↦ elim (Bool-cases (same_role row.role new)) [
          | inl s ↦ inl (rw (clean, e, s) refl)
          | inr s ↦
              subst (λ r. returned r.0 ≡ true → Trail w r.1.db r.1) (sym (changes row e s))
                (change_role-Trail row.role new w clean) h
        ]
      ]
    where
      changes :
          (row : User)
          → p.orm.find_one (live_user target) w.db.users ≡ some row
          → same_role row.role new ≡ false
          → set_role_trx p trim ctx target new reason w
            ≡ change_role p trim ctx target row.role new reason w
      changes row e s = rw (clean, e, s) refl

  transaction-Trail :
      (body : Exec Unit) (w : World)
      → (returned (body (record w { aborted = false })).0 ≡ true
          → Trail w
              (body (record w { aborted = false })).1.db
              (body (record w { aborted = false })).1)
      → Trail w
          ((transaction p.orm body >> invalidate p target) w).1.db
          ((transaction p.orm body >> invalidate p target) w).1
  unfolding invalidate invalidate_tags
  transaction-Trail body w h =
      bind_keeps (λ s. Trail w s.db s) (transaction p.orm body) (λ _. invalidate p target) w
        (transaction_db p.orm (λ d. Trail w d (body (record w { aborted = false })).1) body w
          (inl refl) (λ returns _. h returns))
        (λ _ s k. k)

  -- A suspension, a lifted suspension or a change of role changes nothing in the database, or adds
  -- one row to the audit trail that names the actor and the target.
  pub administer-audited :
      (a : AdminAction) (w : World)
      → ((administer a w).1.db ≡ w.db)
        ⊎ (count (about ctx.actor_id target) (administer a w).1.audit_logs
            ≡ suc (count (about ctx.actor_id target) w.audit_logs))
  unfolding administer suspend unsuspend set_role
  administer-audited (suspends role hours) w =
      let P = λ (s : World). Trail w s.db s in
      let until = suspension_end hours w.clock in
      require_keeps {B = Unit} P (other_user p trim ctx role target hours reason w)
        (bad_request "Cannot suspend yourself")
        (suspend_permanent p trim ctx role target hours reason w) w (inl refl)
        (require_keeps {B = Unit} P (not_forever p trim ctx role target hours reason w)
          (forbidden "Permanent bans are admin-only")
          (suspend_month p trim ctx role target hours reason w) w (inl refl)
          (require_keeps {B = Unit} P (not_long p trim ctx role target hours reason w)
            (forbidden "Moderators can suspend for up to 720 hours")
            (suspend_now p trim ctx role target hours reason w) w (inl refl)
            (transaction-Trail (suspend_trx p trim ctx target hours until reason) w
              (suspend_trx-Trail hours until _ refl))))
  administer-audited unsuspends w =
      transaction-Trail (unsuspend_trx p trim ctx target reason) w (unsuspend_trx-Trail _ refl)
  administer-audited (sets_role new) w =
      require_keeps {B = Unit} (λ s. Trail w s.db s)
        (not (ctx.actor_id == target && not (same_role new UserRole.admin)))
        (bad_request "Cannot demote yourself")
        (transaction p.orm (set_role_trx p trim ctx target new reason) >> invalidate p target) w
        (inl refl)
        (transaction-Trail (set_role_trx p trim ctx target new reason) w
          (set_role_trx-Trail new _ refl))
