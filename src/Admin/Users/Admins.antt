-- ===== src/Admin/Users/Admins.antt =====
-- The floor under the number of admins.
use componi_back_nest.Prelude.{
  ◌≤◌, ◌<◌, ◌≡◌, refl, ◌⊎◌, inl, inr, String, Bool, true, false, not, ◌&&◌, some, ◌==◌, ltb,
  is_none, if◌then◌else◌, count, count_mono, count_split, count_cong, arith, Option-cases,
  Bool-cases,
}
use componi_back_nest.Entities.Accounts.{Uuid, User, UserRole, same_role}
use componi_back_nest.Entities.Moderation.{AuditAction, Metadata}
use componi_back_nest.Platform.Orm.{Orm}
use componi_back_nest.Database.{Db, live_user}
use componi_back_nest.Moderation.Blocks.{has_id}
use componi_back_nest.Audit.{AuditContext, log_db}
use componi_back_nest.Session.{invalidate}
use componi_back_nest.Cache.{invalidate_tags}
use componi_back_nest.Exec.{
  Platform, World, transaction, transaction_db, bind_keeps, require_keeps, bad_request, ◌>>◌,
}
use componi_back_nest.Admin.Users.{
  other_admin, with_role, keep_an_admin, update_users, log_user, role_index, change_role,
  set_role_trx, set_role, set_marker,
}

abbrev pub is_admin : User → Bool
is_admin u = same_role u.role UserRole.admin && is_none u.deleted_at

-- At most one row has a given id (the primary key), and some user who is not deleted is an admin.
pub record HasAdmin (d : Db) : Type 0 where
  pub key : (id : Uuid) → count (has_id id) d.users ≤ 1
  pub some_admin : 0 < count is_admin d.users

abbrev after_role : Orm → Uuid → UserRole → Db → Db
after_role o target new d = record d { users = o.update (has_id target) (with_role new) d.users }

module _ (o : Orm) (target : Uuid) (new : UserRole) (d : Db) where
  after_role-key :
      (id : Uuid)
      → count (has_id id) d.users ≤ 1
      → count (has_id id) (after_role o target new d).users ≤ 1
  unfolding with_role
  after_role-key id h = omega (
    arith,
    h,
    o.count-update (has_id id) (has_id target) (with_role new) d.users,
    count_cong (λ r. has_id id (if has_id target r then with_role new r else r)) (has_id id) d.users
        (λ r. ground arith),
  )

  -- The other admins stay admins.
  after_role-others :
      0 < count (other_admin target) d.users → 0 < count is_admin (after_role o target new d).users
  unfolding with_role
  after_role-others h = omega (
    arith,
    h,
    o.count-update is_admin (has_id target) (with_role new) d.users,
    count_mono (other_admin target) (λ r. is_admin (if has_id target r then with_role new r else r))
        d.users (λ r k. ground arith),
  )

  -- A change to the role of admin takes the role from nobody.
  after_role-promoted :
      same_role new UserRole.admin ≡ true
      → 0 < count is_admin d.users
      → 0 < count is_admin (after_role o target new d).users
  unfolding with_role
  after_role-promoted h k = omega (
    arith,
    k,
    o.count-update is_admin (has_id target) (with_role new) d.users,
    count_mono is_admin (λ r. is_admin (if has_id target r then with_role new r else r)) d.users
        (λ r l. ground (arith, h)),
  )

  -- The only row of the user is no admin's: the admins are others.
  others_left :
      (row : User)
      → o.find_one (live_user target) d.users ≡ some row
      → same_role row.role UserRole.admin ≡ false
      → count (has_id target) d.users ≤ 1
      → 0 < count is_admin d.users
      → 0 < count (other_admin target) d.users
  others_left row e no_admin once h = omega (
    arith,
    h,
    once,
    count_split (has_id target) is_admin d.users,
    o.find_one_some (live_user target) (λ u. not (same_role u.role UserRole.admin)) d.users row e
        (ground (arith, no_admin)),
    count_split is_admin (has_id target) d.users,
    count_mono (λ u. live_user target u && not (same_role u.role UserRole.admin))
        (λ u. not (is_admin u) && has_id target u) d.users (λ u k. ground arith),
    count_cong (λ u. is_admin u && has_id target u) (λ u. has_id target u && is_admin u) d.users
        (λ u. ground arith),
    count_mono (λ u. not (has_id target u) && is_admin u) (other_admin target) d.users
        (λ u k. ground arith),
  )

module _ (p : Platform) (trim : String → String) (ctx : AuditContext) (target : Uuid)
    (new : UserRole) (reason : String) where
  log_user_db :
      (action : AuditAction) (m : Metadata) (w : World)
      → (log_user p trim ctx action target reason m w).1.db ≡ w.db
  unfolding log_user
  log_user_db action m w = log_db p trim ctx _ w

  change_role_db :
      (previous : UserRole) (w : World)
      → ((change_role p trim ctx target previous new reason w).1.db ≡ w.db)
        ⊎ (((change_role p trim ctx target previous new reason w).1.db
              ≡ after_role p.orm target new w.db)
            × (same_role previous UserRole.admin ≡ true
                → same_role new UserRole.admin ≡ false
                → 0 < count (other_admin target) w.db.users))
  unfolding change_role keep_an_admin update_users
  change_role_db previous w = ground (
    arith,
    p.orm.affected_lem (other_admin target) w.db.users,
    log_user_db
        (if ltb (role_index previous) (role_index new)
          then AuditAction.promote_role
          else AuditAction.demote_role)
        (Metadata.role_change previous new) (record w { db = after_role p.orm target new w.db }),
  )

  set_role_trx_db :
      (w : World)
      → ((set_role_trx p trim ctx target new reason w).1.db ≡ w.db)
        ⊎ ((row : User) × (p.orm.find_one (live_user target) w.db.users ≡ some row)
            × (same_role row.role new ≡ false)
            × ((set_role_trx p trim ctx target new reason w).1.db
                ≡ (change_role p trim ctx target row.role new reason w).1.db))
  unfolding set_role_trx set_marker
  set_role_trx_db w = elim (Option-cases (p.orm.find_one (live_user target) w.db.users)) [
    | inl e ↦ inl (ground arith)
    | inr (row, e) ↦ elim (two row e) [ inl h ↦ inl h | inr (f, h) ↦ inr (row, e, f, h) ]
  ]
    where
      two :
          (row : User)
          → p.orm.find_one (live_user target) w.db.users ≡ some row
          → ((set_role_trx p trim ctx target new reason w).1.db ≡ w.db)
            ⊎ ((same_role row.role new ≡ false)
                × ((set_role_trx p trim ctx target new reason w).1.db
                    ≡ (change_role p trim ctx target row.role new reason w).1.db))
      two row e = elim (Bool-cases w.aborted) [
        | inl a ↦ inl (rw a refl)
        | inr a ↦ elim (Bool-cases (same_role row.role new)) [
          | inl s ↦ inl (rw (a, e, s) refl)
          | inr s ↦ inr (s, rw (a, e, s) refl)
        ]
      ]

  changed-HasAdmin :
      (w : World) (row : User)
      → p.orm.find_one (live_user target) w.db.users ≡ some row
      → same_role row.role new ≡ false
      → HasAdmin w.db
      → HasAdmin (change_role p trim ctx target row.role new reason w).1.db
  changed-HasAdmin w row e differs v = elim (change_role_db row.role w) [
    | inl h ↦ rw h v
    | inr (h, floor) ↦ rw h (record {
      key = λ id. after_role-key p.orm target new w.db id (v.key id);
      some_admin = elim (Bool-cases (same_role new UserRole.admin)) [
        | inl up ↦ after_role-promoted p.orm target new w.db up v.some_admin
        | inr down ↦
            after_role-others p.orm target new w.db
              (elim (Bool-cases (same_role row.role UserRole.admin)) [
                | inl was ↦ floor was down
                | inr was ↦ others_left p.orm target new w.db row e was (v.key target) v.some_admin
              ])
      ];
    })
  ]

  set_role_trx-HasAdmin :
      (w : World) → HasAdmin w.db → HasAdmin (set_role_trx p trim ctx target new reason w).1.db
  set_role_trx-HasAdmin w v = elim (set_role_trx_db w) [
    | inl h ↦ rw h v
    | inr (row, e, f, h) ↦ rw h (changed-HasAdmin w row e f v)
  ]

  -- If some admin is not deleted, then one is after a change of roles by anybody, whatever the
  -- target and the new role are and whether the change is made, refused or fails, where ids are
  -- unique; and ids stay unique.
  pub set_role-HasAdmin :
      (w : World) → HasAdmin w.db → HasAdmin (set_role p trim ctx target new reason w).1.db
  unfolding set_role invalidate invalidate_tags
  set_role-HasAdmin w v =
      require_keeps {B = Unit} (λ s. HasAdmin s.db)
        (not (ctx.actor_id == target && not (same_role new UserRole.admin)))
        (bad_request "Cannot demote yourself")
        (transaction p.orm (set_role_trx p trim ctx target new reason) >> invalidate p target) w v
        (bind_keeps (λ s. HasAdmin s.db)
          (transaction p.orm (set_role_trx p trim ctx target new reason)) (λ _. invalidate p target)
          w
          (transaction_db p.orm HasAdmin (set_role_trx p trim ctx target new reason) w v
            (λ _ _. set_role_trx-HasAdmin _ v))
          (λ _ s h. h))
