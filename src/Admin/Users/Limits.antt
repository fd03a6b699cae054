-- ===== src/Admin/Users/Limits.antt =====
-- Who may suspend whom, and for how long.
use componi_back_nest.Prelude.{
  ℕ, ◌≤◌, ◌<◌, ◌≡◌, ◌≢◌, refl, subst, String, Bool, true, not, ◌&&◌, ◌==◌, ltb, arith, ◌||◌, none,
  some, sym, ◌∙◌, ◌+◌, ◌*◌, false, Every, count_none, count, if◌then◌else◌,
}
use componi_back_nest.Entities.Accounts.{Uuid, Date, User, UserRole, same_role}
use componi_back_nest.Audit.{AuditContext, log, log_db, log_aborted}
use componi_back_nest.Exec.{
  Exec, ok, Platform, World, transaction, require, require_ok, bad_request, forbidden, now, ◌>>◌,
  ◌>>=◌,
}
use componi_back_nest.Session.{invalidate}
use componi_back_nest.Cache.{invalidate_tags}
use componi_back_nest.Platform.Orm.{count-update_same}
use componi_back_nest.Database.{Db, live_user}
use componi_back_nest.Exec.Outcomes.{
  Post, require-Post, bind-Post, world-Post, committed-Post, ok-Post,
}
use componi_back_nest.Admin.Users.{
  suspended, set_marker, update_users, log_user, suspend, suspend_trx, suspension_end,
  moderator_max_suspend_hours,
}

is_role : (r s : UserRole) → same_role r s ≡ true → r ≡ s
is_role UserRole.user UserRole.user h = refl
is_role UserRole.user UserRole.moderator h = ground arith
is_role UserRole.user UserRole.admin h = ground arith
is_role UserRole.moderator UserRole.user h = ground arith
is_role UserRole.moderator UserRole.moderator h = refl
is_role UserRole.moderator UserRole.admin h = ground arith
is_role UserRole.admin UserRole.user h = ground arith
is_role UserRole.admin UserRole.moderator h = ground arith
is_role UserRole.admin UserRole.admin h = refl

module _ (p : Platform) (trim : String → String) (ctx : AuditContext) (role : UserRole)
    (target : Uuid) (hours : ℕ) (reason : String) (w : World) where
  abbrev pub other_user : Bool
  other_user = not (ctx.actor_id == target)

  abbrev pub not_forever : Bool
  not_forever = not (hours == 0 && not (same_role role UserRole.admin))

  abbrev pub not_long : Bool
  not_long = not (
      not (hours == 0)
      && (same_role role UserRole.moderator && ltb moderator_max_suspend_hours hours))

  -- What `suspend` does once its tests are passed.
  abbrev pub suspend_now : Exec Unit
  suspend_now = now >>= λ at.
      transaction p.orm (suspend_trx p trim ctx target hours (suspension_end hours at) reason)
      >> invalidate p target

  abbrev pub suspend_month : Exec Unit
  suspend_month =
      require not_long (forbidden "Moderators can suspend for up to 720 hours") >> suspend_now

  abbrev pub suspend_permanent : Exec Unit
  suspend_permanent =
      require not_forever (forbidden "Permanent bans are admin-only") >> suspend_month

  -- The row says that the user is suspended until the end of the hours, or forever.
  abbrev pub lasts : Date → User → Bool
  lasts at u = elim u.suspended_until [
    | none ↦ false
    | some until ↦ if hours == 0 then until == 253402300799000 else until == at + 3600000 * hours
  ]

  -- The user has a row that is not deleted, and such a row says so.
  abbrev pub Hit : Db → Type 0
  Hit d =
      (0 < count (live_user target) d.users)
      × Every (λ u. not (live_user target u) || lasts w.clock u) d.users

  some_row :
      (d : Db)
      → not (p.orm.affected (live_user target) d.users == 0) ≡ true
      → 0 < count (live_user target) d.users
  some_row d hit_one = ground (arith, hit_one, p.orm.affected_lem (live_user target) d.users)

  updated-Hit :
      (d : Db)
      → not (p.orm.affected (live_user target) d.users == 0) ≡ true
      → Hit (record d {
        users =
            p.orm.update
              (live_user target)
              (suspended (suspension_end hours w.clock) (trim reason))
              d.users;
      })
  unfolding suspended suspension_end
  updated-Hit d hit_one = (
    omega (
      arith,
      some_row d hit_one,
      count-update_same p.orm (live_user target) (live_user target)
          (suspended (suspension_end hours w.clock) (trim reason)) d.users (λ u. refl),
    ),
    p.orm.count-update (λ u. not (not (live_user target u) || lasts w.clock u)) (live_user target)
          (suspended (suspension_end hours w.clock) (trim reason)) d.users
        ∙ count_none _ d.users (λ u. hit u),
  )
    where
      hit :
          (u : User)
          → (let u' =
                if live_user target u
                then suspended (suspension_end hours w.clock) (trim reason) u
                else u in
              not (not (live_user target u') || lasts w.clock u'))
            ≡ false
      hit u = ground arith

  suspend_trx-Hit :
      Post
        (λ _ v. (v.aborted ≡ false) × Hit v.db)
        (suspend_trx p trim ctx target hours
          (suspension_end hours w.clock)
          reason
          (record w { aborted = false }))
  unfolding suspend_trx set_marker update_users log_user
  suspend_trx-Hit =
      require-Post (λ _ v. (v.aborted ≡ false) × Hit v.db)
        (not (p.orm.affected (live_user target) w.db.users == 0)) _ _ _
        (λ some_hit.
          world-Post (λ v. (v.aborted ≡ false) × Hit v.db) (log p trim ctx _ _)
            (
              log_aborted p trim ctx _ _,
              subst Hit (sym (log_db p trim ctx _ _)) (updated-Hit w.db some_hit),
            ))

  suspend_now-Hit : Post (λ _ v. Hit v.db) (suspend_now w)
  unfolding invalidate invalidate_tags
  suspend_now-Hit =
      bind-Post (λ _ v. Hit v.db) (λ _ v. Hit v.db)
        (transaction p.orm
          (suspend_trx p trim ctx target hours (suspension_end hours w.clock) reason))
        _ w
        (committed-Post p.orm Hit
          (suspend_trx p trim ctx target hours (suspension_end hours w.clock) reason) w
          suspend_trx-Hit)
        (λ _ v h. h)

  suspend-Hit : Post (λ _ v. Hit v.db) (suspend p trim ctx role target hours reason w)
  unfolding suspend
  suspend-Hit =
      require-Post (λ _ v. Hit v.db) other_user _ suspend_permanent w
        (λ _.
          require-Post (λ _ v. Hit v.db) not_forever _ suspend_month w
            (λ _. require-Post (λ _ v. Hit v.db) not_long _ suspend_now w (λ _. suspend_now-Hit)))

  -- A suspension that does not throw is of another user than the one who acts; a permanent one is
  -- by an admin; and one by a moderator is for at least 1 hour and at most 720. Afterwards the
  -- user has a row that is not deleted, which says that the user is suspended until that many hours
  -- after the time of the request, or until the end of the year 9999 if the suspension is permanent.
  pub suspend-limits :
      (suspend p trim ctx role target hours reason w).0 ≡ ok tt
      → (ctx.actor_id ≢ target)
        × (hours ≡ 0 → role ≡ UserRole.admin)
        × (role ≡ UserRole.moderator → (0 < hours) × (hours ≤ 720))
        × Hit (suspend p trim ctx role target hours reason w).1.db
  unfolding suspend
  suspend-limits h =
      let (other, h1) =
        require_ok other_user (bad_request "Cannot suspend yourself") suspend_permanent w h in
      let (permanent, h2) =
        require_ok not_forever (forbidden "Permanent bans are admin-only") suspend_month w h1 in
      let (month, _) =
        require_ok not_long (forbidden "Moderators can suspend for up to 720 hours") suspend_now w
          h2 in
      (
        ground (arith, other),
        λ zero_hours. is_role role UserRole.admin (ground (arith, permanent, zero_hours)),
        λ is_moderator.
            bounds
              (subst (λ r. not (hours == 0 && not (same_role r UserRole.admin)) ≡ true) is_moderator
                permanent)
              (subst
                (λ r.
                  not (
                    not (hours == 0)
                    && (same_role r UserRole.moderator && ltb moderator_max_suspend_hours hours))
                  ≡ true)
                is_moderator month),
        ok-Post (λ _ v. Hit v.db) (suspend p trim ctx role target hours reason w) tt h suspend-Hit,
      )
    where
      bounds :
          not (hours == 0 && true) ≡ true
          → not (not (hours == 0) && (true && ltb moderator_max_suspend_hours hours)) ≡ true
          → (0 < hours) × (hours ≤ 720)
      bounds permanent month = ground (arith, permanent, month)
