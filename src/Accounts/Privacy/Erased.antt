-- ===== src/Accounts/Privacy/Erased.antt =====
-- What the erasure of an account leaves.
use Prim.Native.String.{◌++◌}
use text.Mathlib.Text.{◌==◌ as str_eq}
use text.Mathlib.TextPositions.{eq_refl}
use componi_back_nest.Admin.Users.{set_marker}
use componi_back_nest.Prelude.{
  or_else, ap, if◌then◌else◌, ℕ, ◌≡◌, refl, sym, subst, ◌∙◌, String, Bool, true, false, not, ◌&&◌,
  ◌||◌, List, ◌==◌, is_none, count, count_none, arith, Option-cases, Bool-cases, inl, inr, Every,
}
use componi_back_nest.Entities.Accounts.{Uuid, User}
use componi_back_nest.Platform.Orm.{Orm}
use componi_back_nest.Platform.Js.{Js}
use componi_back_nest.Database.{Db, live_user}
use componi_back_nest.Audit.{AuditContext, AuditEntry, log, save_log, log_db, log_aborted}
use componi_back_nest.Session.{invalidate}
use componi_back_nest.Cache.{invalidate_tags}
use componi_back_nest.Moderation.Blocks.{has_id}
use componi_back_nest.Accounts.Privacy.{
  owns, follows_of, blocks_of, mutes_of, notifications_of, owner_has, anonymized, erase_trx,
  drop_notifications, with_notifications, erase, delete_account,
}
use componi_back_nest.Exec.{Platform, World, Result, ok, err, returned}
use componi_back_nest.Exec.Outcomes.{Post, bind-Post, world-Post}

-- No column of the row says who the user was: each has no text, or one that is the same for every
-- user but for the id.
abbrev pub is_anonymous : Js → (String → String) → Uuid → User → Bool
is_anonymous js undashed id u =
    str_eq u.email ("deleted+" ++ js.show id ++ "@deleted.componi.local")
    && (str_eq u.username ("deleted_" ++ undashed (js.show id))
        && (str_eq (or_else u.display_name "") "Deleted User"
            && (is_none u.github_username
                && (is_none u.avatar_url
                    && (is_none u.bio
                        && (is_none u.website_url
                            && (is_none u.suspended_until && is_none u.suspension_reason)))))))

-- The tables after the erasure, and those of before it that tell whose the items were.
pub record IsErased (o : Orm) (js : Js) (undashed : String → String) (id : Uuid) (begun d : Db)
    : Type 0 where
  pub likes : count (λ l. l.user_id == id) d.likes ≡ 0
  pub favorites : count (λ f. f.user_id == id) d.favorites ≡ 0
  pub follows : count (follows_of id) d.follows ≡ 0
  pub blocks : count (blocks_of id) d.blocks ≡ 0
  pub mutes : count (mutes_of id) d.mutes ≡ 0
  pub items : count (owner_has o id begun) d.collection_components ≡ 0
  pub collections : count (λ c. c.owner_id == id) d.collections ≡ 0
  pub shares : count (owns id) d.shares ≡ 0
  pub gone : count (live_user id) d.users ≡ 0
  pub anonymous : Every (λ u. not (has_id id u) || is_anonymous js undashed id u) d.users
  -- Contributions stay.
  pub components : d.components ≡ begun.components
  pub comments : d.comments ≡ begun.comments

gone : (o : Orm) {A : Type 0} (q : A → Bool) (t : List A) → count q (o.delete q t) ≡ 0
gone o q t = o.count-delete q q t ∙ count_none _ t (λ r. ground arith)

module _ (p : Platform) (js : Js) (undashed : String → String) where
  wiped : Uuid → ℕ → Db → Db
  wiped id at d = record d {
    likes = p.orm.delete (λ l. l.user_id == id) d.likes;
    favorites = p.orm.delete (λ f. f.user_id == id) d.favorites;
    follows = p.orm.delete (follows_of id) d.follows;
    blocks = p.orm.delete (blocks_of id) d.blocks;
    mutes = p.orm.delete (mutes_of id) d.mutes;
    collection_components = p.orm.delete (owner_has p.orm id d) d.collection_components;
    collections = p.orm.delete (λ c. c.owner_id == id) d.collections;
    shares = p.orm.delete (owns id) d.shares;
    users = p.orm.update (has_id id) (anonymized p js undashed id at) d.users;
  }

  anonymized_lem :
      (id : Uuid) (at : ℕ) (u : User)
      → is_anonymous js undashed id (anonymized p js undashed id at u) ≡ true
  unfolding anonymized
  anonymized_lem id at u =
      rw
        (
          eq_refl ("deleted+" ++ js.show id ++ "@deleted.componi.local"),
          eq_refl ("deleted_" ++ undashed (js.show id)),
        )
        refl

  none_named :
      (id : Uuid) (at : ℕ) (u : User)
      → (let u' = if has_id id u then anonymized p js undashed id at u else u in
          not (not (has_id id u') || is_anonymous js undashed id u'))
        ≡ false
  none_named id at u = elim (Bool-cases (has_id id u)) [
    | inl own ↦ rw own (ground (arith, anonymized_lem id at u))
    | inr other ↦ rw other (ground (arith, other))
  ]

  wiped-IsErased : (id : Uuid) (at : ℕ) (d : Db) → IsErased p.orm js undashed id d (wiped id at d)
  unfolding wiped anonymized
  wiped-IsErased id at d = record {
    likes = gone p.orm (λ l. l.user_id == id) d.likes;
    favorites = gone p.orm (λ f. f.user_id == id) d.favorites;
    follows = gone p.orm (follows_of id) d.follows;
    blocks = gone p.orm (blocks_of id) d.blocks;
    mutes = gone p.orm (mutes_of id) d.mutes;
    items = gone p.orm (owner_has p.orm id d) d.collection_components;
    collections = gone p.orm (λ c. c.owner_id == id) d.collections;
    shares = gone p.orm (owns id) d.shares;
    gone =
        p.orm.count-update (live_user id) (has_id id) (anonymized p js undashed id at) d.users
        ∙ count_none _ d.users (λ u. ground arith);
    anonymous =
        p.orm.count-update (λ u. not (not (has_id id u) || is_anonymous js undashed id u))
          (has_id id) (anonymized p js undashed id at) d.users
        ∙ count_none _ d.users (none_named id at);
    components = refl;
    comments = refl;
  }

  -- What the transaction leaves.
  abbrev Wiped : Uuid → World → World → Type 0
  Wiped id w v =
      (v.aborted ≡ false)
      × (v.db ≡ wiped id w.clock w.db)
      × (v.notifications ≡ p.orm.delete (notifications_of id) w.notifications)

  log_notifications :
      (ctx : AuditContext) (entry : AuditEntry) (w : World)
      → (log p js.trim ctx entry w).1.notifications ≡ w.notifications
  unfolding log save_log
  log_notifications ctx entry w = ground arith

  logged :
      (ctx : AuditContext) (entry : AuditEntry) (w v : World)
      → Wiped ctx.actor_id w v
      → Post (λ _ u. Wiped ctx.actor_id w u) (log p js.trim ctx entry v)
  logged ctx entry w v h = world-Post (Wiped ctx.actor_id w) (log p js.trim ctx entry v) (
    log_aborted p js.trim ctx entry v ∙ h.0,
    log_db p js.trim ctx entry v ∙ h.1,
    log_notifications ctx entry v ∙ h.2,
  )

  erase_trx-Wiped :
      (ctx : AuditContext) (w : World)
      → Post
          (λ _ v. Wiped ctx.actor_id w v)
          (erase_trx p js undashed ctx (record w { aborted = false }))
  unfolding erase_trx wiped drop_notifications set_marker
  erase_trx-Wiped ctx w = elim (Option-cases (p.orm.find_one (live_user ctx.actor_id) w.db.users)) [
    | inl e ↦ rw e tt
    | inr (u, e) ↦ elim (Bool-cases (is_none u.deleted_at)) [
      | inl live ↦ rw (e, live) (logged ctx _ w _ (refl, refl, refl))
      | inr left ↦ rw (e, left) tt
    ]
  ]

  -- The commit of what the transaction left.
  abbrev Left : Uuid → World → World → Type 0
  Left id w v =
      (v.db ≡ wiped id w.clock w.db)
      × (v.notifications ≡ p.orm.delete (notifications_of id) w.notifications)

  committed :
      (id : Uuid) (w : World) (r : Result Unit × World)
      → Post (λ _ v. Wiped id w v) r
      → Post
          (λ _ v. Left id w v)
          (with_notifications w.notifications (
            r.0,
            record r.1 {
              db = p.orm.settle w.db r.1.db (returned r.0) r.1.aborted;
              aborted = false;
            },
          ))
  unfolding with_notifications
  committed id w (ok tt, v) h = rw h.0 (p.orm.settle_commit w.db v.db ∙ h.1, h.2)
  committed id w (err x, v) h = tt

  -- If `deleteAccount` returns, no like, favorite, follow, block, mute, collection, item of a
  -- collection, share or notification of the user is left, and the components and comments are as
  -- before. The user's row is deleted; its email, username and display name are the fixed ones of a
  -- deleted user, which differ only by the id, and it has no GitHub name, avatar, biography,
  -- website or suspension.
  pub delete_account-IsErased :
      (ctx : AuditContext) (w : World)
      → Post
          (λ _ v.
            IsErased p.orm js undashed ctx.actor_id w.db v.db
            × (count (notifications_of ctx.actor_id) v.notifications ≡ 0))
          (delete_account p js undashed ctx w)
  unfolding delete_account erase invalidate invalidate_tags
  delete_account-IsErased ctx w =
      bind-Post (λ _ v. Left ctx.actor_id w v)
        (λ _ v.
          IsErased p.orm js undashed ctx.actor_id w.db v.db
          × (count (notifications_of ctx.actor_id) v.notifications ≡ 0))
        (erase p js undashed ctx) _ w
        (committed ctx.actor_id w (erase_trx p js undashed ctx (record w { aborted = false }))
          (erase_trx-Wiped ctx w))
        (λ _ v e. (
          subst (IsErased p.orm js undashed ctx.actor_id w.db) (sym e.0)
              (wiped-IsErased ctx.actor_id w.clock w.db),
          ap (count (notifications_of ctx.actor_id)) e.1
              ∙ gone p.orm (notifications_of ctx.actor_id) w.notifications,
        ))
