-- ===== src/Accounts/Provision.antt =====
-- src/modules/auth/auth.service.ts: the row of a user, made at the first request. What the code
-- does to a text by regular expressions, split and slice is a parameter.
pub mod Named
use mathlib.Core.Option
use Prim.Native.String.{◌++◌}
use text.Mathlib.Text.{◌==◌ as str_eq}
use componi_back_nest.Prelude.{
  ℕ, zero, suc, ◌+◌, pos, String, Bool, true, false, not, ◌&&◌, ◌||◌, Option, none, some, ◌==◌,
  or_else, is_none, is_some, if◌then◌else◌,
}
use componi_back_nest.Entities.Accounts.{Uuid, Date, User, UserRole}
use componi_back_nest.Platform.Orm.{Orm}
use componi_back_nest.Database.{Db, live_user}
use componi_back_nest.Guards.{AuthUser, either_name}
use componi_back_nest.Moderation.Blocks.{has_id}
use componi_back_nest.Exec.{
  Exec, Result, ok, err, failure, query_failed, unique_violation, Platform, World, pure, raise,
  gets, now, insert_alone, if_new, ◌>>=◌, ◌>>◌,
}

-- `user_metadata` of the claims.
pub record Meta : Type 0 where
  pub user_name : Option String
  pub preferred_username : Option String
  pub full_name : Option String
  pub name : Option String
  pub avatar_url : Option String

pub record Names : Type 0 where
  -- toLowerCase, replace, replace, slice(0, 60)
  pub clean : String → String
  -- email.split('@')[0]
  pub local_part : String → String
  -- id and id.slice(0, 8)
  pub show : Uuid → String
  pub short : Uuid → String
  pub digits : ℕ → String
  -- lower() of Postgres.
  pub lower : String → String

unfoldable pub derive_username : Names → AuthUser → Meta → String
unfolding either_name
derive_username n auth meta =
    let fallback = "user-" ++ n.short auth.id in
    let candidate =
      or_else
        (either_name meta.user_name (
          either_name meta.preferred_username
            (either_name auth.github_username (Option.map n.local_part auth.email))))
        fallback in
    if str_eq (n.clean candidate) "" then fallback else n.clean candidate

-- The row that `create` makes, with the defaults of the other columns.
unfoldable pub new_user : Names → AuthUser → Meta → String → Date → User
unfolding either_name
new_user n auth meta username at = record {
  id = auth.id;
  email = or_else auth.email (n.show auth.id ++ "@placeholder.local");
  username = username;
  github_username = auth.github_username;
  display_name = either_name meta.full_name meta.name;
  avatar_url = meta.avatar_url;
  bio = none;
  website_url = none;
  followers_count = pos 0;
  following_count = pos 0;
  components_count = pos 0;
  role = UserRole.user;
  suspended_until = none;
  suspension_reason = none;
  privacy_accepted_at = none;
  privacy_accepted_version = none;
  terms_accepted_at = none;
  terms_accepted_version = none;
  created_at = at;
  updated_at = at;
  deleted_at = none;
}

-- Another live row with the email, or with the username but for the case: the indexes
-- UQ_users_email and UQ_users_username leave deleted rows out.
unfoldable pub taken : (String → String) → User → User → Bool
taken lower u r =
    not (r.id == u.id)
    && (is_none r.deleted_at
        && (str_eq (lower r.username) (lower u.username) || str_eq r.email u.email))

-- The columns that the entity sets on a row that there is.
abbrev pub copied : User → User → User
copied u r = record r {
  email = u.email;
  username = u.username;
  github_username = u.github_username;
  display_name = u.display_name;
  avatar_url = u.avatar_url;
}

module _ (o : Orm) (lower : String → String) where
  -- An update of a deleted row stays out of the indexes.
  unfoldable pub save_row : User → Option User → Db → Option Db
  unfolding taken
  save_row u none d =
      Option.map (λ rows. record d { users = rows })
        (o.insert (λ r. r.id == u.id || taken lower u r) u d.users)
  save_row u (some r) d =
      if is_none r.deleted_at && is_some (o.find_one (taken lower u) d.users)
      then none
      else some (record d { users = o.update (has_id u.id) (copied u) d.users })

  -- save(user): an entity whose id is in the table, deleted or not, is an update.
  unfoldable pub save_user : User → Db → Option Db
  unfolding save_row
  save_user u d = save_row u (o.find_one (has_id u.id) d.users) d

module _ (p : Platform) (n : Names) where
  -- The loop, with the attempts that are left.
  unfoldable pub provision_from : AuthUser → Meta → String → (left attempt : ℕ) → Exec User
  unfolding save_user
  provision_from auth meta base zero attempt =
      raise (failure "Could not allocate a unique username after 5 attempts")
  provision_from auth meta base (suc left) attempt = do
    at ← now
    let username = if attempt == 0 then base else base ++ "-" ++ n.digits (attempt + 1)
    let user = new_user n auth meta username at
    fresh ← if_new (insert_alone (save_user p.orm n.lower user))
    elim fresh [ true ↦ pure user | false ↦ provision_from auth meta base left (attempt + 1) ]

  unfoldable pub provision : AuthUser → Meta → Option User → Exec User
  unfolding derive_username
  provision auth meta none = provision_from auth meta (derive_username n auth meta) 5 0
  provision auth meta (some existing) = pure existing

  unfoldable pub get_or_provision_profile : AuthUser → Meta → Exec User
  unfolding provision
  get_or_provision_profile auth meta = do
    existing ← gets (λ w. p.orm.find_one (live_user auth.id) w.db.users)
    provision auth meta existing
