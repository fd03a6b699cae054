-- ===== src/Session.antt =====
-- session.service.ts: role, suspension and consents of a user, cached for 30 seconds. The dates of
-- a cached session are strings that `hydrate` reads back: that belongs to the `Json` parameter.
use componi_back_nest.Prelude.{
  String, Option, none, some, [], ◌∷◌, is_some, if◌then◌else◌, ◌≡◌, arith,
}
use componi_back_nest.Entities.Accounts.{Uuid, Date, User, UserRole}
use componi_back_nest.Database.{live_user}
use componi_back_nest.Messages.{session, user_session}
use componi_back_nest.Exec.{Exec, Platform, World, pure, gets, ◌>>=◌, ◌>>◌}
use componi_back_nest.Cache.{Json, get, set, invalidate_tags}

pub record SessionState : Type 0 where
  pub role : UserRole
  pub suspended_until : Option Date
  pub privacy_accepted_version : Option String
  pub terms_accepted_version : Option String

unfoldable pub session_of : User → SessionState
session_of row = record {
  role = row.role;
  suspended_until = row.suspended_until;
  privacy_accepted_version = row.privacy_accepted_version;
  terms_accepted_version = row.terms_accepted_version;
}

module _ (p : Platform) (json : Json SessionState) where
  unfoldable pub keep_session : Uuid → Option User → Exec (Option SessionState)
  keep_session user_id none = pure none
  keep_session user_id (some row) = if is_some row.deleted_at then pure none else do
    set p json (session user_id) (session_of row) 30 (user_session user_id ∷ [])
    pure (some (session_of row))

  unfoldable pub load_session : Uuid → Option SessionState → Exec (Option SessionState)
  load_session user_id (some cached) = pure (some cached)
  load_session user_id none = do
    row ← gets (λ w. p.orm.find_one (live_user user_id) w.db.users)
    keep_session user_id row

  unfoldable pub hydrate : Uuid → Exec (Option SessionState)
  hydrate user_id = do cached ← gets (get p json (session user_id)); load_session user_id cached

module _ (p : Platform) where
  unfoldable pub invalidate : Uuid → Exec Unit
  invalidate user_id = invalidate_tags p (user_session user_id ∷ [])

-- `hydrate` takes no time in the model.
module _ (p : Platform) (json : Json SessionState) (id : Uuid) (w : World) where
  pub hydrate_clock : (hydrate p json id w).1.clock ≡ w.clock
  unfolding hydrate load_session keep_session set get
  hydrate_clock = ground arith
