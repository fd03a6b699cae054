-- ===== src/Guards/Access.antt =====
-- Whom the guards let through.
use componi_back_nest.Prelude.{
  ◌≡◌, refl, String, Bool, true, false, not, ◌&&◌, ◌||◌, Option, none, some, List, [], ◌∷◌, ltb,
  leb, arith, is_some, ap,
}
use componi_back_nest.Entities.Accounts.{Uuid, Date, User, UserRole}
use componi_back_nest.Platform.Orm.{find_one-test}
use componi_back_nest.Database.{live_user}
use componi_back_nest.Messages.{session}
use componi_back_nest.Exec.{Result, ok, err, Platform, World, Config, returned, continue}
use componi_back_nest.Cache.{Json, get, set}
use componi_back_nest.Session.{
  SessionState, hydrate, hydrate_clock, load_session, keep_session, session_of,
}
use componi_back_nest.Prelude.{subst, sym, ◌∙◌, ◌≢◌}
use componi_back_nest.Guards.{
  SupabaseClaims, AuthUser, is_suspended, admit, admit_subject, admit_token, authenticate,
  to_auth_user, Method, reads, differs, check_consent, rank, min_rank, check_roles, subject_of,
}

-- Is there a required role that the role satisfies?
unfoldable pub satisfies : UserRole → List UserRole → Bool
satisfies role [] = false
satisfies role (r ∷ rest) = leb (rank r) (rank role) || satisfies role rest

min_rank-satisfies :
    (role r : UserRole) (rest : List UserRole)
    → ltb (rank role) (min_rank r rest) ≡ not (satisfies role (r ∷ rest))
unfolding min_rank satisfies
min_rank-satisfies role r [] = ground arith
min_rank-satisfies role r (s ∷ rest) = ground (arith, min_rank-satisfies role s rest)

-- Who passes the guard of roles: everyone where no role is required, and else a user whose role
-- ranks at least as high as one of those that are required.
unfoldable pub may_pass : List UserRole → Option AuthUser → Bool
may_pass [] user = true
may_pass (r ∷ rest) none = false
may_pass (r ∷ rest) (some user) = satisfies user.role (r ∷ rest)

-- The guard of roles lets a request through exactly if no role is required, or there is a user
-- whose role ranks at least as high as one of the required roles.
pub check_roles-may_pass :
    (required : List UserRole) (user : Option AuthUser)
    → returned (check_roles required user) ≡ may_pass required user
unfolding check_roles may_pass
check_roles-may_pass [] user = refl
check_roles-may_pass (r ∷ rest) none = refl
check_roles-may_pass (r ∷ rest) (some user) = ground (arith, min_rank-satisfies user.role r rest)

module _ (p : Platform) (json : Json SessionState) where
  -- Is the suspension of the user's row in force?
  unfoldable pub row_suspended : Option User → Date → Bool
  row_suspended none at = false
  row_suspended (some row) at = is_suspended row.suspended_until at

  -- Is the user suspended, by the session that Redis has, or else by the live row?
  unfoldable pub in_force : Uuid → World → Bool
  unfolding row_suspended
  in_force id w = elim (get p json (session id) w) [
    | none ↦ row_suspended (p.orm.find_one (live_user id) w.db.users) w.clock
    | some s ↦ is_suspended s.suspended_until w.clock
  ]

  unfoldable session_suspended : Option SessionState → Date → Bool
  session_suspended none at = false
  session_suspended (some s) at = is_suspended s.suspended_until at

  -- The session that is made from a row is suspended exactly if the row is.
  keep_session-in_force :
      (id : Uuid) (found : Option User) (w : World)
      → p.orm.find_one (live_user id) w.db.users ≡ found
      → (s : Option SessionState) × ((keep_session p json id found w).0 ≡ ok s)
        × (session_suspended s w.clock ≡ row_suspended found w.clock)
  unfolding keep_session set session_suspended row_suspended session_of
  keep_session-in_force id none w e = (none, refl, refl)
  keep_session-in_force id (some row) w e =
      let live : is_some row.deleted_at ≡ false =
        ground (arith, find_one-test p.orm (live_user id) w.db.users row e) in
      rw live (some (session_of row), refl, refl)

  load_session-in_force :
      (id : Uuid) (cached : Option SessionState) (w : World)
      → (s : Option SessionState) × ((load_session p json id cached w).0 ≡ ok s)
        × (session_suspended s w.clock ≡ (elim cached as (λ _. Bool) [
          | none ↦ row_suspended (p.orm.find_one (live_user id) w.db.users) w.clock
          | some s ↦ is_suspended s.suspended_until w.clock
        ]))
  unfolding load_session session_suspended
  load_session-in_force id none w = keep_session-in_force id _ w refl
  load_session-in_force id (some s) w = (some s, refl, refl)

  -- The session that `hydrate` returns is suspended exactly if the user is.
  hydrate-in_force :
      (id : Uuid) (w : World)
      → (s : Option SessionState) × ((hydrate p json id w).0 ≡ ok s)
        × (session_suspended s w.clock ≡ in_force id w)
  unfolding hydrate in_force
  hydrate-in_force id w = load_session-in_force id (get p json (session id) w) w

module _ (p : Platform) (json : Json SessionState) (verify : String → Option SupabaseClaims) where
  admit-in_force :
      (sub : Uuid) (claims : SupabaseClaims) (s : Option SessionState) (w : World) (b : Bool)
      → session_suspended p json s w.clock ≡ b
      → (returned (admit p json verify sub claims s w).0 ≡ not b)
        × ((u : AuthUser) → (admit p json verify sub claims s w).0 ≡ ok (some u) → u.id ≡ sub)
  unfolding admit to_auth_user session_suspended
  admit-in_force sub claims none w b h = (ground (arith, h), λ u e. ground arith)
  admit-in_force sub claims (some s) w b h = (ground (arith, h), λ u e. ground arith)

  -- The guard after a valid token.
  admit_subject-in_force :
      (is_optional : Bool) (sub : Uuid) (claims : SupabaseClaims) (w : World)
      → (returned (admit_subject p json verify is_optional (some (sub, claims)) w).0
          ≡ not (in_force p json sub w))
        × ((u : AuthUser)
            → (admit_subject p json verify is_optional (some (sub, claims)) w).0 ≡ ok (some u)
            → u.id ≡ sub)
  unfolding admit_subject
  admit_subject-in_force is_optional sub claims w =
      let (s, e, same) = hydrate-in_force p json sub w in
      rw e (
        admit-in_force sub claims s (hydrate p json sub w).1 (in_force p json sub w)
          (ap (session_suspended p json s) (hydrate_clock p json sub w) ∙ same))

  passes-in_force :
      (is_optional : Bool) (subject : Option (Uuid × SupabaseClaims)) (w : World) (u : AuthUser)
      → (admit_subject p json verify is_optional subject w).0 ≡ ok (some u)
      → in_force p json u.id w ≡ false
  unfolding admit_subject
  passes-in_force is_optional none w u h = ground (arith, h)
  passes-in_force is_optional (some (sub, claims)) w u h =
      let (passed, own) = admit_subject-in_force is_optional sub claims w in
      subst (λ id. in_force p json id w ≡ false) (sym (own u h))
        (ground (arith, passed, ap returned h))

  admit_subject-user :
      (subject : Option (Uuid × SupabaseClaims)) (w : World)
      → (admit_subject p json verify false subject w).0 ≢ ok none
  unfolding admit_subject admit
  admit_subject-user none w h = ground arith
  admit_subject-user (some (sub, claims)) w h = after (hydrate p json sub w).0 h
    where
      after :
          (r : Result (Option SessionState))
          → (continue r (admit p json verify sub claims) (hydrate p json sub w).1).0 ≢ ok none
      after (err e) k = ground arith
      after (ok none) k = ground arith
      after (ok (some s)) k = ground arith

  -- When the guard of tokens sets `req.user`, no suspension of that user is in force at the time of
  -- the request, by the session that Redis has, or where it has none, by the user's live row; and
  -- on a route that is neither public nor of optional authentication, a request without a user does
  -- not pass.
  pub authenticate-not_suspended :
      (is_public is_optional : Bool) (token : Option String) (w : World)
      → ((u : AuthUser)
          → (authenticate p json verify is_public is_optional token w).0 ≡ ok (some u)
          → in_force p json u.id w ≡ false)
        × (is_public ≡ false
            → is_optional ≡ false
            → (authenticate p json verify is_public is_optional token w).0 ≢ ok none)
  unfolding authenticate admit_token
  authenticate-not_suspended true is_optional token w = (λ u h. ground arith, λ h. ground arith)
  authenticate-not_suspended false is_optional none w =
      (λ u h. ground arith, λ _ h. ground (arith, h))
  authenticate-not_suspended false is_optional (some token) w = (
    λ u h. ground (arith, h, passes-in_force is_optional (subject_of p json verify token) w u),
    λ _ required h.
        ground (arith, required, h, admit_subject-user (subject_of p json verify token) w),
  )

-- The guard of consents lets a request of a user through exactly if the route opts out, the method
-- only reads, or the user has accepted the current versions of both documents.
pub check_consent-current :
    (config : Config) (skip : Bool) (method : Method) (user : AuthUser)
    → returned (check_consent config skip method (some user)) ≡ (
        skip
        || (reads method
            || (not (differs user.privacy_accepted_version config.privacy_version)
                && not (differs user.terms_accepted_version config.terms_version))))
unfolding check_consent
check_consent-current config skip method user = ground arith
