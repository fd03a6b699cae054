-- ===== src/Guards.antt =====
-- supabase-auth.guard.ts, consent.guard.ts and roles.guard.ts, which run in this order before a
-- handler. The verification of tokens and the string functions of JavaScript are parameters.
pub mod Access
use text.Mathlib.Text.{◌==◌ as str_eq}
use componi_back_nest.Prelude.{
  ℕ, String, Bool, true, false, not, ◌&&◌, ◌||◌, Option, none, some, List, [], ◌∷◌, ltb, or_else,
  if◌then◌else◌,
}
use componi_back_nest.Entities.Accounts.{Uuid, Date, UserRole}
use componi_back_nest.Exec.{
  Exec, Result, ok, err, Error, unauthorized, forbidden, Platform, World, Config, pure, raise, gets,
  now, require, ◌>>=◌, ◌>>◌,
}
use componi_back_nest.Cache.{Json}
use componi_back_nest.Session.{SessionState, hydrate}

-- SupabaseClaims, with the fields that `toAuthUser` reads.
pub record SupabaseClaims : Type 0 where
  pub sub : Option Uuid
  pub email : Option String
  pub user_name : Option String
  pub preferred_username : Option String
  pub provider : Option String

pub record AuthUser : Type 0 where
  pub id : Uuid
  pub email : Option String
  pub github_username : Option String
  pub provider : Option String
  pub role : UserRole
  pub suspended_until : Option Date
  pub privacy_accepted_version : Option String
  pub terms_accepted_version : Option String
  pub claims : SupabaseClaims

-- `a ?? b ?? null`
unfoldable pub either_name : Option String → Option String → Option String
either_name (some s) other = some s
either_name none other = other

unfoldable pub to_auth_user : SupabaseClaims → Uuid → SessionState → AuthUser
unfolding either_name
to_auth_user claims sub session = record {
  id = sub;
  email = claims.email;
  github_username = either_name claims.user_name claims.preferred_username;
  provider = claims.provider;
  role = session.role;
  suspended_until = session.suspended_until;
  privacy_accepted_version = session.privacy_accepted_version;
  terms_accepted_version = session.terms_accepted_version;
  claims = claims;
}

-- The user whose row does not exist yet.
abbrev pub unprovisioned : SessionState
unprovisioned = record {
  role = UserRole.user;
  suspended_until = none;
  privacy_accepted_version = none;
  terms_accepted_version = none;
}

-- `session.suspendedUntil && session.suspendedUntil.getTime() > Date.now()`
unfoldable pub is_suspended : Option Date → Date → Bool
is_suspended none at = false
is_suspended (some until) at = ltb at until

module _ (split : String → List String) (lower trim : String → String) where
  -- What `header.split(' ')` leaves.
  unfoldable pub bearer_of : List String → Option String
  bearer_of [] = none
  bearer_of (scheme ∷ []) = none
  bearer_of (scheme ∷ token ∷ rest) =
      if str_eq (lower scheme) "bearer" && not (str_eq token "") then some (trim token) else none

  unfoldable pub extract_bearer : Option String → Option String
  extract_bearer none = none
  extract_bearer (some header) = if str_eq header "" then none else bearer_of (split header)

module _ (p : Platform) (json : Json SessionState) (verify : String → Option SupabaseClaims) where
  -- The claims and the subject of a token, if it is valid; `none` stands for an exception.
  unfoldable pub subject_of : String → Option (Uuid × SupabaseClaims)
  subject_of token = elim (verify token) [
    | none ↦ none
    | some claims ↦ elim claims.sub [ none ↦ none | some sub ↦ some (sub, claims) ]
  ]

  unfoldable pub admit : Uuid → SupabaseClaims → Option SessionState → Exec (Option AuthUser)
  unfolding to_auth_user
  admit sub claims none = pure (some (to_auth_user claims sub unprovisioned))
  admit sub claims (some session) = do
    at ← now
    require (not (is_suspended session.suspended_until at)) (forbidden "Account suspended")
    pure (some (to_auth_user claims sub session))

  unfoldable pub admit_subject : Bool → Option (Uuid × SupabaseClaims) → Exec (Option AuthUser)
  admit_subject is_optional none =
      if is_optional then pure none else raise (unauthorized "Invalid or expired token")
  admit_subject is_optional (some (sub, claims)) = do
    session ← hydrate p json sub
    admit sub claims session

  unfoldable pub admit_token : Bool → Option String → Exec (Option AuthUser)
  admit_token is_optional none =
      if is_optional then pure none else raise (unauthorized "Missing bearer token")
  admit_token is_optional (some token) =
      if str_eq token ""
      then if is_optional then pure none else raise (unauthorized "Missing bearer token")
      else admit_subject is_optional (subject_of token)

  -- SupabaseAuthGuard.canActivate, with the token of the request: it throws, or sets `req.user`,
  -- or lets the request pass without a user.
  unfoldable pub authenticate :
      (is_public is_optional : Bool) → Option String → Exec (Option AuthUser)
  authenticate is_public is_optional token =
      if is_public then pure none else admit_token is_optional token

pub data Method : Type 0 where
  get head options post put patch delete : Method

unfoldable pub reads : Method → Bool
reads Method.get = true
reads Method.head = true
reads Method.options = true
reads _ = false

unfoldable pub differs : Option String → String → Bool
differs none current = true
differs (some s) current = not (str_eq s current)

-- ConsentGuard.canActivate
unfoldable pub check_consent : Config → (skip : Bool) → Method → Option AuthUser → Result Unit
unfolding differs reads
check_consent config skip method none = ok tt
check_consent config skip method (some user) =
    if skip || reads method
    then ok tt
    else if differs user.privacy_accepted_version config.privacy_version
        || differs user.terms_accepted_version config.terms_version
    then err (forbidden "Consent required")
    else ok tt

-- RANK
unfoldable pub rank : UserRole → ℕ
rank UserRole.user = 0
rank UserRole.moderator = 1
rank UserRole.admin = 2

-- Math.min(...required.map((r) => RANK[r])) of a list that is not empty.
unfoldable pub min_rank : UserRole → List UserRole → ℕ
min_rank r [] = rank r
min_rank r (s ∷ rest) = let m = min_rank s rest in if ltb (rank r) m then rank r else m

-- RolesGuard.canActivate
unfoldable pub check_roles : List UserRole → Option AuthUser → Result Unit
check_roles [] user = ok tt
check_roles (r ∷ rest) none = err (forbidden "Insufficient privileges")
check_roles (r ∷ rest) (some user) =
    if ltb (rank user.role) (min_rank r rest)
    then err (forbidden "Insufficient privileges")
    else ok tt
