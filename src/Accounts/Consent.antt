-- ===== src/Accounts/Consent.antt =====
-- consent.service.ts: the acceptance of the privacy policy and of the terms, by version.
pub mod Accepted
use componi_back_nest.Prelude.{
  ℕ, String, Bool, true, false, ◌&&◌, ◌||◌, Option, none, some, ◌==◌, ltb, if◌then◌else◌,
}
use componi_back_nest.Entities.Accounts.{Uuid, Date, User}
use componi_back_nest.Database.{live_user}
use componi_back_nest.Guards.{differs}
use componi_back_nest.Moderation.Blocks.{has_id}
use componi_back_nest.Session.{invalidate}
use componi_back_nest.Exec.{
  Exec, Result, ok, err, not_found, Config, Platform, World, pure, require, present, gets, now,
  write, ◌>>=◌, ◌>>◌,
}

pub record Acceptance : Type 0 where
  pub current_version : String
  pub accepted_version : Option String
  pub accepted_at : Option Date
  pub needs_acceptance : Bool

pub record ConsentStatus : Type 0 where
  pub privacy : Acceptance
  pub terms : Acceptance

-- `if (dto.acceptPrivacy)`: a field that is left out is false.
pub record AcceptConsentDto : Type 0 where
  pub accept_privacy : Bool
  pub accept_terms : Bool

-- `patch`, applied to a row.
unfoldable pub patched : Config → AcceptConsentDto → Date → User → User
patched config dto at u = record u {
  privacy_accepted_at = if dto.accept_privacy then some at else u.privacy_accepted_at;
  privacy_accepted_version =
      if dto.accept_privacy then some config.privacy_version else u.privacy_accepted_version;
  terms_accepted_at = if dto.accept_terms then some at else u.terms_accepted_at;
  terms_accepted_version =
      if dto.accept_terms then some config.terms_version else u.terms_accepted_version;
}

unfoldable pub status_of : Config → User → ConsentStatus
unfolding differs
status_of config u = record {
  privacy = record {
    current_version = config.privacy_version;
    accepted_version = u.privacy_accepted_version;
    accepted_at = u.privacy_accepted_at;
    needs_acceptance = differs u.privacy_accepted_version config.privacy_version;
  };
  terms = record {
    current_version = config.terms_version;
    accepted_version = u.terms_accepted_version;
    accepted_at = u.terms_accepted_at;
    needs_acceptance = differs u.terms_accepted_version config.terms_version;
  };
}

module _ (p : Platform) where
  unfoldable pub get_status : Uuid → Exec ConsentStatus
  get_status user = do
    found ← gets (λ w. p.orm.find_one (live_user user) w.db.users)
    row ← present found (not_found "User not found")
    pure (status_of p.config row)

  -- The update of the query builder, which does not leave deleted rows out.
  unfoldable pub apply_patch : Uuid → AcceptConsentDto → Exec Unit
  unfolding patched
  apply_patch user dto = do
    at ← now
    affected ← gets (λ w. p.orm.affected (has_id user) w.db.users)
    write (λ d. record d { users = p.orm.update (has_id user) (patched p.config dto at) d.users })
    require (ltb 0 affected) (not_found "User not found")
    invalidate p user

  unfoldable pub accept : Uuid → AcceptConsentDto → Exec ConsentStatus
  accept user dto = do
    if dto.accept_privacy || dto.accept_terms then apply_patch user dto else pure tt
    get_status user
