-- ===== src/Accounts/Consent/Accepted.antt =====
-- What the acceptance of the consents achieves.
use componi_back_nest.Prelude.{
  ◌<◌, ◌≡◌, refl, Bool, true, false, not, ◌&&◌, ◌||◌, some, count, arith, Option-cases, Bool-cases,
  inl, inr, List, none, [], ◌∷◌, is_some, count_mono, ltb, if◌then◌else◌, count_none, ◌∙◌,
}
use text.Mathlib.TextPositions.{eq_refl}
use componi_back_nest.Entities.Accounts.{Uuid, User}
use componi_back_nest.Platform.Orm.{find_one-found, find_one-sat, find_one-test, count-update_same}
use componi_back_nest.Database.{live_user}
use componi_back_nest.Guards.{Method, SupabaseClaims, differs, check_consent, to_auth_user}
use componi_back_nest.Messages.{session, user_session}
use componi_back_nest.Session.{
  SessionState, session_of, invalidate, hydrate, load_session, keep_session,
}
use componi_back_nest.Cache.{Json, get, set, purge_all, invalidate_tags}
use componi_back_nest.Cache.Freshness.{Covered}
use componi_back_nest.Cache.Invalidation.{OnlyKeys}
use componi_back_nest.Cache.Eviction.{purge_all-gone, get_of_gone}
use componi_back_nest.Moderation.Blocks.{has_id}
use componi_back_nest.Accounts.Consent.{
  AcceptConsentDto, patched, status_of, ConsentStatus, get_status, apply_patch, accept,
}
use componi_back_nest.Exec.{Platform, Config, World, ok}

-- Both consents of a row are of the current versions.
abbrev pub is_current : Config → User → Bool
is_current config u =
    not (differs u.privacy_accepted_version config.privacy_version)
    && not (differs u.terms_accepted_version config.terms_version)

abbrev pub both : AcceptConsentDto
both = record { accept_privacy = true; accept_terms = true }

module _ (p : Platform) (user : Uuid) (w : World) where
  patched_current : (u : User) → is_current p.config (patched p.config both w.clock u) ≡ true
  unfolding patched differs
  patched_current u =
      ground (arith, eq_refl p.config.privacy_version, eq_refl p.config.terms_version)

  abbrev users_after : List User
  users_after = p.orm.update (has_id user) (patched p.config both w.clock) w.db.users

  row_current :
      (row : User)
      → p.orm.find_one (live_user user) users_after ≡ some row
      → is_current p.config row ≡ true
  row_current row e = find_one-sat p.orm (live_user user) (is_current p.config) users_after row e (
      p.orm.count-update (λ u. live_user user u && not (is_current p.config u)) (has_id user)
        (patched p.config both w.clock) w.db.users
      ∙ count_none _ w.db.users (λ u. none_stale u))
    where
      none_stale :
          (u : User)
          → (let u' = if has_id user u then patched p.config both w.clock u else u in
              live_user user u' && not (is_current p.config u'))
            ≡ false
      none_stale u = elim (Bool-cases (has_id user u)) [
        | inl own ↦ rw own (ground (arith, patched_current u))
        | inr other ↦ rw other (ground (arith, other))
      ]

  module _ (there : 0 < count (live_user user) w.db.users) where
    some_affected : ltb 0 (p.orm.affected (has_id user) w.db.users) ≡ true
    some_affected = ground (
      arith,
      there,
      p.orm.affected_lem (has_id user) w.db.users,
      count_mono (live_user user) (has_id user) w.db.users (λ u k. ground (arith, k)),
    )

    still_there : 0 < count (live_user user) users_after
    unfolding patched
    still_there = omega (
      arith,
      there,
      count-update_same p.orm (live_user user) (has_id user) (patched p.config both w.clock)
          w.db.users (λ u. refl),
    )

    -- What `accept` leaves.
    abbrev accepted : World
    accepted = record w {
      db = record w.db { users = users_after };
      redis = (purge_all p.redis w.clock (user_session user ∷ []) (true, w.redis)).1;
    }

    accept_returns :
        (row : User)
        → p.orm.find_one (live_user user) users_after ≡ some row
        → accept p user both w ≡ (ok (status_of p.config row), accepted)
    unfolding accept apply_patch get_status invalidate invalidate_tags
    accept_returns row e = rw (some_affected, e) refl

    -- A session that is made from the row as it is now passes the guard.
    hydrated :
        (json : Json SessionState) (row : User) (claims : SupabaseClaims) (skip : Bool)
        (method : Method)
        → get p json (session user) accepted ≡ none
        → p.orm.find_one (live_user user) users_after ≡ some row
        → (s : SessionState) × ((hydrate p json user accepted).0 ≡ ok (some s))
          × (check_consent p.config skip method (some (to_auth_user claims user s)) ≡ ok tt)
    unfolding hydrate load_session keep_session set session_of check_consent to_auth_user
    hydrated json row claims skip method miss e =
        let live : is_some row.deleted_at ≡ false =
          ground (arith, find_one-test p.orm (live_user user) users_after row e) in
        (session_of row, rw (miss, e, live) refl, ground (arith, row_current row e))

    -- A user whose row is not deleted accepts both consents. Then `accept` returns a status that
    -- asks for neither. If Redis can be reached when the sessions are invalidated, every session of
    -- the user that it has is in the set of the user's tag, and no set of a tag has a tag as a
    -- member, then `hydrate` returns afterwards, whatever was cached, a session with which
    -- ConsentGuard lets every request of the user through.
    pub accept-passes :
        (json : Json SessionState) (claims : SupabaseClaims) (skip : Bool) (method : Method)
        → OnlyKeys w.clock w.redis
        → Covered w.clock (session user) (user_session user) w.redis
        → (purge_all p.redis w.clock (user_session user ∷ []) (true, w.redis)).0 ≡ true
        → ((s : ConsentStatus) × ((accept p user both w).0 ≡ ok s)
            × (s.privacy.needs_acceptance || s.terms.needs_acceptance ≡ false))
          × ((s : SessionState) × ((hydrate p json user (accept p user both w).1).0 ≡ ok (some s))
              × (check_consent p.config skip method (some (to_auth_user claims user s)) ≡ ok tt))
    unfolding status_of
    accept-passes json claims skip method only covered reached =
        elim (Option-cases (p.orm.find_one (live_user user) users_after)) [
          | inl e ↦ absurd (find_one-found p.orm (live_user user) users_after still_there e)
          | inr (row, e) ↦ rw (accept_returns row e) (
            (status_of p.config row, refl, ground (arith, row_current row e)),
            hydrated json row claims skip method
                (get_of_gone p json (session user) accepted (
                  purge_all-gone p.redis w.clock w.clock (session user) (user_session user)
                    (user_session user ∷ []) (true, w.redis) (omega arith) (inl refl) only covered
                    reached))
                e,
          )
        ]
