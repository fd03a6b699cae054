-- ===== src/Accounts/Provision/Named.antt =====
-- Users have different ids, and live users different usernames, also after a first request.
use mathlib.Core.Option
use Prim.Native.String.{◌++◌}
use text.Mathlib.Text.{◌==◌ as str_eq}
use text.Mathlib.TextEquality.{eq_iff}
use componi_back_nest.Prelude.{
  ℕ, zero, suc, ◌+◌, ◌≤◌, ◌≡◌, refl, ap, String, Bool, true, false, not, ◌&&◌, ◌||◌, Option, none,
  some, List, arith, count, bit, ◌==◌, count_mono, or_else, Option-cases, is_none, is_some, subst,
  Bool-cases, inl, inr, if◌then◌else◌,
}
use componi_back_nest.Entities.Accounts.{Uuid, User}
use componi_back_nest.Platform.Orm.{Orm, insert-free, count-update_same}
use componi_back_nest.Platform.Rows.{count-set, only_row}
use componi_back_nest.Database.{Db, live_user}
use componi_back_nest.Guards.{AuthUser}
use componi_back_nest.Moderation.Blocks.{has_id}
use componi_back_nest.Accounts.Provision.{
  Meta, Names, new_user, taken, copied, save_row, save_user, provision_from, provision,
  derive_username, get_or_provision_profile,
}
use componi_back_nest.Exec.{Exec, Platform, World, pure, insert_alone, if_new, bind_keeps}
use componi_back_nest.Exec.Keeps.{caught_world, insert_alone_keeps}

-- A live user with a username, but for the case.
abbrev pub has_name : (String → String) → String → User → Bool
has_name lower s u = is_none u.deleted_at && str_eq (lower u.username) s

pub record IsNamed (lower : String → String) (d : Db) : Type 0 where
  pub key : (id : Uuid) → count (has_id id) d.users ≤ 1
  pub names : (s : String) → count (has_name lower s) d.users ≤ 1

same_name : (s t name : String) → str_eq s name ≡ true → str_eq t name ≡ true → str_eq t s ≡ true
same_name s t name own k = ground (arith, own, k, eq_iff s name, eq_iff t name, eq_iff t s)

module _ (o : Orm) (lower : String → String) (d : Db) (v : IsNamed lower d) (u : User) where
  clash_name :
      (r : User) (s : String)
      → str_eq (lower u.username) s ≡ true
      → has_name lower s r ≡ true
      → r.id == u.id || taken lower u r ≡ true
  unfolding taken
  clash_name r s own k = ground (arith, k, same_name (lower u.username) (lower r.username) s own)

  -- What a test of one row at most says after the row has been inserted.
  once_more :
      (q : User → Bool) (rows : List User)
      → o.insert (λ r. r.id == u.id || taken lower u r) u d.users ≡ some rows
      → (q u ≡ true → (r : User) → q r ≡ true → r.id == u.id || taken lower u r ≡ true)
      → count q d.users ≤ 1
      → count q rows ≤ 1
  once_more q rows done clash once =
      let total = o.count-insert q (λ r. r.id == u.id || taken lower u r) u d.users rows done in
      elim (Bool-cases (q u)) [
        | inl own ↦ omega (
          arith,
          total,
          ap bit own,
          insert-free o (λ r. r.id == u.id || taken lower u r) u d.users rows done,
          count_mono q (λ r. r.id == u.id || taken lower u r) d.users (clash own),
        )
        | inr other ↦ omega (arith, total, ap bit other, once)
      ]

  -- A name after the row of the user has been updated, which had no clash if it is live.
  renamed_once :
      (r : User) (s : String)
      → o.find_one (has_id u.id) d.users ≡ some r
      → is_none r.deleted_at && is_some (o.find_one (taken lower u) d.users) ≡ false
      → count (has_name lower s) (o.update (has_id u.id) (copied u) d.users) ≤ 1
  renamed_once r s found free =
      let total = count-set o (has_id u.id) (has_name lower s) d.users (copied u) in
      let own_row =
        only_row o (has_id u.id) (has_id u.id) d.users (λ x. has_name lower s (copied u x)) r
          (λ x k. k) (v.key u.id) found in
      elim (Bool-cases (has_name lower s (copied u r))) [
        | inl own ↦ omega (
          arith,
          total,
          own_row,
          ap bit own,
          o.find_one_none (taken lower u) d.users (none_taken own),
          count_mono (λ x. not (has_id u.id x) && has_name lower s x) (taken lower u) d.users
              (λ x k. ground (arith, k, clash_name x s (ground (arith, own)))),
        )
        | inr other ↦ omega (
          arith,
          total,
          own_row,
          ap bit other,
          v.names s,
          count_mono (λ x. not (has_id u.id x) && has_name lower s x) (has_name lower s) d.users
              (λ x k. ground (arith, k)),
        )
      ]
    where
      none_taken : has_name lower s (copied u r) ≡ true → o.find_one (taken lower u) d.users ≡ none
      none_taken own = elim (Option-cases (o.find_one (taken lower u) d.users)) [
        | inl e ↦ e
        | inr (x, e) ↦ absurd (ground (arith, own, free, ap is_some e))
      ]

  updated-IsNamed :
      (blocked : Bool) (d1 d2 : Db)
      → (blocked ≡ false → IsNamed lower d1)
      → (if blocked then none else some d1) ≡ some d2
      → IsNamed lower d2
  updated-IsNamed true d1 d2 h e = ground (arith, e)
  updated-IsNamed false d1 d2 h e = subst (IsNamed lower) (ap (λ x. or_else x d1) e) (h refl)

  save_row-IsNamed :
      (row : Option User) (d' : Db)
      → o.find_one (has_id u.id) d.users ≡ row
      → save_row o lower u row d ≡ some d'
      → IsNamed lower d'
  unfolding save_row
  save_row-IsNamed none d' found e =
      let (rows, done, same) = (Option.map-eq-some_iff _ _).0 e in
      rw (← same) (record {
        key = λ id. once_more (has_id id) rows done (λ own r k. ground (arith, own, k)) (v.key id);
        names = λ s.
            once_more (has_name lower s) rows done
              (λ own r k. clash_name r s (ground (arith, own)) k) (v.names s);
      })
  save_row-IsNamed (some r) d' found e =
      updated-IsNamed (is_none r.deleted_at && is_some (o.find_one (taken lower u) d.users)) _ d'
        (λ free. record {
          key = λ id. omega (
            arith,
            v.key id,
            count-update_same o (has_id id) (has_id u.id) (copied u) d.users (λ x. refl),
          );
          names = λ s. renamed_once r s found free;
        })
        e

  save_user-IsNamed : (d' : Db) → save_user o lower u d ≡ some d' → IsNamed lower d'
  unfolding save_user
  save_user-IsNamed d' e = save_row-IsNamed (o.find_one (has_id u.id) d.users) d' refl e

module _ (p : Platform) (n : Names) (auth : AuthUser) (meta : Meta) where
  tried-IsNamed :
      (user : User) (w : World)
      → IsNamed n.lower w.db
      → IsNamed n.lower (if_new (insert_alone (save_user p.orm n.lower user)) w).1.db
  tried-IsNamed user w v = rw (caught_world (insert_alone (save_user p.orm n.lower user) w)) (
      insert_alone_keeps (IsNamed n.lower) (save_user p.orm n.lower user) w v
        (λ d e. save_user-IsNamed p.orm n.lower w.db v user d e))

  provision_from-IsNamed :
      (base : String) (left attempt : ℕ) (w : World)
      → IsNamed n.lower w.db
      → IsNamed n.lower (provision_from p n auth meta base left attempt w).1.db
  unfolding provision_from
  provision_from-IsNamed base zero attempt w v = v
  provision_from-IsNamed base (suc left) attempt w v =
      let name = if attempt == 0 then base else base ++ "-" ++ n.digits (attempt + 1) in
      let user = new_user n auth meta name w.clock in
      bind_keeps (λ x. IsNamed n.lower x.db) (if_new (insert_alone (save_user p.orm n.lower user)))
        _ w (tried-IsNamed user w v)
        (λ fresh x k.
          after user (λ y m. provision_from-IsNamed base left (attempt + 1) y m) fresh x k)
    where
      after :
          (user : User)
          → ((y : World)
              → IsNamed n.lower y.db
              → IsNamed n.lower (provision_from p n auth meta base left (attempt + 1) y).1.db)
          → (fresh : Bool) (x : World) → IsNamed n.lower x.db
          → IsNamed n.lower
              ((elim fresh as (λ _. Exec User) [
                | true ↦ pure user
                | false ↦ provision_from p n auth meta base left (attempt + 1)
              ])
                x).1.db
      after user next true x k = k
      after user next false x k = next x k

  -- After a request for the profile, whether it returns or throws, all users still have
  -- different ids, and the users that are not deleted different usernames but for the case, when
  -- that was so before.
  pub get_or_provision_profile-IsNamed :
      (w : World)
      → IsNamed n.lower w.db
      → IsNamed n.lower (get_or_provision_profile p n auth meta w).1.db
  unfolding get_or_provision_profile provision
  get_or_provision_profile-IsNamed w v = profile (p.orm.find_one (live_user auth.id) w.db.users)
    where
      profile : (existing : Option User) → IsNamed n.lower (provision p n auth meta existing w).1.db
      profile none = provision_from-IsNamed (derive_username n auth meta) 5 0 w v
      profile (some user) = v
