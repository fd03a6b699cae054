-- ===== src/Examples/SignIn.antt =====
-- The first request of a user.
use text.Mathlib.Text.{◌==◌ as str_eq}
use componi_back_nest.Prelude.{
  ◌≡◌, ◌≤◌, refl, Bool, true, false, none, some, [], ◌∷◌, arith, count, bit, ◌==◌,
}
use componi_back_nest.Entities.Accounts.{UserRole}
use componi_back_nest.Guards.{AuthUser}
use componi_back_nest.Accounts.Provision.{
  Meta, Names, get_or_provision_profile, provision, provision_from, save_user, save_row,
  derive_username, new_user, taken,
}
use componi_back_nest.Accounts.Provision.Named.{IsNamed, get_or_provision_profile-IsNamed}
use componi_back_nest.Exec.{World, ok}
use componi_back_nest.Instances.Deployment.{deployment}
use componi_back_nest.Instances.Tables.{find_one, insert}
use componi_back_nest.Examples.Start.{start, tables, person}

bit_le : (b : Bool) → bit b ≤ 1
bit_le true = omega arith
bit_le false = omega arith

abbrev names : Names
names = record {
  clean = λ s. s;
  local_part = λ s. "user";
  show = λ id. "3";
  short = λ id. "3";
  digits = λ n. "2";
  lower = λ s. s;
}

abbrev user_3 : AuthUser
user_3 = record {
  id = 3;
  email = some "other@componi.dev";
  github_username = none;
  provider = none;
  role = UserRole.user;
  suspended_until = none;
  privacy_accepted_version = none;
  terms_accepted_version = none;
  claims = record {
    sub = some 3;
    email = some "other@componi.dev";
    user_name = none;
    preferred_username = none;
    provider = none;
  };
}

abbrev no_meta : Meta
no_meta = record {
  user_name = none;
  preferred_username = none;
  full_name = none;
  name = none;
  avatar_url = none;
}

abbrev one_user : World
one_user = record start { db = record tables { users = person 1 UserRole.admin ∷ [] } }

one_user-IsNamed : IsNamed names.lower one_user.db
unfolding count
one_user-IsNamed = record {
  key = λ id. omega (arith, bit_le (1 == id));
  names = λ s. omega (arith, bit_le (str_eq "user" s));
}

-- The name "user" is taken, and the second attempt takes "user-2".
second_attempt :
    (get_or_provision_profile deployment names user_3 no_meta one_user).0
    ≡ ok (new_user names user_3 no_meta "user-2" start.clock)
unfolding deployment get_or_provision_profile provision provision_from save_user save_row
    derive_username new_user taken find_one insert
second_attempt = refl

get_or_provision_profile-IsNamed_example :
    IsNamed names.lower (get_or_provision_profile deployment names user_3 no_meta one_user).1.db
get_or_provision_profile-IsNamed_example =
    get_or_provision_profile-IsNamed deployment names user_3 no_meta one_user one_user-IsNamed
