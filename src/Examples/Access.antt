-- ===== src/Examples/Access.antt =====
-- Tokens, roles and subscriptions.
use componi_back_nest.Prelude.{
  ◌≡◌, ◌≢◌, refl, String, true, false, Option, none, some, [], ◌∷◌, arith,
}
use componi_back_nest.Entities.Accounts.{UserRole}
use componi_back_nest.Messages.{user_room}
use componi_back_nest.Exec.{ok, returned}
use componi_back_nest.Cache.{Json}
use componi_back_nest.Session.{SessionState}
use componi_back_nest.Instances.Deployment.{deployment, inline}
use componi_back_nest.Examples.Start.{start}
use componi_back_nest.Guards.{SupabaseClaims, AuthUser, authenticate, check_roles}
use componi_back_nest.Guards.Access.{
  in_force, may_pass, check_roles-may_pass, authenticate-not_suspended,
}
use componi_back_nest.Realtime.Gateway.{Client, uuid, size, has}
use componi_back_nest.Realtime.Gateway.Subscriptions.{
  IsSubscribed, is_in, distinct, subscribes, receive, receive-IsSubscribed,
}

abbrev claims_of_1 : SupabaseClaims
claims_of_1 = record {
  sub = some 1;
  email = none;
  user_name = none;
  preferred_username = none;
  provider = none;
}

-- Every token is of user 1, and no session was ever cached.
abbrev verify : String → Option SupabaseClaims
verify token = some claims_of_1

abbrev no_json : Json SessionState
no_json = record { stringify = λ s. "session"; parse = λ s. none }

authenticate-not_suspended_example :
    ((u : AuthUser)
      → (authenticate deployment no_json verify false false (some "token") start).0 ≡ ok (some u)
      → in_force deployment no_json u.id start ≡ false)
    × (false ≡ false
        → false ≡ false
        → (authenticate deployment no_json verify false false (some "token") start).0 ≢ ok none)
authenticate-not_suspended_example =
    authenticate-not_suspended deployment no_json verify false false (some "token") start

abbrev moderator_1 : AuthUser
moderator_1 = record {
  id = 1;
  email = none;
  github_username = none;
  provider = none;
  role = UserRole.moderator;
  suspended_until = none;
  privacy_accepted_version = none;
  terms_accepted_version = none;
  claims = claims_of_1;
}

check_roles-may_pass_example :
    returned (check_roles (UserRole.admin ∷ UserRole.user ∷ []) (some moderator_1))
    ≡ may_pass (UserRole.admin ∷ UserRole.user ∷ []) (some moderator_1)
check_roles-may_pass_example =
    check_roles-may_pass (UserRole.admin ∷ UserRole.user ∷ []) (some moderator_1)

abbrev client : Client
client = record {
  user_id = some 1;
  component_subscriptions = some [];
  rooms = user_room 1 ∷ [];
  connected = true;
  refused = none;
}

client-IsSubscribed : IsSubscribed inline client
unfolding size has is_in distinct
client-IsSubscribed = record { few = omega arith; once = refl; same = λ x. refl }

receive-IsSubscribed_example : IsSubscribed inline (receive inline (subscribes (uuid 10)) client)
receive-IsSubscribed_example =
    receive-IsSubscribed inline (subscribes (uuid 10)) client client-IsSubscribed
