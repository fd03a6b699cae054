-- ===== src/Realtime/Gateway.antt =====
-- realtime.gateway.ts: the sockets of the realtime namespace. A socket is what Socket.IO keeps for
-- a client: its rooms, the data the gateway attaches, and what was sent to it. The verification of
-- tokens is a parameter, and so are the tests of the shape of a UUID; `afterInit`, which sets CORS
-- and the Redis adapter of the server, is not modelled.
pub mod Subscriptions
use text.Mathlib.Text.{◌==◌ as str_eq}
use componi_back_nest.Prelude.{
  ℕ, ◌+◌, String, Bool, true, false, not, ◌&&◌, ◌||◌, Option, none, some, List, [], ◌∷◌, ◌==◌, leb,
  ltb, is_some, if◌then◌else◌,
}
use componi_back_nest.Entities.Accounts.{Uuid, Date}
use componi_back_nest.Messages.{Room, user_room, component_room, same_room}
use componi_back_nest.Cache.{Json}
use componi_back_nest.Session.{SessionState, hydrate}
use componi_back_nest.Guards.{SupabaseClaims, is_suspended, subject_of, bearer_of}
use componi_back_nest.Exec.{
  Exec, Result, ok, err, Error, failure, Platform, World, Config, raise, pure, now, require,
  present, ◌>>=◌, ◌>>◌,
}

pub data ErrorCode : Type 0 where
  disabled auth : ErrorCode

-- What `client.data` holds once the client is authenticated: the user, and the Set of components.
pub record Client : Type 0 where
  pub user_id : Option Uuid
  pub component_subscriptions : Option (List Uuid)
  pub rooms : List Room
  pub connected : Bool
  -- The `error` event that the client was sent.
  pub refused : Option ErrorCode

-- { ok: boolean; error?: string }
pub data Ack : Type 0 where
  accepted : Ack
  invalid_component_id not_authenticated subscription_limit_reached : Ack

unfoldable pub has : Uuid → List Uuid → Bool
has x [] = false
has x (y ∷ ys) = y == x || has x ys

unfoldable pub size : List Uuid → ℕ
size [] = 0
size (y ∷ ys) = 1 + size ys

-- Set.delete
unfoldable pub without : Uuid → List Uuid → List Uuid
without x [] = []
without x (y ∷ ys) = let rest = without x ys in if y == x then rest else y ∷ rest

-- client.leave
unfoldable pub leave : Room → List Room → List Room
leave r [] = []
leave r (s ∷ rest) = let others = leave r rest in if same_room s r then others else s ∷ others

-- client.join: a socket is in a room once.
unfoldable pub join : Room → List Room → List Room
unfolding leave
join r rooms = r ∷ leave r rooms

-- A message: a string that is a UUID, or anything else.
pub data Message : Type 0 where
  uuid : Uuid → Message
  something_else : Message

module _ (config : Config) where
  unfoldable pub add_subscription : Uuid → List Uuid → Client → Ack × Client
  unfolding has size join
  add_subscription component subs c =
      if has component subs
      then (accepted, c)
      else if leb config.max_component_subscriptions (size subs)
      then (subscription_limit_reached, c)
      else (
        accepted,
        record c {
          rooms = join (component_room component) c.rooms;
          component_subscriptions = some (component ∷ subs);
        },
      )

  unfoldable pub subscribe_to : Uuid → Option (List Uuid) → Client → Ack × Client
  subscribe_to component none c = (not_authenticated, c)
  subscribe_to component (some subs) c = add_subscription component subs c

  unfoldable pub on_subscribe_component : Message → Client → Ack × Client
  on_subscribe_component something_else c = (invalid_component_id, c)
  on_subscribe_component (uuid component) c = subscribe_to component c.component_subscriptions c

unfoldable pub drop_subscription : Uuid → List Uuid → Client → Client
unfolding without leave
drop_subscription component subs c =
    if has component subs
    then record c {
      rooms = leave (component_room component) c.rooms;
      component_subscriptions = some (without component subs);
    }
    else c

unfoldable pub unsubscribe_from : Uuid → Option (List Uuid) → Client → Client
unsubscribe_from component none c = c
unsubscribe_from component (some subs) c = drop_subscription component subs c

unfoldable pub on_unsubscribe_component : Message → Client → Client
on_unsubscribe_component something_else c = c
on_unsubscribe_component (uuid component) c = unsubscribe_from component c.component_subscriptions c

module _ (p : Platform) (json : Json SessionState) (verify : String → Option SupabaseClaims) where
  unfoldable pub admit_session : Uuid → Option SessionState → Exec Uuid
  admit_session sub none = raise (failure "user not provisioned")
  admit_session sub (some session) = do
    at ← now
    require (not (is_suspended session.suspended_until at)) (failure "account suspended")
    pure sub

  unfoldable pub authenticate_subject : Option (Uuid × SupabaseClaims) → Exec Uuid
  authenticate_subject none = raise (failure "token missing subject")
  authenticate_subject (some (sub, claims)) = do
    session ← hydrate p json sub
    admit_session sub session

  -- `authenticate`, with the token that `extractToken` finds.
  unfoldable pub authenticate : Option String → Exec Uuid
  authenticate token = do
    t ← present token (failure "missing token")
    authenticate_subject (subject_of p json verify t)

  unfoldable pub connect_as : Result Uuid → Client → Client
  unfolding join
  connect_as (ok user) c = record c {
    user_id = some user;
    component_subscriptions = some [];
    rooms = join (user_room user) c.rooms;
  }
  connect_as (err e) c = record c { refused = some auth; connected = false; rooms = [] }

  unfoldable pub handle_connection : Option String → Client → World → Client × World
  handle_connection token c w =
      if p.config.realtime_enabled
      then (let (r, w') = authenticate token w in (connect_as r c, w'))
      else (record c { refused = some disabled; connected = false; rooms = [] }, w)
