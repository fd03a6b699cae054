-- ===== src/Realtime/Gateway/Subscriptions.antt =====
-- The rooms of a socket: those of the components it subscribed to, each once and not too many.
use componi_back_nest.Prelude.{
  ◌≤◌, ◌≡◌, refl, Bool, true, false, not, ◌&&◌, ◌||◌, Option, none, some, List, [], ◌∷◌, ◌==◌, leb,
  arith, Bool-cases, inl, inr,
}
use componi_back_nest.Entities.Accounts.{Uuid}
use componi_back_nest.Messages.{Room, user_room, component_room, same_room}
use componi_back_nest.Exec.{Config}
use componi_back_nest.Realtime.Gateway.{
  Client, Message, uuid, something_else, has, size, without, leave, join, add_subscription,
  on_subscribe_component, drop_subscription, subscribe_to, unsubscribe_from,
  on_unsubscribe_component,
}

unfoldable pub is_in : Room → List Room → Bool
is_in r [] = false
is_in r (s ∷ rest) = same_room s r || is_in r rest

-- No element twice.
unfoldable pub distinct : List Uuid → Bool
distinct [] = true
distinct (y ∷ ys) = not (has y ys) && distinct ys

-- The components of an authenticated client are at most as many as the configuration says, none
-- twice, and the client is in the room of a component exactly if it is one of them.
pub record InRooms (config : Config) (subs : List Uuid) (rooms : List Room) : Type 0 where
  pub few : size subs ≤ config.max_component_subscriptions
  pub once : distinct subs ≡ true
  pub same : (x : Uuid) → is_in (component_room x) rooms ≡ has x subs

-- A client without subscriptions is not authenticated.
abbrev pub Holds : Config → List Room → Option (List Uuid) → Type 0
Holds config rooms none = Unit
Holds config rooms (some subs) = InRooms config subs rooms

abbrev pub IsSubscribed : Config → Client → Type 0
IsSubscribed config c = Holds config c.rooms c.component_subscriptions

is_in-leave :
    (x y : Uuid) (rooms : List Room)
    → is_in (component_room x) (leave (component_room y) rooms)
      ≡ not (x == y) && is_in (component_room x) rooms
unfolding is_in leave
is_in-leave x y [] = ground arith
is_in-leave x y (user_room a ∷ rest) = ground (arith, is_in-leave x y rest)
is_in-leave x y (component_room a ∷ rest) = ground (arith, is_in-leave x y rest)

has-without : (x y : Uuid) (ys : List Uuid) → has x (without y ys) ≡ not (x == y) && has x ys
unfolding has without
has-without x y [] = ground arith
has-without x y (z ∷ zs) = ground (arith, has-without x y zs)

size-without : (y : Uuid) (ys : List Uuid) → size (without y ys) ≤ size ys
unfolding size without
size-without y [] = omega arith
size-without y (z ∷ zs) = ground (arith, size-without y zs)

distinct-without : (y : Uuid) (ys : List Uuid) → distinct ys ≡ true → distinct (without y ys) ≡ true
unfolding distinct without
distinct-without y [] h = refl
distinct-without y (z ∷ zs) h = ground (arith, h, distinct-without y zs, has-without z y zs)

module _ (config : Config) where
  add-InRooms :
      (x : Uuid) (subs : List Uuid) (rooms : List Room)
      → has x subs ≡ false
      → leb config.max_component_subscriptions (size subs) ≡ false
      → InRooms config subs rooms
      → InRooms config (x ∷ subs) (join (component_room x) rooms)
  unfolding size distinct has join is_in
  add-InRooms x subs rooms fresh room v = record {
    few = ground (arith, room);
    once = ground (arith, fresh, v.once);
    same = λ y. ground (arith, v.same y, is_in-leave y x rooms);
  }

  drop-InRooms :
      (x : Uuid) (subs : List Uuid) (rooms : List Room)
      → InRooms config subs rooms
      → InRooms config (without x subs) (leave (component_room x) rooms)
  drop-InRooms x subs rooms v = record {
    few = omega (arith, v.few, size-without x subs);
    once = distinct-without x subs v.once;
    same = λ y. ground (arith, v.same y, is_in-leave y x rooms, has-without y x subs);
  }

  add_subscription-IsSubscribed :
      (x : Uuid) (subs : List Uuid) (c : Client)
      → InRooms config subs c.rooms
      → IsSubscribed config c
      → IsSubscribed config (add_subscription config x subs c).1
  unfolding add_subscription
  add_subscription-IsSubscribed x subs c own v = elim (Bool-cases (has x subs)) [
    | inl already ↦ rw already v
    | inr fresh ↦ elim (Bool-cases (leb config.max_component_subscriptions (size subs))) [
      | inl full ↦ rw (fresh, full) v
      | inr room ↦ rw (fresh, room) (add-InRooms x subs c.rooms fresh room own)
    ]
  ]

  drop_subscription-IsSubscribed :
      (x : Uuid) (subs : List Uuid) (c : Client)
      → InRooms config subs c.rooms
      → IsSubscribed config c
      → IsSubscribed config (drop_subscription x subs c)
  unfolding drop_subscription
  drop_subscription-IsSubscribed x subs c own v = elim (Bool-cases (has x subs)) [
    | inl there ↦ rw there (drop-InRooms x subs c.rooms own)
    | inr absent ↦ rw absent v
  ]

  subscribe_to-IsSubscribed :
      (x : Uuid) (o : Option (List Uuid)) (c : Client)
      → Holds config c.rooms o
      → IsSubscribed config c
      → IsSubscribed config (subscribe_to config x o c).1
  unfolding subscribe_to
  subscribe_to-IsSubscribed x none c own v = v
  subscribe_to-IsSubscribed x (some subs) c own v = add_subscription-IsSubscribed x subs c own v

  subscribe-IsSubscribed :
      (m : Message) (c : Client)
      → IsSubscribed config c
      → IsSubscribed config (on_subscribe_component config m c).1
  unfolding on_subscribe_component
  subscribe-IsSubscribed something_else c v = v
  subscribe-IsSubscribed (uuid x) c v = subscribe_to-IsSubscribed x c.component_subscriptions c v v

  unsubscribe_from-IsSubscribed :
      (x : Uuid) (o : Option (List Uuid)) (c : Client)
      → Holds config c.rooms o
      → IsSubscribed config c
      → IsSubscribed config (unsubscribe_from x o c)
  unfolding unsubscribe_from
  unsubscribe_from-IsSubscribed x none c own v = v
  unsubscribe_from-IsSubscribed x (some subs) c own v =
      drop_subscription-IsSubscribed x subs c own v

  unsubscribe-IsSubscribed :
      (m : Message) (c : Client)
      → IsSubscribed config c
      → IsSubscribed config (on_unsubscribe_component m c)
  unfolding on_unsubscribe_component
  unsubscribe-IsSubscribed something_else c v = v
  unsubscribe-IsSubscribed (uuid x) c v =
      unsubscribe_from-IsSubscribed x c.component_subscriptions c v v

-- What a client sends.
pub data Request : Type 0 where
  subscribes unsubscribes : Message → Request

unfoldable pub receive : Config → Request → Client → Client
receive config (subscribes m) c = (on_subscribe_component config m c).1
receive config (unsubscribes m) c = on_unsubscribe_component m c

-- If an authenticated client is subscribed to at most as many components as the configuration
-- says, to none twice, and is in the room of a component exactly if it is subscribed to it, then
-- this is so after any message that subscribes or unsubscribes, well-formed or not.
pub receive-IsSubscribed :
    (config : Config) (r : Request) (c : Client)
    → IsSubscribed config c
    → IsSubscribed config (receive config r c)
unfolding receive
receive-IsSubscribed config (subscribes m) c v = subscribe-IsSubscribed config m c v
receive-IsSubscribed config (unsubscribes m) c v = unsubscribe-IsSubscribed config m c v
