-- ===== src/Realtime/Service.antt =====
-- realtime.service.ts: an event goes to a room, unless realtime is disabled. Socket.IO delivers
-- it to the sockets in the room, which this service does not see.
use componi_back_nest.Prelude.{Option, ◌∷◌, ℤ, if◌then◌else◌}
use componi_back_nest.Entities.Accounts.{Uuid, NotificationType, Payload}
use componi_back_nest.Messages.{
  Room, user_room, component_room, ServerEvent, notification, component_like, component_unlike,
  component_comment, user_follow,
}
use componi_back_nest.Exec.{Exec, Platform, World, modify, pure, now, ◌>>=◌}

emit : Room → ServerEvent → World → World
emit r e w = record w { emitted = record { room = r; event = e } ∷ w.emitted }

module _ (p : Platform) where
  -- The test of `this.enabled` with which every method begins.
  send : Room → ServerEvent → Exec Unit
  unfolding emit
  send r e = if p.config.realtime_enabled then modify (emit r e) else pure tt

  unfoldable pub notify_user : Uuid → NotificationType → Option Uuid → Payload → Exec Unit
  unfolding send
  notify_user user_id type actor_id payload = do
    at ← now
    send (user_room user_id) (notification type actor_id payload at)

  unfoldable pub component_liked : Uuid → Uuid → ℤ → Exec Unit
  unfolding send
  component_liked component_id actor_id likes_count =
      send (component_room component_id) (component_like component_id actor_id likes_count)

  unfoldable pub component_unliked : Uuid → Uuid → ℤ → Exec Unit
  unfolding send
  component_unliked component_id actor_id likes_count =
      send (component_room component_id) (component_unlike component_id actor_id likes_count)

  unfoldable pub component_commented : Uuid → Uuid → Uuid → ℤ → Exec Unit
  unfolding send
  component_commented component_id comment_id actor_id comments_count =
      send (component_room component_id)
        (component_comment component_id comment_id actor_id comments_count)

  unfoldable pub user_followed : Uuid → Uuid → ℤ → Exec Unit
  unfolding send
  user_followed followee_id follower_id followers_count =
      send (user_room followee_id) (user_follow follower_id followers_count)
