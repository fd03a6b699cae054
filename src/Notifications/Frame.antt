-- ===== src/Notifications/Frame.antt =====
-- Notifying touches no table but the notifications: what a transaction wrote stays.
use componi_back_nest.Prelude.{◌≡◌, refl, Option, arith}
use componi_back_nest.Entities.Accounts.{Uuid, NotificationType, Payload, DedupeKey}
use componi_back_nest.Messages.{NotificationJob}
use componi_back_nest.Exec.{Platform, World, if_keeps}
use componi_back_nest.Notifications.{to_self, make_job, add_job, deliver, enqueue}

module _ (p : Platform) where
  deliver_db : (job : NotificationJob) (w : World) → (deliver p job w).1.db ≡ w.db
  unfolding deliver
  deliver_db job w = ground arith

  pub enqueue_db :
      (user_id : Uuid) (type : NotificationType) (payload : Payload) (actor_id : Option Uuid)
      (dedupe_key : Option DedupeKey) (w : World)
      → (enqueue p user_id type payload actor_id dedupe_key w).1.db ≡ w.db
  unfolding enqueue add_job
  enqueue_db user_id type payload actor_id dedupe_key w =
      if_keeps (λ v. v.db ≡ w.db) (to_self p actor_id user_id) _ _ w refl
        (if_keeps (λ v. v.db ≡ w.db) p.config.workers_enabled _ _ w (ground arith)
          (deliver_db (make_job user_id type payload actor_id dedupe_key) w))
