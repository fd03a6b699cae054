-- ===== src/Notifications/History.antt =====
-- The inbox over any history of the notifications service: requests, workers, retries, reads and
-- the passing of time.
use componi_back_nest.Prelude.{
  ℕ, ◌+◌, ◌≤◌, ◌≡◌, refl, Bool, not, Option, none, some, arith, count, count_mono, ◌∙◌, leb,
  Option-cases, inl, inr,
}
use componi_back_nest.Platform.Orm.{count-update_same}
use componi_back_nest.Entities.Accounts.{
  Uuid, Date, Notification, NotificationType, DedupeKey, Payload,
}
use componi_back_nest.Messages.{NotificationJob}
use componi_back_nest.Exec.{Platform, World, if_keeps}
use componi_back_nest.Notifications.{
  to_self, make_job, add_job, queued, enqueue, process, mark_read, mark_all_read,
}
use componi_back_nest.Notifications.Dedupe.{in_window, IsThrottled, deliver-IsThrottled}

module _ (p : Platform) where
  pub data Step : World → World → Type 0 where
    request :
        (w : World) (user_id : Uuid) (type : NotificationType) (payload : Payload)
        (actor_id : Option Uuid) (dedupe_key : Option DedupeKey)
        → payload.dedupe_key ≡ none
        → Step w (enqueue p user_id type payload actor_id dedupe_key w).1
    work :
        (w : World) (job : NotificationJob)
        → job.payload.dedupe_key ≡ none
        → Step w (process p job w).1
    read : (w : World) (user_id id : Uuid) → Step w (mark_read p user_id id w).1
    read_all : (w : World) (user_id : Uuid) → Step w (mark_all_read p user_id w).1
    tick : (w : World) (ms : ℕ) → Step w (record w { clock = w.clock + ms })

  pub data Reach (start : World) : World → Type 0 where
    here : Reach start start
    next : {v w : World} → Reach start v → Step v w → Reach start w

  add_job-IsThrottled :
      (job : NotificationJob) (w : World)
      → IsThrottled w
      → IsThrottled (add_job p (queued p job) w).1
  unfolding add_job
  add_job-IsThrottled job w t = elim (Option-cases (p.bull.add (queued p job) w.jobs)) [
    | inl e ↦ rw (e, add_job) t
    | inr (js, e) ↦ rw (e, add_job) (record { windows = t.windows; past = t.past })
  ]

  enqueue-IsThrottled :
      (user_id : Uuid) (type : NotificationType) (payload : Payload) (actor_id : Option Uuid)
      (dedupe_key : Option DedupeKey) (w : World)
      → payload.dedupe_key ≡ none
      → IsThrottled w
      → IsThrottled (enqueue p user_id type payload actor_id dedupe_key w).1
  unfolding enqueue
  enqueue-IsThrottled user_id type payload actor_id dedupe_key w plain t =
      if_keeps IsThrottled (to_self p actor_id user_id) _ _ w t (
        if_keeps IsThrottled p.config.workers_enabled _ _ w
          (add_job-IsThrottled (make_job user_id type payload actor_id dedupe_key) w t)
          (deliver-IsThrottled p (make_job user_id type payload actor_id dedupe_key) w plain t))

  -- Marking rows as read changes no field that a window or the clock test reads.
  reads-IsThrottled :
      (test : Notification → Bool) (w : World)
      → IsThrottled w
      → IsThrottled (record w {
        notifications =
            p.orm.update test (λ n. record n { read_at = some w.clock }) w.notifications;
      })
  reads-IsThrottled test w t = record {
    windows = λ u key at.
        rw
          (count-update_same p.orm (in_window u key at) test
            (λ n. record n { read_at = some w.clock }) w.notifications (λ n. refl))
          (t.windows u key at);
    past =
        count-update_same p.orm (λ n. not (leb n.created_at w.clock)) test
          (λ n. record n { read_at = some w.clock }) w.notifications (λ n. refl)
        ∙ t.past;
  }

  tick-IsThrottled :
      (w : World) (ms : ℕ) → IsThrottled w → IsThrottled (record w { clock = w.clock + ms })
  tick-IsThrottled w ms t = record {
    windows = t.windows;
    past = omega (
      arith,
      t.past,
      count_mono (λ n. not (leb n.created_at (w.clock + ms))) (λ n. not (leb n.created_at w.clock))
          w.notifications (λ n h. ground arith),
    );
  }

  Step-IsThrottled : {v w : World} → Step v w → IsThrottled v → IsThrottled w
  unfolding process mark_read mark_all_read
  Step-IsThrottled (request w u ty pl a d plain) t = enqueue-IsThrottled u ty pl a d w plain t
  Step-IsThrottled (work w job plain) t = deliver-IsThrottled p job w plain t
  Step-IsThrottled (read w u id) t = reads-IsThrottled _ w t
  Step-IsThrottled (read_all w u) t = reads-IsThrottled _ w t
  Step-IsThrottled (tick w ms) t = tick-IsThrottled w ms t

  -- From a state in which it holds, after any sequence of enqueue requests, processed jobs (retries
  -- included), reads and waiting, with payloads that carry no `dedupeKey` of their own: at every
  -- time, a recipient has at most one notification of an idempotency key whose 60 seconds contain
  -- that time.
  pub Reach-IsThrottled :
      {v w : World}
      → IsThrottled v
      → Reach v w
      → (u : Uuid) (key : DedupeKey) (at : Date) → count (in_window u key at) w.notifications ≤ 1
  Reach-IsThrottled t r = (all t r).windows
    where
      all : {v w : World} → IsThrottled v → Reach v w → IsThrottled w
      all t here = t
      all t (next r s) = Step-IsThrottled s (all t r)
