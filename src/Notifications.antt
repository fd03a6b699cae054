-- ===== src/Notifications.antt =====
-- notifications.service.ts and notifications.processor.ts: in-app notifications, queued or
-- delivered inline, and deduplicated by an idempotency key.
pub mod Dedupe
pub mod History
pub mod Repeat
pub mod Frame
use componi_back_nest.Prelude.{
  ◌+◌, Bool, true, false, ◌&&◌, Option, none, some, List, ◌==◌, ltb, is_none, is_some, or_else,
  if◌then◌else◌,
}
use componi_back_nest.Entities.Accounts.{
  Uuid, Date, Notification, NotificationType, DedupeKey, Payload,
}
use componi_back_nest.Messages.{NotificationJob, Job, notify, notify_id, same_dedupe_key}
use componi_back_nest.Exec.{
  Exec, Error, query_failed, unique_violation, failure, Platform, World, Result, ok, err, pure,
  gets, modify, ◌>>=◌, ◌>>◌,
}
use componi_back_nest.Realtime.Service.{notify_user}

-- n.payload->>'dedupeKey' = :dedupeKey
unfoldable pub has_key : DedupeKey → Option DedupeKey → Bool
has_key key none = false
has_key key (some other) = same_dedupe_key other key

-- The test of `deliver`: a notification of the recipient with the key, less than 60 s old.
unfoldable pub is_recent : Uuid → DedupeKey → Date → Notification → Bool
is_recent user_id key at n =
    n.user_id == user_id && (has_key key n.payload.dedupe_key && ltb at (n.created_at + 60000))

-- { ...payload, ...(dedupeKey ? { dedupeKey } : {}) }
unfoldable pub final_payload : NotificationJob → Payload
final_payload job = elim job.dedupe_key [
  | none ↦ job.payload
  | some key ↦ record job.payload { dedupe_key = some key }
]

-- The job that `enqueue` builds.
unfoldable pub make_job :
    Uuid → NotificationType → Payload → Option Uuid → Option DedupeKey → NotificationJob
make_job user_id type payload actor_id dedupe_key = record {
  user_id = user_id;
  type = type;
  actor_id = actor_id;
  payload = payload;
  dedupe_key = dedupe_key;
}

-- The row that `deliver` creates.
unfoldable pub new_notification : NotificationJob → Uuid → Date → Notification
unfolding final_payload
new_notification job id at = record {
  id = id;
  user_id = job.user_id;
  actor_id = job.actor_id;
  type = job.type;
  payload = final_payload job;
  read_at = none;
  created_at = at;
}

-- `try { await m } catch { log }`
unfoldable pub swallow : Exec Unit → Exec Unit
swallow m w = (ok tt, (m w).1)

module _ (p : Platform) where
  -- Does `deliver` skip the job?
  unfoldable pub already_sent : NotificationJob → World → Bool
  unfolding is_recent has_key
  already_sent job w = elim job.dedupe_key [
    | none ↦ false
    | some key ↦ is_some (p.orm.find_one (is_recent job.user_id key w.clock) w.notifications)
  ]

  unfoldable pub save : NotificationJob → Exec Unit
  unfolding new_notification
  save job w =
      let id = w.uuids w.drawn in
      elim (p.orm.insert (λ n. n.id == id) (new_notification job id w.clock) w.notifications) [
        | none ↦ (err (query_failed unique_violation), record w { drawn = w.drawn + 1 })
        | some rows ↦ (ok tt, record w { notifications = rows; drawn = w.drawn + 1 })
      ]

  unfoldable pub deliver : NotificationJob → Exec Unit
  unfolding already_sent save notify_user
  deliver job = do
    recent ← gets (already_sent job)
    if recent
        then pure tt
        else do save job; notify_user p job.user_id job.type job.actor_id (final_payload job)

  -- this.queue.add(type, job, { jobId })
  unfoldable pub add_job : Job → Exec Unit
  add_job job w = elim (p.bull.add job w.jobs) [
    | none ↦ (err (failure "queue"), w)
    | some jobs ↦ (ok tt, record w { jobs = jobs })
  ]

  unfoldable pub to_self : Option Uuid → Uuid → Bool
  to_self none user_id = false
  to_self (some actor) user_id = actor == user_id

  unfoldable pub queued : NotificationJob → Job
  queued job = record {
    body = notify job;
    job_id = elim job.dedupe_key [ none ↦ none | some d ↦ some (notify_id job.type job.user_id d) ];
  }

  unfoldable pub enqueue :
      Uuid → NotificationType → Payload → Option Uuid → Option DedupeKey → Exec Unit
  unfolding to_self queued swallow make_job
  enqueue user_id type payload actor_id dedupe_key =
      if to_self actor_id user_id
      then pure tt
      else let job = make_job user_id type payload actor_id dedupe_key in
        if p.config.workers_enabled then add_job (queued job) else swallow (deliver job)

  -- NotificationsProcessor.process: a failure is thrown on, for BullMQ to retry.
  unfoldable pub process : NotificationJob → Exec Unit
  process job = deliver job

  unfoldable pub mark_read : Uuid → Uuid → Exec Unit
  mark_read user_id id = modify λ w. record w {
    notifications =
        p.orm.update (λ n. n.id == id && n.user_id == user_id)
          (λ n. record n { read_at = some w.clock }) w.notifications;
  }

  unfoldable pub mark_all_read : Uuid → Exec Unit
  mark_all_read user_id = modify λ w. record w {
    notifications =
        p.orm.update (λ n. n.user_id == user_id && is_none n.read_at)
          (λ n. record n { read_at = some w.clock }) w.notifications;
  }
