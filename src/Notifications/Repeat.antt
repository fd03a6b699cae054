-- ===== src/Notifications/Repeat.antt =====
-- A second delivery of the same job, by a retry of BullMQ or by the same action repeated.
use componi_back_nest.Prelude.{
  ℕ, ◌+◌, ◌<◌, ◌≡◌, refl, true, false, some, arith, ◌==◌, Option-cases, Bool-cases, inl, inr,
}
use componi_back_nest.Platform.Orm.{find_one-found}
use componi_back_nest.Entities.Accounts.{Uuid, DedupeKey}
use componi_back_nest.Messages.{NotificationJob}
use componi_back_nest.Exec.{Platform, World, Result, ok, err, continue}
use componi_back_nest.Realtime.Service.{notify_user}
use componi_back_nest.Notifications.{
  is_recent, has_key, final_payload, already_sent, new_notification, save, deliver,
}
use componi_back_nest.Notifications.Dedupe.{same_dedupe_key_refl}

skipped :
    (p : Platform) (job : NotificationJob) (v : World)
    → already_sent p job v ≡ true
    → deliver p job v ≡ (ok tt, v)
unfolding deliver
skipped p job v h = rw h

module _ (p : Platform) (job : NotificationJob) (w : World) where
  new-is_recent :
      (key : DedupeKey) (later : ℕ) (id : Uuid)
      → job.dedupe_key ≡ some key
      → later < 60000
      → is_recent job.user_id key (w.clock + later) (new_notification job id w.clock) ≡ true
  unfolding is_recent has_key new_notification
  new-is_recent key later id keyed soon = ground (arith, same_dedupe_key_refl key)

  -- The row that is inserted is found by the next delivery of the job.
  insert-already_sent :
      (v : World) (key : DedupeKey) (later : ℕ) (id : Uuid)
      → job.dedupe_key ≡ some key
      → later < 60000
      → v.clock ≡ w.clock + later
      → p.orm.insert (λ n. n.id == id) (new_notification job id w.clock) w.notifications
        ≡ some v.notifications
      → already_sent p job v ≡ true
  unfolding already_sent
  insert-already_sent v key later id keyed soon time e = ground (
    arith,
    new-is_recent key later id keyed soon,
    find_one-found p.orm (is_recent job.user_id key v.clock) v.notifications,
    p.orm.count-insert (is_recent job.user_id key v.clock) (λ n. n.id == id)
        (new_notification job id w.clock) w.notifications v.notifications e,
  )

  save-already_sent :
      (key : DedupeKey) (later : ℕ)
      → job.dedupe_key ≡ some key
      → (save p job w).0 ≡ ok tt
      → later < 60000
      → already_sent p job (record (save p job w).1 { clock = w.clock + later }) ≡ true
  unfolding save
  save-already_sent key later keyed saved soon =
      elim (Option-cases (
        p.orm.insert (λ n. n.id == w.uuids w.drawn) (new_notification job (w.uuids w.drawn) w.clock)
          w.notifications)) [
            | inl e ↦ ground arith
            | inr (rows, e) ↦
                rw (e, save) (insert-already_sent _ key later (w.uuids w.drawn) keyed soon refl e)
          ]

  -- The nudge leaves the test of the next delivery as it was.
  notify-already_sent :
      (r : Result Unit) (v : World) (time : ℕ)
      → already_sent p job (record v { clock = time }) ≡ true
      → already_sent p job
          (record (continue r
            (λ _. notify_user p job.user_id job.type job.actor_id (final_payload job))
            v).1 { clock = time })
        ≡ true
  unfolding notify_user already_sent
  notify-already_sent (ok tt) v time h = elim (Bool-cases p.config.realtime_enabled) [
    | inl e ↦ rw e h
    | inr e ↦ rw e h
  ]
  notify-already_sent (err x) v time h = h

  continue_ok :
      (r : Result Unit) (v : World)
      → (continue r (λ _. notify_user p job.user_id job.type job.actor_id (final_payload job)) v).0
        ≡ ok tt
      → r ≡ ok tt
  continue_ok (ok tt) v h = refl
  continue_ok (err x) v h = h

  deliver-already_sent :
      (key : DedupeKey) (later : ℕ)
      → job.dedupe_key ≡ some key
      → already_sent p job w ≡ false
      → (deliver p job w).0 ≡ ok tt
      → later < 60000
      → already_sent p job (record (deliver p job w).1 { clock = w.clock + later }) ≡ true
  unfolding deliver
  deliver-already_sent key later keyed fresh done soon = rw fresh (
      notify-already_sent (save p job w).0 (save p job w).1 (w.clock + later) (
        save-already_sent key later keyed
          (continue_ok (save p job w).0 (save p job w).1 (rw fresh at done)) soon))

  -- Once a job with a dedupe key has been delivered, delivering it again within 60 seconds
  -- succeeds and changes nothing: no second row, no second realtime event.
  pub deliver_again :
      (key : DedupeKey) (later : ℕ)
      → job.dedupe_key ≡ some key
      → already_sent p job w ≡ false
      → (deliver p job w).0 ≡ ok tt
      → later < 60000
      → deliver p job (record (deliver p job w).1 { clock = w.clock + later })
        ≡ (ok tt, record (deliver p job w).1 { clock = w.clock + later })
  deliver_again key later keyed fresh done soon =
      skipped p job (record (deliver p job w).1 { clock = w.clock + later })
        (deliver-already_sent key later keyed fresh done soon)
