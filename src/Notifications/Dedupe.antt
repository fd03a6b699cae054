-- ===== src/Notifications/Dedupe.antt =====
-- The idempotency of `deliver` and the bound that it keeps on a recipient's inbox.
use componi_back_nest.Prelude.{
  ◌+◌, ◌≤◌, ◌≡◌, Bool, true, false, not, ◌&&◌, none, some, List, arith, count, count_mono, Every,
  ◌==◌, ltb, leb, Option-cases, Bool-cases, inl, inr,
}
use componi_back_nest.Entities.Accounts.{
  Uuid, Date, Notification, DedupeKey, like_key, favorite_key, follow_key, fork_key,
}
use componi_back_nest.Messages.{NotificationJob, same_dedupe_key}
use componi_back_nest.Exec.{Platform, World, Result, ok, err, continue}
use componi_back_nest.Realtime.Service.{notify_user}
use componi_back_nest.Notifications.{
  is_recent, has_key, already_sent, final_payload, new_notification, save, deliver,
}

-- A notification of the recipient with the key, whose 60 s hold the time.
abbrev pub in_window : Uuid → DedupeKey → Date → Notification → Bool
in_window user_id key at n =
    n.user_id == user_id
    && (has_key key n.payload.dedupe_key && (leb n.created_at at && ltb at (n.created_at + 60000)))

pub record IsThrottled (w : World) : Type 0 where
  pub windows :
      (u : Uuid) (key : DedupeKey) (at : Date) → count (in_window u key at) w.notifications ≤ 1
  pub past : Every (λ n. leb n.created_at w.clock) w.notifications

pub same_dedupe_key_refl : (d : DedupeKey) → same_dedupe_key d d ≡ true
same_dedupe_key_refl (like_key a b) = ground arith
same_dedupe_key_refl (favorite_key a b) = ground arith
same_dedupe_key_refl (follow_key a b) = ground arith
same_dedupe_key_refl (fork_key a) = ground arith

eq_of_same_dedupe_key : (d e : DedupeKey) → same_dedupe_key d e ≡ true → d ≡ e
eq_of_same_dedupe_key (like_key a b) e h = ground arith
eq_of_same_dedupe_key (favorite_key a b) e h = ground arith
eq_of_same_dedupe_key (follow_key a b) e h = ground arith
eq_of_same_dedupe_key (fork_key a) e h = ground arith

module _ (p : Platform) (job : NotificationJob) (w : World) where
  -- A key that is not skipped has no recent notification.
  none_recent :
      (key : DedupeKey)
      → job.dedupe_key ≡ some key
      → already_sent p job w ≡ false
      → count (is_recent job.user_id key w.clock) w.notifications ≡ 0
  unfolding already_sent
  none_recent key e h =
      p.orm.find_one_none (is_recent job.user_id key w.clock) w.notifications (ground arith)

  -- The row that is saved falls into a window only if its key is the job's.
  new-in_window :
      (u id : Uuid) (key : DedupeKey) (at : Date)
      → job.payload.dedupe_key ≡ none
      → in_window u key at (new_notification job id w.clock) ≡ true
      → (job.dedupe_key ≡ some key) × (u ≡ job.user_id) × (w.clock ≤ at)
  unfolding new_notification has_key
  new-in_window u id key at plain h = elim (Option-cases job.dedupe_key) [
    | inl e ↦ ground arith
    | inr (d, e) ↦ (ground (arith, eq_of_same_dedupe_key d key), ground arith, ground arith)
  ]

  -- A notification in a window that reaches past now is recent.
  old-in_window :
      (key : DedupeKey) (at : Date) (n : Notification)
      → w.clock ≤ at
      → in_window job.user_id key at n ≡ true
      → is_recent job.user_id key w.clock n ≡ true
  unfolding is_recent
  old-in_window key at n later h = ground arith

  saved-windows :
      (id : Uuid) (rows : List Notification)
      → job.payload.dedupe_key ≡ none
      → already_sent p job w ≡ false
      → p.orm.insert (λ n. n.id == id) (new_notification job id w.clock) w.notifications ≡ some rows
      → IsThrottled w
      → (u : Uuid) (key : DedupeKey) (at : Date) → count (in_window u key at) rows ≤ 1
  saved-windows id rows plain fresh e t u key at =
      let n = new_notification job id w.clock in
      let total =
        p.orm.count-insert (in_window u key at) (λ n. n.id == id) n w.notifications rows e in
      elim (Bool-cases (in_window u key at n)) [
        | inr out ↦ rw (total, out) (omega (arith, t.windows u key at))
        | inl within ↦
            let (keyed, mine, later) = new-in_window u id key at plain within in
            let old =
              count_mono (in_window job.user_id key at) (is_recent job.user_id key w.clock)
                w.notifications (λ m. old-in_window key at m later) in
            rw (total, within, mine) (omega (arith, none_recent key keyed fresh, old))
      ]

  saved-past :
      (id : Uuid) (rows : List Notification)
      → p.orm.insert (λ n. n.id == id) (new_notification job id w.clock) w.notifications ≡ some rows
      → IsThrottled w
      → Every (λ n. leb n.created_at w.clock) rows
  unfolding new_notification
  saved-past id rows e t =
      rw
        (p.orm.count-insert (λ n. not (leb n.created_at w.clock)) (λ n. n.id == id) _
          w.notifications rows e)
        (rw t.past (ground arith))

  save-IsThrottled :
      job.payload.dedupe_key ≡ none
      → already_sent p job w ≡ false
      → IsThrottled w
      → IsThrottled (save p job w).1
  unfolding save
  save-IsThrottled plain fresh t =
      elim (Option-cases (
        p.orm.insert (λ n. n.id == w.uuids w.drawn) (new_notification job (w.uuids w.drawn) w.clock)
          w.notifications)) [
            | inl e ↦ rw (e, save) (record { windows = t.windows; past = t.past })
            | inr (rows, e) ↦
                rw (e, save)
                  (record {
                    windows = saved-windows (w.uuids w.drawn) rows plain fresh e t;
                    past = saved-past (w.uuids w.drawn) rows e t;
                  })
          ]

module _ (p : Platform) where
  -- The realtime nudge after `save` touches no notification and not the clock.
  notify-IsThrottled :
      (job : NotificationJob) (r : Result Unit) (w : World)
      → IsThrottled w
      → IsThrottled
          (continue r
            (λ _. notify_user p job.user_id job.type job.actor_id (final_payload job))
            w).1
  unfolding notify_user
  notify-IsThrottled job (ok tt) w t = elim (Bool-cases p.config.realtime_enabled) [
    | inl e ↦ rw e (record { windows = t.windows; past = t.past })
    | inr e ↦ rw e t
  ]
  notify-IsThrottled job (err e) w t = t

  pub deliver-IsThrottled :
      (job : NotificationJob) (w : World)
      → job.payload.dedupe_key ≡ none
      → IsThrottled w
      → IsThrottled (deliver p job w).1
  unfolding deliver
  deliver-IsThrottled job w plain t = elim (Bool-cases (already_sent p job w)) [
    | inl e ↦ rw e t
    | inr e ↦ rw e (
        notify-IsThrottled job (save p job w).0 (save p job w).1
          (save-IsThrottled p job w plain e t))
  ]
