-- ===== src/Examples/Delivery.antt =====
-- Notifications and the cache.
use componi_back_nest.Prelude.{
  ◌+◌, ◌≤◌, ◌≡◌, refl, inl, String, true, false, none, some, [], ◌∷◌, arith, count,
}
use componi_back_nest.Entities.Accounts.{NotificationType, like_key}
use componi_back_nest.Messages.{NotificationJob, component_public, component, feed_trending}
use componi_back_nest.Exec.{World, ok, wait}
use componi_back_nest.Social.{plain_payload}
use componi_back_nest.Instances.Tables.{find_one, insert}
use componi_back_nest.Instances.Keys.{redis_in_memory, apply_all, without}
use componi_back_nest.Instances.Deployment.{deployment}
use componi_back_nest.Examples.Start.{start, no_keys}
use componi_back_nest.Notifications.{enqueue, process, deliver, already_sent, save}
use componi_back_nest.Notifications.Dedupe.{IsThrottled, in_window}
use componi_back_nest.Notifications.History.{
  Reach, here, next, request, work, tick, Reach-IsThrottled,
}
use componi_back_nest.Notifications.Repeat.{deliver_again}
use componi_back_nest.Cache.{
  Json, get, set, invalidate_tags, purge, purge_all, drop_tag, drop_members,
}
use componi_back_nest.Cache.Invalidation.{OnlyKeys}
use componi_back_nest.Cache.Eviction.{get-invalidate_tags}
use componi_back_nest.Platform.Redis.{contains}
use componi_back_nest.Realtime.Service.{notify_user}

-- User 1 likes component 10 of user 2.
abbrev a_like : NotificationJob
a_like = record {
  user_id = 2;
  type = NotificationType.like;
  actor_id = some 1;
  payload = plain_payload (some 10);
  dedupe_key = some (like_key 1 10);
}

start-IsThrottled : IsThrottled start
unfolding count
start-IsThrottled = record { windows = λ u key at. omega arith; past = refl }

-- The notification is requested, and a minute later delivered again.
abbrev requested : World
requested =
    (enqueue deployment 2 NotificationType.like (plain_payload (some 10)) (some 1)
      (some (like_key 1 10)) start).1

abbrev delivered : World
delivered = (process deployment a_like (wait 60000 requested)).1

twice : Reach deployment start delivered
twice =
    next
      (next
        (next here (
          request start 2 NotificationType.like (plain_payload (some 10)) (some 1)
            (some (like_key 1 10)) refl))
        (tick requested 60000))
      (work (wait 60000 requested) a_like refl)

Reach-IsThrottled_example : count (in_window 2 (like_key 1 10) 1000000) delivered.notifications ≤ 1
Reach-IsThrottled_example =
    Reach-IsThrottled deployment start-IsThrottled twice 2 (like_key 1 10) 1000000

not_sent : already_sent deployment a_like start ≡ false
unfolding already_sent deployment find_one
not_sent = refl

sent : (deliver deployment a_like start).0 ≡ ok tt
unfolding deliver save already_sent deployment find_one insert notify_user
sent = refl

deliver_again_example :
    deliver deployment a_like
      (record (deliver deployment a_like start).1 { clock = 1000000 + 59999 })
    ≡ (ok tt, record (deliver deployment a_like start).1 { clock = 1000000 + 59999 })
deliver_again_example =
    deliver_again deployment a_like start (like_key 1 10) 59999 refl not_sent sent (omega arith)

abbrev texts : Json String
texts = record { stringify = λ s. s; parse = λ s. some s }

no_keys-OnlyKeys : OnlyKeys 1000000 no_keys
unfolding contains
no_keys-OnlyKeys at s t later = refl

abbrev page : World
page =
    wait 500 (set deployment texts (component_public 10) "button" 120 (component 10 ∷ []) start).1

reached :
    (purge_all deployment.redis page.clock (component 10 ∷ feed_trending ∷ []) (true, page.redis)).0
    ≡ true
unfolding purge_all purge drop_tag drop_members deployment redis_in_memory set apply_all without
reached = refl

get-invalidate_tags_example :
    get deployment texts
      (component_public 10)
      (wait 1 (invalidate_tags deployment (component 10 ∷ feed_trending ∷ []) page).1)
    ≡ none
unfolding set
get-invalidate_tags_example =
    get-invalidate_tags deployment texts (component_public 10) "button" 120 (component 10 ∷ [])
      (component 10 ∷ feed_trending ∷ []) (component 10) start 500 1 refl no_keys-OnlyKeys
      (inl refl) (inl refl) reached
