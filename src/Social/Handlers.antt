-- ===== src/Social/Handlers.antt =====
-- A property of the database alone that the transaction of a handler keeps, the handler keeps:
-- the transaction ends before the notification and the realtime event.
use componi_back_nest.Prelude.{
  ◌≡◌, sym, subst, Bool, true, false, Option, none, some, arith, ◌==◌, not, ℤ,
}
use componi_back_nest.Entities.Accounts.{
  Uuid, NotificationType, like_key, favorite_key, follow_key, Payload, DedupeKey,
}
use componi_back_nest.Entities.Content.{Component}
use componi_back_nest.Database.{Db}
use componi_back_nest.Exec.{
  Exec, Platform, World, transaction, transaction_db, bind_keeps, require, bad_request, ◌>>=◌,
}
use componi_back_nest.Notifications.{enqueue}
use componi_back_nest.Notifications.Frame.{enqueue_db}
use componi_back_nest.Realtime.Service.{component_liked, component_unliked, user_followed}
use componi_back_nest.Social.{
  like_trx, unlike_trx, favorite_trx, unfavorite_trx, follow_trx, unfollow_trx, announce_like,
  announce_unlike, announce_favorite, announce_follow, like, unlike, favorite, unfavorite, follow,
  unfollow, plain_payload,
}

abbrev clean : World → World
clean w = record w { aborted = false }

module _ (p : Platform) (P : Db → Type 0) where
  enqueue_then :
      (a : Uuid) (t : NotificationType) (l : Payload) (b : Option Uuid) (k : Option DedupeKey)
      (next : Exec Unit) (s : World)
      → ((v : World) → (next v).1.db ≡ v.db)
      → P s.db
      → P ((enqueue p a t l b k >>= λ _. next) s).1.db
  enqueue_then a t l b k next s frame h =
      bind_keeps (λ v. P v.db) (enqueue p a t l b k) (λ _. next) s
        (subst P (sym (enqueue_db p a t l b k s)) h) (λ _ v g. subst P (sym (frame v)) g)

  liked_db : (c u : Uuid) (n : ℤ) (v : World) → (component_liked p c u n v).1.db ≡ v.db
  unfolding component_liked
  liked_db c u n v = ground arith

  unliked_db : (c u : Uuid) (n : ℤ) (v : World) → (component_unliked p c u n v).1.db ≡ v.db
  unfolding component_unliked
  unliked_db c u n v = ground arith

  followed_db : (c u : Uuid) (n : ℤ) (v : World) → (user_followed p c u n v).1.db ≡ v.db
  unfolding user_followed
  followed_db c u n v = ground arith

  announce_like-keeps :
      (u c : Uuid) (r : Option (Uuid × ℤ)) (s : World) → P s.db → P (announce_like p u c r s).1.db
  unfolding announce_like
  announce_like-keeps u c none s h = h
  announce_like-keeps u c (some (a, n)) s h =
      enqueue_then a NotificationType.like (plain_payload (some c)) (some u) (some (like_key u c))
        (component_liked p c u n) s (liked_db c u n) h

  announce_unlike-keeps :
      (u c : Uuid) (r : Option ℤ) (s : World) → P s.db → P (announce_unlike p u c r s).1.db
  unfolding announce_unlike
  announce_unlike-keeps u c none s h = h
  announce_unlike-keeps u c (some n) s h = subst P (sym (unliked_db c u n s)) h

  announce_favorite-keeps :
      (u c : Uuid) (r : Option Component) (s : World)
      → P s.db
      → P (announce_favorite p u c r s).1.db
  unfolding announce_favorite
  announce_favorite-keeps u c none s h = h
  announce_favorite-keeps u c (some x) s h =
      subst P
        (sym (
          enqueue_db p x.author_id NotificationType.favorite (plain_payload (some c)) (some u)
            (some (favorite_key u c)) s))
        h

  announce_follow-keeps :
      (a b : Uuid) (r : Option ℤ) (s : World) → P s.db → P (announce_follow p a b r s).1.db
  unfolding announce_follow
  announce_follow-keeps a b none s h = h
  announce_follow-keeps a b (some n) s h =
      enqueue_then b NotificationType.follow (plain_payload none) (some a) (some (follow_key a b))
        (user_followed p b a n) s (followed_db b a n) h

  -- The handlers.
  pub like-keeps :
      (u c : Uuid) (w : World) → P w.db → P (like_trx p u c (clean w)).1.db → P (like p u c w).1.db
  unfolding like
  like-keeps u c w h k =
      bind_keeps (λ s. P s.db) (transaction p.orm (like_trx p u c)) (announce_like p u c) w
        (transaction_db p.orm P (like_trx p u c) w h (λ _ _. k)) (announce_like-keeps u c)

  pub unlike-keeps :
      (u c : Uuid) (w : World)
      → P w.db
      → P (unlike_trx p u c (clean w)).1.db
      → P (unlike p u c w).1.db
  unfolding unlike
  unlike-keeps u c w h k =
      bind_keeps (λ s. P s.db) (transaction p.orm (unlike_trx p u c)) (announce_unlike p u c) w
        (transaction_db p.orm P (unlike_trx p u c) w h (λ _ _. k)) (announce_unlike-keeps u c)

  pub favorite-keeps :
      (u c : Uuid) (w : World)
      → P w.db
      → P (favorite_trx p u c (clean w)).1.db
      → P (favorite p u c w).1.db
  unfolding favorite
  favorite-keeps u c w h k =
      bind_keeps (λ s. P s.db) (transaction p.orm (favorite_trx p u c)) (announce_favorite p u c) w
        (transaction_db p.orm P (favorite_trx p u c) w h (λ _ _. k)) (announce_favorite-keeps u c)

  pub unfavorite-keeps :
      (u c : Uuid) (w : World)
      → P w.db
      → P (unfavorite_trx p u c (clean w)).1.db
      → P (unfavorite p u c w).1.db
  unfolding unfavorite
  unfavorite-keeps u c w h k = transaction_db p.orm P (unfavorite_trx p u c) w h (λ _ _. k)

  pub follow-keeps :
      (a b : Uuid) (w : World)
      → P w.db
      → P (follow_trx p a b (clean w)).1.db
      → P (follow p a b w).1.db
  unfolding follow
  follow-keeps a b w h k = checked (not (a == b))
    where
      checked :
          (t : Bool)
          → P
              ((require t (bad_request "Cannot follow yourself") >>= λ _.
                  transaction p.orm (follow_trx p a b) >>= announce_follow p a b)
                w).1.db
      checked false = h
      checked true =
          bind_keeps (λ s. P s.db) (transaction p.orm (follow_trx p a b)) (announce_follow p a b) w
            (transaction_db p.orm P (follow_trx p a b) w h (λ _ _. k)) (announce_follow-keeps a b)

  pub unfollow-keeps :
      (a b : Uuid) (w : World)
      → P w.db
      → P (unfollow_trx p a b (clean w)).1.db
      → P (unfollow p a b w).1.db
  unfolding unfollow
  unfollow-keeps a b w h k = transaction_db p.orm P (unfollow_trx p a b) w h (λ _ _. k)
