-- ===== src/Social/Invariant.antt =====
-- Likes, favorites and follows against the counters that the service keeps: the invariants, and
-- that the pairs of statements by which a relation comes and goes keep them.
use mathlib.Core.Option
use componi_back_nest.Prelude.{◌<◌, ◌≡◌, refl, some, arith, count}
use componi_back_nest.Entities.Accounts.{Uuid, User, Follow}
use componi_back_nest.Entities.Content.{Component, Like, Favorite}
use componi_back_nest.Platform.Orm.{Orm}
use componi_back_nest.Platform.Counters.{
  Counts, Counts-cong, Counts-inc, Counts-dec, Counts-same, degree, degree-insert, degree-delete,
  degree-delete_none, Once, Once-insert, Once-delete,
}
use componi_back_nest.Database.{Db, like_of, favorite_of, follow_of}
use componi_back_nest.Moderation.Blocks.{
  has_id, following_inc, following_dec, followers_inc, followers_dec, drop_follow, uncount_follow,
}
use componi_back_nest.Social.{
  likes_inc, likes_dec, favorites_inc, favorites_dec, insert_like, insert_favorite, insert_follow,
  drop_like, drop_favorite, set_component, set_user,
}

abbrev pub like_user : Like → Uuid
like_user l = l.user_id

abbrev pub like_component : Like → Uuid
like_component l = l.component_id

abbrev pub favorite_user : Favorite → Uuid
favorite_user f = f.user_id

abbrev pub favorite_component : Favorite → Uuid
favorite_component f = f.component_id

abbrev pub follower : Follow → Uuid
follower f = f.follower_id

abbrev pub followee : Follow → Uuid
followee f = f.followee_id

abbrev pub component_key : Component → Uuid
component_key c = c.id

abbrev pub user_key : User → Uuid
user_key u = u.id

-- Each user likes a component at most once, and each component has as many likes as it says.
pub record LikesCounted (d : Db) : Type 0 where
  pub once : Once like_user like_component d.likes
  pub counted :
      Counts component_key (λ c. c.likes_count) (degree like_component d.likes) d.components

-- The same of favorites.
pub record FavoritesCounted (d : Db) : Type 0 where
  pub once : Once favorite_user favorite_component d.favorites
  pub counted :
      Counts component_key
        (λ c. c.favorites_count)
        (degree favorite_component d.favorites)
        d.components

-- Each user follows another at most once, and has as many followers and followees as the row says.
pub record FollowsCounted (d : Db) : Type 0 where
  pub once : Once follower followee d.follows
  pub following : Counts user_key (λ u. u.following_count) (degree follower d.follows) d.users
  pub followers : Counts user_key (λ u. u.followers_count) (degree followee d.follows) d.users

module _ (o : Orm) (d : Db) where
  pub add_like-LikesCounted :
      (l : Like) (d' : Db)
      → insert_like o l d ≡ some d'
      → LikesCounted d
      → LikesCounted (set_component o likes_inc l.component_id d')
  unfolding insert_like set_component
  add_like-LikesCounted l d' e v =
      let (rows, done, same) = (Option.map-eq-some_iff _ _).0 e in
      rw (← same) (record {
        once = Once-insert o like_user like_component d.likes l rows done v.once;
        counted =
            Counts-inc o component_key (λ c. c.likes_count) (degree like_component d.likes)
              (degree like_component rows) l.component_id likes_inc d.components (λ c. refl)
              (λ c. refl)
              (degree-insert o like_component (like_of l.user_id l.component_id) l.component_id
                d.likes l rows refl done)
              v.counted;
      })

  pub drop_like-LikesCounted :
      (u c : Uuid)
      → 0 < o.affected (like_of u c) d.likes
      → LikesCounted d
      → LikesCounted (set_component o likes_dec c (drop_like o u c d))
  unfolding set_component drop_like
  drop_like-LikesCounted u c some_row v = record {
    once = Once-delete o like_user like_component d.likes (like_of u c) v.once;
    counted =
        Counts-dec o component_key (λ c. c.likes_count) (degree like_component d.likes)
          (degree like_component (o.delete (like_of u c) d.likes)) c likes_dec d.components
          (λ c. refl) (λ c. refl)
          (degree-delete o like_component (like_of u c) c d.likes (λ r k. ground arith)
            (omega (arith, v.once u c, o.affected_lem (like_of u c) d.likes)))
          v.counted;
  }

  pub add_favorite-FavoritesCounted :
      (f : Favorite) (d' : Db)
      → insert_favorite o f d ≡ some d'
      → FavoritesCounted d
      → FavoritesCounted (set_component o favorites_inc f.component_id d')
  unfolding insert_favorite set_component
  add_favorite-FavoritesCounted f d' e v =
      let (rows, done, same) = (Option.map-eq-some_iff _ _).0 e in
      rw (← same) (record {
        once = Once-insert o favorite_user favorite_component d.favorites f rows done v.once;
        counted =
            Counts-inc o component_key (λ c. c.favorites_count)
              (degree favorite_component d.favorites) (degree favorite_component rows)
              f.component_id favorites_inc d.components (λ c. refl) (λ c. refl)
              (degree-insert o favorite_component (favorite_of f.user_id f.component_id)
                f.component_id d.favorites f rows refl done)
              v.counted;
      })

  pub drop_favorite-FavoritesCounted :
      (u c : Uuid)
      → 0 < o.affected (favorite_of u c) d.favorites
      → FavoritesCounted d
      → FavoritesCounted (set_component o favorites_dec c (drop_favorite o u c d))
  unfolding set_component drop_favorite
  drop_favorite-FavoritesCounted u c some_row v = record {
    once = Once-delete o favorite_user favorite_component d.favorites (favorite_of u c) v.once;
    counted =
        Counts-dec o component_key (λ c. c.favorites_count) (degree favorite_component d.favorites)
          (degree favorite_component (o.delete (favorite_of u c) d.favorites)) c favorites_dec
          d.components (λ c. refl) (λ c. refl)
          (degree-delete o favorite_component (favorite_of u c) c d.favorites (λ r k. ground arith)
            (omega (arith, v.once u c, o.affected_lem (favorite_of u c) d.favorites)))
          v.counted;
  }

  pub add_follow-FollowsCounted :
      (f : Follow) (d' : Db)
      → insert_follow o f d ≡ some d'
      → FollowsCounted d
      → FollowsCounted
          (set_user o followers_inc f.followee_id (set_user o following_inc f.follower_id d'))
  unfolding insert_follow set_user
  add_follow-FollowsCounted f d' e v =
      let (rows, done, same) = (Option.map-eq-some_iff _ _).0 e in
      rw (← same) (record {
        once = Once-insert o follower followee d.follows f rows done v.once;
        following =
            Counts-same o user_key (λ u. u.following_count) (degree follower rows)
              (degree follower rows) f.followee_id followers_inc _ (λ u. refl)
              (has_id f.followee_id) (λ u. refl)
              (Counts-inc o user_key (λ u. u.following_count) (degree follower d.follows)
                (degree follower rows) f.follower_id following_inc d.users (λ c. refl) (λ c. refl)
                (degree-insert o follower (follow_of f.follower_id f.followee_id) f.follower_id
                  d.follows f rows refl done)
                v.following);
        followers =
            Counts-inc o user_key (λ u. u.followers_count) (degree followee d.follows)
              (degree followee rows) f.followee_id followers_inc _ (λ c. refl) (λ c. refl)
              (degree-insert o followee (follow_of f.follower_id f.followee_id) f.followee_id
                d.follows f rows refl done)
              (Counts-same o user_key (λ u. u.followers_count) (degree followee d.follows)
                (degree followee d.follows) f.follower_id following_inc d.users (λ u. refl)
                (has_id f.follower_id) (λ u. refl) v.followers);
      })

  pub drop_follow-FollowsCounted :
      (a b : Uuid)
      → 0 < o.affected (follow_of a b) d.follows
      → FollowsCounted d
      → FollowsCounted (uncount_follow o a b (drop_follow o a b d))
  unfolding uncount_follow drop_follow
  drop_follow-FollowsCounted a b some_row v =
      let one : count (follow_of a b) d.follows ≡ 1 =
        omega (arith, v.once a b, o.affected_lem (follow_of a b) d.follows) in
      let rows = o.delete (follow_of a b) d.follows in
      record {
        once = Once-delete o follower followee d.follows (follow_of a b) v.once;
        following =
            Counts-same o user_key (λ u. u.following_count) (degree follower rows)
              (degree follower rows) b followers_dec _ (λ u. refl) (has_id b) (λ u. refl)
              (Counts-dec o user_key (λ u. u.following_count) (degree follower d.follows)
                (degree follower rows) a following_dec d.users (λ c. refl) (λ c. refl)
                (degree-delete o follower (follow_of a b) a d.follows (λ r k. ground arith) one)
                v.following);
        followers =
            Counts-dec o user_key (λ u. u.followers_count) (degree followee d.follows)
              (degree followee rows) b followers_dec _ (λ c. refl) (λ c. refl)
              (degree-delete o followee (follow_of a b) b d.follows (λ r k. ground arith) one)
              (Counts-same o user_key (λ u. u.followers_count) (degree followee d.follows)
                (degree followee d.follows) a following_dec d.users (λ u. refl) (has_id a)
                (λ u. refl) v.followers);
      }

  -- A delete that finds no row.
  pub no_like-LikesCounted :
      (u c : Uuid)
      → o.affected (like_of u c) d.likes ≡ 0
      → LikesCounted d
      → LikesCounted (drop_like o u c d)
  unfolding drop_like
  no_like-LikesCounted u c nothing v = record {
    once = Once-delete o like_user like_component d.likes (like_of u c) v.once;
    counted =
        Counts-cong component_key (λ c. c.likes_count) (degree like_component d.likes)
          (degree like_component (o.delete (like_of u c) d.likes)) d.components
          (degree-delete_none o like_component (like_of u c) c d.likes
            (omega (arith, o.affected_lem (like_of u c) d.likes)))
          v.counted;
  }

  pub no_favorite-FavoritesCounted :
      (u c : Uuid)
      → o.affected (favorite_of u c) d.favorites ≡ 0
      → FavoritesCounted d
      → FavoritesCounted (drop_favorite o u c d)
  unfolding drop_favorite
  no_favorite-FavoritesCounted u c nothing v = record {
    once = Once-delete o favorite_user favorite_component d.favorites (favorite_of u c) v.once;
    counted =
        Counts-cong component_key (λ c. c.favorites_count) (degree favorite_component d.favorites)
          (degree favorite_component (o.delete (favorite_of u c) d.favorites)) d.components
          (degree-delete_none o favorite_component (favorite_of u c) c d.favorites
            (omega (arith, o.affected_lem (favorite_of u c) d.favorites)))
          v.counted;
  }

  pub no_follow-FollowsCounted :
      (a b : Uuid)
      → o.affected (follow_of a b) d.follows ≡ 0
      → FollowsCounted d
      → FollowsCounted (drop_follow o a b d)
  unfolding drop_follow
  no_follow-FollowsCounted a b nothing v =
      let none_left : count (follow_of a b) d.follows ≡ 0 =
        omega (arith, o.affected_lem (follow_of a b) d.follows) in
      let rows = o.delete (follow_of a b) d.follows in
      record {
        once = Once-delete o follower followee d.follows (follow_of a b) v.once;
        following =
            Counts-cong user_key (λ u. u.following_count) (degree follower d.follows)
              (degree follower rows) d.users
              (degree-delete_none o follower (follow_of a b) a d.follows none_left) v.following;
        followers =
            Counts-cong user_key (λ u. u.followers_count) (degree followee d.follows)
              (degree followee rows) d.users
              (degree-delete_none o followee (follow_of a b) b d.follows none_left) v.followers;
      }
