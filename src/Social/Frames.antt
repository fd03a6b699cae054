-- ===== src/Social/Frames.antt =====
-- The statements of one relation leave the counters of the others as they are.
use mathlib.Core.Option
use componi_back_nest.Prelude.{◌≡◌, some}
use componi_back_nest.Entities.Accounts.{Uuid, Follow}
use componi_back_nest.Entities.Content.{Component, Like, Favorite}
use componi_back_nest.Platform.Orm.{Orm}
use componi_back_nest.Platform.Counters.{Counts-same, degree}
use componi_back_nest.Database.{Db}
use componi_back_nest.Moderation.Blocks.{drop_follow, uncount_follow, followers_inc, following_inc}
use componi_back_nest.Social.{
  component_id, insert_like, insert_favorite, insert_follow, drop_like, drop_favorite,
  set_component, set_user,
}
use componi_back_nest.Social.Invariant.{
  LikesCounted, FavoritesCounted, FollowsCounted, like_component, favorite_component, component_key,
}

module _ (o : Orm) where
  pub set_component-LikesCounted :
      (set : Component → Component) (c : Uuid) (d : Db)
      → ((x : Component) → (set x).id ≡ x.id)
      → ((x : Component) → (set x).likes_count ≡ x.likes_count)
      → LikesCounted d
      → LikesCounted (set_component o set c d)
  unfolding set_component
  set_component-LikesCounted set c d same kept v = record {
    once = v.once;
    counted =
        Counts-same o component_key (λ x. x.likes_count) (degree like_component d.likes)
          (degree like_component d.likes) c set d.components same (component_id c) kept v.counted;
  }

  pub set_component-FavoritesCounted :
      (set : Component → Component) (c : Uuid) (d : Db)
      → ((x : Component) → (set x).id ≡ x.id)
      → ((x : Component) → (set x).favorites_count ≡ x.favorites_count)
      → FavoritesCounted d
      → FavoritesCounted (set_component o set c d)
  unfolding set_component
  set_component-FavoritesCounted set c d same kept v = record {
    once = v.once;
    counted =
        Counts-same o component_key (λ x. x.favorites_count) (degree favorite_component d.favorites)
          (degree favorite_component d.favorites) c set d.components same (component_id c) kept
          v.counted;
  }

  pub set_component-FollowsCounted :
      (set : Component → Component) (c : Uuid) (d : Db)
      → FollowsCounted d
      → FollowsCounted (set_component o set c d)
  unfolding set_component
  set_component-FollowsCounted set c d v = record {
    once = v.once;
    following = v.following;
    followers = v.followers;
  }

-- All three at once.
pub record IsCounted (d : Db) : Type 0 where
  pub likes : LikesCounted d
  pub favorites : FavoritesCounted d
  pub follows : FollowsCounted d

module _ (o : Orm) (d d' : Db) (v : IsCounted d) where
  pub insert_like-others :
      (l : Like) → insert_like o l d ≡ some d' → FavoritesCounted d' × FollowsCounted d'
  unfolding insert_like
  insert_like-others l e =
      let (rows, done, same) = (Option.map-eq-some_iff _ _).0 e in
      rw (← same) (
        record { once = v.favorites.once; counted = v.favorites.counted },
        record {
          once = v.follows.once;
          following = v.follows.following;
          followers = v.follows.followers;
        },
      )

  pub insert_favorite-others :
      (f : Favorite) → insert_favorite o f d ≡ some d' → LikesCounted d' × FollowsCounted d'
  unfolding insert_favorite
  insert_favorite-others f e =
      let (rows, done, same) = (Option.map-eq-some_iff _ _).0 e in
      rw (← same) (
        record { once = v.likes.once; counted = v.likes.counted },
        record {
          once = v.follows.once;
          following = v.follows.following;
          followers = v.follows.followers;
        },
      )

  pub insert_follow-others :
      (f : Follow) (a b : Uuid)
      → insert_follow o f d ≡ some d'
      → LikesCounted (set_user o followers_inc b (set_user o following_inc a d'))
        × FavoritesCounted (set_user o followers_inc b (set_user o following_inc a d'))
  unfolding insert_follow set_user
  insert_follow-others f a b e =
      let (rows, done, same) = (Option.map-eq-some_iff _ _).0 e in
      rw (← same) (
        record { once = v.likes.once; counted = v.likes.counted },
        record { once = v.favorites.once; counted = v.favorites.counted },
      )

module _ (o : Orm) (d : Db) (v : IsCounted d) (a b : Uuid) where
  pub drop_like-others : FavoritesCounted (drop_like o a b d) × FollowsCounted (drop_like o a b d)
  unfolding drop_like
  drop_like-others = (
    record { once = v.favorites.once; counted = v.favorites.counted },
    record {
      once = v.follows.once;
      following = v.follows.following;
      followers = v.follows.followers;
    },
  )

  pub drop_favorite-others :
      LikesCounted (drop_favorite o a b d) × FollowsCounted (drop_favorite o a b d)
  unfolding drop_favorite
  drop_favorite-others = (
    record { once = v.likes.once; counted = v.likes.counted },
    record {
      once = v.follows.once;
      following = v.follows.following;
      followers = v.follows.followers;
    },
  )

  pub drop_follow-others :
      LikesCounted (drop_follow o a b d) × FavoritesCounted (drop_follow o a b d)
  unfolding drop_follow
  drop_follow-others = (
    record { once = v.likes.once; counted = v.likes.counted },
    record { once = v.favorites.once; counted = v.favorites.counted },
  )

module _ (o : Orm) (d : Db) (a b : Uuid) where
  pub uncount_follow-others :
      LikesCounted d × FavoritesCounted d
      → LikesCounted (uncount_follow o a b d) × FavoritesCounted (uncount_follow o a b d)
  unfolding uncount_follow
  uncount_follow-others (l, f) =
      (record { once = l.once; counted = l.counted }, record { once = f.once; counted = f.counted })
