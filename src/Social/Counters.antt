-- ===== src/Social/Counters.antt =====
-- Every handler of the service keeps the counters equal to the numbers of rows.
use componi_back_nest.Prelude.{refl, inl, inr}
use componi_back_nest.Entities.Accounts.{Uuid}
use componi_back_nest.Exec.{Platform, World}
use componi_back_nest.Social.{
  likes_inc, likes_dec, favorites_inc, favorites_dec, like_trx, unlike_trx, favorite_trx,
  unfavorite_trx, follow_trx, unfollow_trx,
}
use componi_back_nest.Moderation.Blocks.{drop_follow}
use componi_back_nest.Social.Invariant.{
  add_like-LikesCounted, drop_like-LikesCounted, no_like-LikesCounted,
  add_favorite-FavoritesCounted, drop_favorite-FavoritesCounted, no_favorite-FavoritesCounted,
  add_follow-FollowsCounted, drop_follow-FollowsCounted, no_follow-FollowsCounted,
}
use componi_back_nest.Social.Frames.{
  IsCounted, set_component-LikesCounted, set_component-FavoritesCounted,
  set_component-FollowsCounted, insert_like-others, insert_favorite-others, insert_follow-others,
  drop_like-others, drop_favorite-others, drop_follow-others, uncount_follow-others,
}
use componi_back_nest.Social.Effects.{
  like_row, favorite_row, follow_row, like_trx_db, unlike_trx_db, favorite_trx_db,
  unfavorite_trx_db, follow_trx_db, unfollow_trx_db,
}

module _ (p : Platform) (u c : Uuid) (w : World) (v : IsCounted w.db) where
  pub like_trx-IsCounted : IsCounted (like_trx p u c w).1.db
  like_trx-IsCounted = elim (like_trx_db p u c w) [
    | inl e ↦ rw e v
    | inr (d, e, h) ↦
        let (f, g) = insert_like-others p.orm w.db d v (like_row p u c w) e in
        rw h (record {
          likes = add_like-LikesCounted p.orm w.db (like_row p u c w) d e v.likes;
          favorites = set_component-FavoritesCounted p.orm likes_inc c d (λ x. refl) (λ x. refl) f;
          follows = set_component-FollowsCounted p.orm likes_inc c d g;
        })
  ]

  pub unlike_trx-IsCounted : IsCounted (unlike_trx p u c w).1.db
  unlike_trx-IsCounted =
      let (f, g) = drop_like-others p.orm w.db v u c in
      elim (unlike_trx_db p u c w) [
        | inl e ↦ rw e v
        | inr (inl (some_row, h)) ↦ rw h (record {
          likes = drop_like-LikesCounted p.orm w.db u c some_row v.likes;
          favorites = set_component-FavoritesCounted p.orm likes_dec c _ (λ x. refl) (λ x. refl) f;
          follows = set_component-FollowsCounted p.orm likes_dec c _ g;
        })
        | inr (inr (nothing, h)) ↦ rw h (record {
          likes = no_like-LikesCounted p.orm w.db u c nothing v.likes;
          favorites = f;
          follows = g;
        })
      ]

  pub favorite_trx-IsCounted : IsCounted (favorite_trx p u c w).1.db
  favorite_trx-IsCounted = elim (favorite_trx_db p u c w) [
    | inl e ↦ rw e v
    | inr (d, e, h) ↦
        let (l, g) = insert_favorite-others p.orm w.db d v (favorite_row p u c w) e in
        rw h (record {
          likes = set_component-LikesCounted p.orm favorites_inc c d (λ x. refl) (λ x. refl) l;
          favorites =
              add_favorite-FavoritesCounted p.orm w.db (favorite_row p u c w) d e v.favorites;
          follows = set_component-FollowsCounted p.orm favorites_inc c d g;
        })
  ]

  pub unfavorite_trx-IsCounted : IsCounted (unfavorite_trx p u c w).1.db
  unfavorite_trx-IsCounted =
      let (l, g) = drop_favorite-others p.orm w.db v u c in
      elim (unfavorite_trx_db p u c w) [
        | inl e ↦ rw e v
        | inr (inl (some_row, h)) ↦ rw h (record {
          likes = set_component-LikesCounted p.orm favorites_dec c _ (λ x. refl) (λ x. refl) l;
          favorites = drop_favorite-FavoritesCounted p.orm w.db u c some_row v.favorites;
          follows = set_component-FollowsCounted p.orm favorites_dec c _ g;
        })
        | inr (inr (nothing, h)) ↦ rw h (record {
          likes = l;
          favorites = no_favorite-FavoritesCounted p.orm w.db u c nothing v.favorites;
          follows = g;
        })
      ]

  pub follow_trx-IsCounted : IsCounted (follow_trx p u c w).1.db
  follow_trx-IsCounted = elim (follow_trx_db p u c w) [
    | inl e ↦ rw e v
    | inr (d, e, h) ↦
        let (l, f) = insert_follow-others p.orm w.db d v (follow_row p u c w) u c e in
        rw h (record {
          likes = l;
          favorites = f;
          follows = add_follow-FollowsCounted p.orm w.db (follow_row p u c w) d e v.follows;
        })
  ]

  pub unfollow_trx-IsCounted : IsCounted (unfollow_trx p u c w).1.db
  unfollow_trx-IsCounted =
      let others = drop_follow-others p.orm w.db v u c in
      elim (unfollow_trx_db p u c w) [
        | inl e ↦ rw e v
        | inr (inl (some_row, h)) ↦
            let (l, f) = uncount_follow-others p.orm (drop_follow p.orm u c w.db) u c others in
            rw h (record {
              likes = l;
              favorites = f;
              follows = drop_follow-FollowsCounted p.orm w.db u c some_row v.follows;
            })
        | inr (inr (nothing, h)) ↦ rw h (record {
          likes = others.0;
          favorites = others.1;
          follows = no_follow-FollowsCounted p.orm w.db u c nothing v.follows;
        })
      ]
