-- ===== src/Social/Wall/Requests.antt =====
-- Every request keeps the wall between blocked users.
use mathlib.Core.Option
use componi_back_nest.Prelude.{
  ◌≡◌, refl, true, false, Option, List, String, arith, Bool-cases, Option-cases, inl, inr, ◌==◌,
}
use componi_back_nest.Entities.Accounts.{Uuid}
use componi_back_nest.Exec.{Platform, World}
use componi_back_nest.Moderation.Blocks.{either_way, block_trx, unblock, blocked_pair, new_block}
use componi_back_nest.Moderation.Blocks.Effects.{block_row, block_trx_db}
use componi_back_nest.Social.{
  set_component, insert_like, insert_favorite, drop_like, drop_favorite, follow_target, follow_trx,
  like_trx, unlike_trx, favorite_trx, unfavorite_trx, unfollow_trx,
}
use componi_back_nest.Social.Effects.{
  follow_row, follow_trx_db, like_trx_db, unlike_trx_db, favorite_trx_db, unfavorite_trx_db,
  unfollow_trx_db,
}
use componi_back_nest.Social.{follow}
use componi_back_nest.Social.Wall.{
  WallStands, insert_follow-WallStands, block-WallStands, unlink_one-WallStands,
  uncounted-WallStands, unblock-WallStands,
}
use componi_back_nest.Social.Handlers.{
  like-keeps, unlike-keeps, favorite-keeps, unfavorite-keeps, follow-keeps, unfollow-keeps,
}
use componi_back_nest.Social.History.{
  Action, likes, unlikes, favorites, unfavorites, follows, unfollows, unblocks, blocks, perform,
  perform_all, perform_all-keeps, block-keeps,
}

module _ (p : Platform) (w : World) (wall : WallStands w.db) where
  like_trx-WallStands : (u c : Uuid) → WallStands (like_trx p u c w).1.db
  unfolding insert_like set_component
  like_trx-WallStands u c = elim (like_trx_db p u c w) [
    | inl e ↦ rw e wall
    | inr (d, e, h) ↦
        let (rows, done, same) = (Option.map-eq-some_iff _ _).0 e in rw (h) (rw (← same) wall)
  ]

  unlike_trx-WallStands : (u c : Uuid) → WallStands (unlike_trx p u c w).1.db
  unfolding drop_like set_component
  unlike_trx-WallStands u c = elim (unlike_trx_db p u c w) [
    | inl e ↦ rw e wall
    | inr (inl (_, h)) ↦ rw h wall
    | inr (inr (_, h)) ↦ rw h wall
  ]

  favorite_trx-WallStands : (u c : Uuid) → WallStands (favorite_trx p u c w).1.db
  unfolding insert_favorite set_component
  favorite_trx-WallStands u c = elim (favorite_trx_db p u c w) [
    | inl e ↦ rw e wall
    | inr (d, e, h) ↦
        let (rows, done, same) = (Option.map-eq-some_iff _ _).0 e in rw (h) (rw (← same) wall)
  ]

  unfavorite_trx-WallStands : (u c : Uuid) → WallStands (unfavorite_trx p u c w).1.db
  unfolding drop_favorite set_component
  unfavorite_trx-WallStands u c = elim (unfavorite_trx_db p u c w) [
    | inl e ↦ rw e wall
    | inr (inl (_, h)) ↦ rw h wall
    | inr (inr (_, h)) ↦ rw h wall
  ]

  unfollow_trx-WallStands : (u c : Uuid) → WallStands (unfollow_trx p u c w).1.db
  unfollow_trx-WallStands u c = elim (unfollow_trx_db p u c w) [
    | inl e ↦ rw e wall
    | inr (inl (_, h)) ↦ rw h (uncounted-WallStands p.orm w.db wall u c)
    | inr (inr (_, h)) ↦ rw h (unlink_one-WallStands p.orm w.db wall u c)
  ]

  block_trx-WallStands :
      (trim : String → String) (a b : Uuid) (reason : Option String)
      → w.aborted ≡ false
      → WallStands (block_trx p trim a b reason w).1.db
  unfolding new_block
  block_trx-WallStands trim a b reason clean = elim (block_trx_db p trim a b reason w clean) [
    | inl e ↦ rw e wall
    | inr (d, e, h) ↦
        rw h (block-WallStands p.orm w.db d (block_row p trim a b reason w clean) wall e)
  ]

  -- A follow across a block throws.
  refused-follow : (u c : Uuid) → blocked_pair p u c w.db ≡ true → (follow_trx p u c w).1 ≡ w
  unfolding follow_trx follow_target blocked_pair
  refused-follow u c blocked = ground arith

  follow_trx-WallStands : (u c : Uuid) → (u == c) ≡ false → WallStands (follow_trx p u c w).1.db
  unfolding blocked_pair
  follow_trx-WallStands u c other =
      elim (Option-cases (p.orm.find_one (either_way u c) w.db.blocks)) [
        | inl free ↦ elim (follow_trx_db p u c w) [
          | inl e ↦ rw e wall
          | inr (d, e, h) ↦ rw h (
              insert_follow-WallStands p.orm w.db d (follow_row p u c w)
                (p.orm.find_one_none (either_way u c) w.db.blocks free) wall e)
        ]
        | inr (r, found) ↦ rw (refused-follow u c (rw (other, found) refl)) wall
      ]

module _ (p : Platform) (trim : String → String) where
  no_self-follow : (a b : Uuid) (w : World) → (a == b) ≡ true → (follow p a b w).1 ≡ w
  unfolding follow
  no_self-follow a b w own = rw own refl

  follow-WallStands : (a b : Uuid) (w : World) → WallStands w.db → WallStands (follow p a b w).1.db
  follow-WallStands a b w wall = elim (Bool-cases (a == b)) [
    | inl own ↦ rw (no_self-follow a b w own) wall
    | inr other ↦ follow-keeps p WallStands a b w wall (follow_trx-WallStands p _ wall a b other)
  ]

  perform-WallStands :
      (a : Action) (w : World) → WallStands w.db → WallStands (perform p trim a w).1.db
  unfolding perform unblock
  perform-WallStands (likes u c) w v =
      like-keeps p WallStands u c w v (like_trx-WallStands p _ v u c)
  perform-WallStands (unlikes u c) w v =
      unlike-keeps p WallStands u c w v (unlike_trx-WallStands p _ v u c)
  perform-WallStands (favorites u c) w v =
      favorite-keeps p WallStands u c w v (favorite_trx-WallStands p _ v u c)
  perform-WallStands (unfavorites u c) w v =
      unfavorite-keeps p WallStands u c w v (unfavorite_trx-WallStands p _ v u c)
  perform-WallStands (follows a b) w v = follow-WallStands a b w v
  perform-WallStands (unfollows a b) w v =
      unfollow-keeps p WallStands a b w v (unfollow_trx-WallStands p _ v a b)
  perform-WallStands (unblocks a b) w v = unblock-WallStands p.orm w.db v a b
  perform-WallStands (blocks a b reason) w v =
      block-keeps p trim WallStands a b reason w v (block_trx-WallStands p _ v trim a b reason refl)

  -- If no user follows another across a block, then none does after any sequence of likes,
  -- unlikes, favorites, follows, unfollows, blocks and unblocks by any users, whether they succeed
  -- or throw.
  pub perform_all-WallStands :
      (actions : List Action) (w : World)
      → WallStands w.db
      → WallStands (perform_all p trim actions w).db
  perform_all-WallStands = perform_all-keeps p trim WallStands perform-WallStands
