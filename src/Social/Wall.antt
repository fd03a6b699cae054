-- ===== src/Social/Wall.antt =====
-- The wall that a block puts up between two users, and the changes of rows that keep it.
pub mod Requests
use mathlib.Core.Option
use componi_back_nest.Prelude.{
  ℕ, ◌<◌, ◌≡◌, ◌≢◌, refl, sym, ◌⊎◌, Bool, true, false, not, ◌&&◌, ◌||◌, Option, none, some, List,
  String, arith, count, count_mono, count_none, count_cong, subst, Bool-cases, Option-cases, inl,
  inr, ◌==◌, ltb, bit, ◌+◌, ◌∙◌,
}
use componi_back_nest.Entities.Accounts.{Uuid, Follow}
use componi_back_nest.Entities.Moderation.{Block}
use componi_back_nest.Platform.Orm.{Orm}
use componi_back_nest.Database.{Db, follow_of, block_of}
use componi_back_nest.Exec.{Exec, Platform, World, Result, ok}
use componi_back_nest.Moderation.Blocks.{
  either_way, drop_follow, uncount_follow, insert_block, block_trx, block, unblock, blocked_pair,
  new_block,
}
use componi_back_nest.Moderation.Blocks.Effects.{unlink, block_row, block_trx_db}
use componi_back_nest.Social.{
  insert_follow, set_user, set_component, insert_like, insert_favorite, drop_like, drop_favorite,
  follow_target, follow_trx,
}
use componi_back_nest.Moderation.Blocks.{following_inc, followers_inc}
use componi_back_nest.Social.Effects.{
  follow_row, follow_trx_db, like_trx_db, unlike_trx_db, favorite_trx_db, unfavorite_trx_db,
  unfollow_trx_db,
}

-- No user follows another while one of them blocks the other.
abbrev pub WallStands : Db → Type 0
WallStands d =
    (x y : Uuid) → 0 < count (either_way x y) d.blocks → count (follow_of x y) d.follows ≡ 0

module _ (o : Orm) (x y : Uuid) where
  -- A delete brings no row back.
  drop_follow-none :
      (a b : Uuid) (d : Db)
      → count (follow_of x y) d.follows ≡ 0
      → count (follow_of x y) (drop_follow o a b d).follows ≡ 0
  unfolding drop_follow
  drop_follow-none a b d h = omega (
    arith,
    h,
    o.count-delete (follow_of x y) (follow_of a b) d.follows,
    count_mono (λ r. not (follow_of a b r) && follow_of x y r) (follow_of x y) d.follows
        (λ r k. ground arith),
  )

  drop_follow-own : (d : Db) → count (follow_of x y) (drop_follow o x y d).follows ≡ 0
  unfolding drop_follow
  drop_follow-own d = omega (
    arith,
    o.count-delete (follow_of x y) (follow_of x y) d.follows,
    count_none (λ r. not (follow_of x y r) && follow_of x y r) d.follows (λ r. ground arith),
  )

  follows-unlink : (a b : Uuid) (d : Db) → (unlink o a b d).follows ≡ (drop_follow o a b d).follows
  unfolding unlink uncount_follow
  follows-unlink a b d = ground arith

  blocks-unlink : (a b : Uuid) (d : Db) → (unlink o a b d).blocks ≡ d.blocks
  unfolding unlink uncount_follow drop_follow
  blocks-unlink a b d = ground arith

  unlink-none :
      (a b : Uuid) (d : Db)
      → count (follow_of x y) d.follows ≡ 0
      → count (follow_of x y) (unlink o a b d).follows ≡ 0
  unlink-none a b d h = rw (follows-unlink a b d) (drop_follow-none a b d h)

  unlink-own : (d : Db) → count (follow_of x y) (unlink o x y d).follows ≡ 0
  unlink-own d = rw (follows-unlink x y d) (drop_follow-own d)

module _ (o : Orm) (d d' : Db) where
  pub insert_block-follows : (b : Block) → insert_block o b d ≡ some d' → d'.follows ≡ d.follows
  unfolding insert_block
  insert_block-follows b e =
      let (rows, done, same) = (Option.map-eq-some_iff _ _).0 e in rw (← same)

  pub count-insert_block :
      (b : Block) (q : Block → Bool)
      → insert_block o b d ≡ some d'
      → count q d'.blocks ≡ bit (q b) + count q d.blocks
  unfolding insert_block
  count-insert_block b q e =
      let (rows, done, same) = (Option.map-eq-some_iff _ _).0 e in
      rw (← same) (o.count-insert q (block_of b.blocker_id b.blocked_id) b d.blocks rows done)

  -- After a block is recorded and both follows are removed.
  pub block-WallStands :
      (b : Block)
      → WallStands d
      → insert_block o b d ≡ some d'
      → WallStands (unlink o b.blocked_id b.blocker_id (unlink o b.blocker_id b.blocked_id d'))
  block-WallStands b wall e x y h = elim (Bool-cases (block_of x y b)) [
    | inl own ↦ rw (columns x y own).0 (
        rw (columns x y own).1 (
          unlink-none o b.blocker_id b.blocked_id b.blocked_id b.blocker_id _
            (unlink-own o b.blocker_id b.blocked_id d')))
    | inr not_own ↦ elim (Bool-cases (block_of y x b)) [
      | inl own ↦
          rw (columns y x own).0 (rw (columns y x own).1 (unlink-own o b.blocked_id b.blocker_id _))
      | inr not_own' ↦ unlink-none o x y b.blocked_id b.blocker_id _ (
          unlink-none o x y b.blocker_id b.blocked_id d'
            (rw (insert_block-follows b e) (wall x y (earlier not_own not_own'))))
    ]
  ]
    where
      columns : (s t : Uuid) → block_of s t b ≡ true → (s ≡ b.blocker_id) × (t ≡ b.blocked_id)
      columns s t own = ground arith

      earlier :
          block_of x y b ≡ false → block_of y x b ≡ false → 0 < count (either_way x y) d.blocks
      earlier n m = ground (
        arith,
        h,
        n,
        m,
        blocks-unlink o x y b.blocked_id b.blocker_id (unlink o b.blocker_id b.blocked_id d'),
        blocks-unlink o x y b.blocker_id b.blocked_id d',
        count-insert_block b (either_way x y) e,
      )

  pub insert_follow-WallStands :
      (f : Follow)
      → count (either_way f.follower_id f.followee_id) d.blocks ≡ 0
      → WallStands d
      → insert_follow o f d ≡ some d'
      → WallStands
          (set_user o followers_inc f.followee_id (set_user o following_inc f.follower_id d'))
  unfolding insert_follow set_user
  insert_follow-WallStands f none_between wall e =
      let (rows, done, same) = (Option.map-eq-some_iff _ _).0 e in
      rw (← same) (λ x y h. apart rows done x y h (wall x y h))
    where
      apart :
          (rows : List Follow)
          → o.insert (follow_of f.follower_id f.followee_id) f d.follows ≡ some rows
          → (x y : Uuid) → 0 < count (either_way x y) d.blocks
          → count (follow_of x y) d.follows ≡ 0
          → count (follow_of x y) rows ≡ 0
      apart rows done x y h k = elim (Bool-cases (follow_of x y f)) [
        | inl own ↦ absurd (omega (arith, h, none_between, same_pair x y own))
        | inr other ↦
            o.count-insert (follow_of x y) (follow_of f.follower_id f.followee_id) f d.follows rows
              done
            ∙ rw (other, k) (omega arith)
      ]
        where
          same_pair :
              (x y : Uuid)
              → follow_of x y f ≡ true
              → count (either_way x y) d.blocks
                ≡ count (either_way f.follower_id f.followee_id) d.blocks
          same_pair x y own =
              count_cong (either_way x y) (either_way f.follower_id f.followee_id) d.blocks
                (λ r. ground (arith, own))

-- What leaves the blocks and brings no follow keeps the wall.
calmer-WallStands :
    (d d' : Db)
    → d'.blocks ≡ d.blocks
    → ((x y : Uuid) → count (follow_of x y) d.follows ≡ 0 → count (follow_of x y) d'.follows ≡ 0)
    → WallStands d
    → WallStands d'
calmer-WallStands d d' same fewer wall x y h =
    fewer x y (wall x y (subst (λ b. 0 < count (either_way x y) b) same h))

module _ (o : Orm) (d : Db) (wall : WallStands d) where
  pub unlink_one-WallStands : (a b : Uuid) → WallStands (drop_follow o a b d)
  unfolding drop_follow
  unlink_one-WallStands a b =
      calmer-WallStands d (drop_follow o a b d) refl (λ x y. drop_follow-none o x y a b d) wall

  pub uncounted-WallStands : (a b : Uuid) → WallStands (uncount_follow o a b (drop_follow o a b d))
  unfolding uncount_follow drop_follow
  uncounted-WallStands a b =
      calmer-WallStands d (uncount_follow o a b (drop_follow o a b d)) refl
        (λ x y. drop_follow-none o x y a b d) wall

  pub unblock-WallStands :
      (a b : Uuid) → WallStands (record d { blocks = o.delete (block_of a b) d.blocks })
  unblock-WallStands a b x y h = wall x y (
      omega (
        arith,
        h,
        o.count-delete (either_way x y) (block_of a b) d.blocks,
        count_mono (λ r. not (block_of a b r) && either_way x y r) (either_way x y) d.blocks
            (λ r k. ground arith),
      ))
