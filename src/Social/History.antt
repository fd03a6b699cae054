-- ===== src/Social/History.antt =====
-- Any sequence of social actions and blocks, by any users, failing or not.
use componi_back_nest.Prelude.{
  ◌≡◌, refl, Bool, true, false, Option, List, [], ◌∷◌, String, not, ltb, Bool-cases, inl, inr, ◌==◌,
  arith,
}
use mathlib.Core.Option
use componi_back_nest.Prelude.{some}
use componi_back_nest.Entities.Accounts.{Uuid}
use componi_back_nest.Entities.Moderation.{Block}
use componi_back_nest.Platform.Orm.{Orm}
use componi_back_nest.Database.{Db, follow_of}
use componi_back_nest.Exec.{
  Exec, Platform, World, transaction, transaction_db, bind_keeps, require, bad_request, ◌>>◌,
}
use componi_back_nest.Messages.{user_feed}
use componi_back_nest.Cache.{invalidate_tags}
use componi_back_nest.Moderation.Blocks.{drop_follow, insert_block, block_trx, block, unblock}
use componi_back_nest.Moderation.Blocks.Effects.{unlink, block_row, block_trx_db}
use componi_back_nest.Social.{like, unlike, favorite, unfavorite, follow, unfollow}
use componi_back_nest.Social.Invariant.{drop_follow-FollowsCounted, no_follow-FollowsCounted}
use componi_back_nest.Social.Frames.{IsCounted, drop_follow-others, uncount_follow-others}
use componi_back_nest.Social.Counters.{
  like_trx-IsCounted, unlike_trx-IsCounted, favorite_trx-IsCounted, unfavorite_trx-IsCounted,
  follow_trx-IsCounted, unfollow_trx-IsCounted,
}
use componi_back_nest.Social.Handlers.{
  like-keeps, unlike-keeps, favorite-keeps, unfavorite-keeps, follow-keeps, unfollow-keeps,
}

-- A request that a user makes. Its first UUID is the user.
pub data Action : Type 0 where
  likes unlikes favorites unfavorites follows unfollows unblocks : Uuid → Uuid → Action
  blocks : Uuid → Uuid → Option String → Action

module _ (p : Platform) (trim : String → String) where
  unfoldable pub perform : Action → Exec Unit
  perform (likes u c) = like p u c
  perform (unlikes u c) = unlike p u c
  perform (favorites u c) = favorite p u c
  perform (unfavorites u c) = unfavorite p u c
  perform (follows a b) = follow p a b
  perform (unfollows a b) = unfollow p a b
  perform (unblocks a b) = unblock p a b
  perform (blocks a b reason) = block p trim a b reason

  -- An exception ends a request and not the server.
  unfoldable pub perform_all : List Action → World → World
  perform_all [] w = w
  perform_all (a ∷ rest) w = perform_all rest (perform a w).1

module _ (p : Platform) (trim : String → String) (P : Db → Type 0) where
  pub block-keeps :
      (a b : Uuid) (reason : Option String) (w : World)
      → P w.db
      → P (block_trx p trim a b reason (record w { aborted = false })).1.db
      → P (block p trim a b reason w).1.db
  unfolding block invalidate_tags
  block-keeps a b reason w h k = checked (not (a == b))
    where
      checked :
          (t : Bool)
          → P
              ((require t (bad_request "Cannot block yourself")
                  >> (transaction p.orm (block_trx p trim a b reason)
                      >> invalidate_tags p (user_feed a ∷ user_feed b ∷ [])))
                w).1.db
      checked false = h
      checked true =
          bind_keeps (λ s. P s.db) (transaction p.orm (block_trx p trim a b reason))
            (λ _. invalidate_tags p (user_feed a ∷ user_feed b ∷ [])) w
            (transaction_db p.orm P (block_trx p trim a b reason) w h (λ _ _. k)) (λ _ v g. g)

  pub perform_all-keeps :
      ((a : Action) (w : World) → P w.db → P (perform p trim a w).1.db)
      → (actions : List Action) (w : World) → P w.db
      → P (perform_all p trim actions w).db
  unfolding perform_all
  perform_all-keeps step [] w h = h
  perform_all-keeps step (a ∷ rest) w h =
      perform_all-keeps step rest (perform p trim a w).1 (step a w h)

unlink-IsCounted : (o : Orm) (a b : Uuid) (d : Db) → IsCounted d → IsCounted (unlink o a b d)
unfolding unlink
unlink-IsCounted o a b d v =
    let others = drop_follow-others o d v a b in
    elim (Bool-cases (ltb 0 (o.affected (follow_of a b) d.follows))) [
      | inl one ↦
          let (l, f) = uncount_follow-others o (drop_follow o a b d) a b others in
          rw one (record {
            likes = l;
            favorites = f;
            follows = drop_follow-FollowsCounted o d a b (ground (arith, one)) v.follows;
          })
      | inr nothing ↦ rw nothing (record {
        likes = others.0;
        favorites = others.1;
        follows = no_follow-FollowsCounted o d a b (ground (arith, nothing)) v.follows;
      })
    ]

insert_block-IsCounted :
    (o : Orm) (b : Block) (d d' : Db) → insert_block o b d ≡ some d' → IsCounted d → IsCounted d'
unfolding insert_block
insert_block-IsCounted o b d d' e v =
    let (rows, done, same) = (Option.map-eq-some_iff _ _).0 e in rw (← same) (same_counts rows)
  where
    same_counts : (rows : List Block) → IsCounted (record d { blocks = rows })
    same_counts rows = record {
      likes = record { once = v.likes.once; counted = v.likes.counted };
      favorites = record { once = v.favorites.once; counted = v.favorites.counted };
      follows = record {
        once = v.follows.once;
        following = v.follows.following;
        followers = v.follows.followers;
      };
    }

module _ (p : Platform) (trim : String → String) where
  block_trx-IsCounted :
      (a b : Uuid) (reason : Option String) (w : World)
      → w.aborted ≡ false
      → IsCounted w.db
      → IsCounted (block_trx p trim a b reason w).1.db
  block_trx-IsCounted a b reason w clean v = elim (block_trx_db p trim a b reason w clean) [
    | inl e ↦ rw e v
    | inr (d, e, h) ↦ rw h (
        unlink-IsCounted p.orm b a (unlink p.orm a b d) (
          unlink-IsCounted p.orm a b d
            (insert_block-IsCounted p.orm (block_row p trim a b reason w clean) w.db d e v)))
  ]

  perform-IsCounted :
      (a : Action) (w : World) → IsCounted w.db → IsCounted (perform p trim a w).1.db
  unfolding perform unblock
  perform-IsCounted (likes u c) w v = like-keeps p IsCounted u c w v (like_trx-IsCounted p u c _ v)
  perform-IsCounted (unlikes u c) w v =
      unlike-keeps p IsCounted u c w v (unlike_trx-IsCounted p u c _ v)
  perform-IsCounted (favorites u c) w v =
      favorite-keeps p IsCounted u c w v (favorite_trx-IsCounted p u c _ v)
  perform-IsCounted (unfavorites u c) w v =
      unfavorite-keeps p IsCounted u c w v (unfavorite_trx-IsCounted p u c _ v)
  perform-IsCounted (follows a b) w v =
      follow-keeps p IsCounted a b w v (follow_trx-IsCounted p a b _ v)
  perform-IsCounted (unfollows a b) w v =
      unfollow-keeps p IsCounted a b w v (unfollow_trx-IsCounted p a b _ v)
  perform-IsCounted (unblocks a b) w v = record {
    likes = record { once = v.likes.once; counted = v.likes.counted };
    favorites = record { once = v.favorites.once; counted = v.favorites.counted };
    follows = record {
      once = v.follows.once;
      following = v.follows.following;
      followers = v.follows.followers;
    };
  }
  perform-IsCounted (blocks a b reason) w v =
      block-keeps p trim IsCounted a b reason w v (block_trx-IsCounted a b reason _ refl v)

  -- From a database whose counters are right, after any sequence of likes, unlikes, favorites,
  -- follows, unfollows, blocks and unblocks by any users, whether they succeed or throw: every
  -- `likesCount` and `favoritesCount` is the number of such rows of the component, every
  -- `followersCount` and `followingCount` the number of such rows of the user, and no pair of a
  -- user and a component, or of two users, stands in a relation twice.
  pub perform_all-IsCounted :
      (actions : List Action) (w : World)
      → IsCounted w.db
      → IsCounted (perform_all p trim actions w).db
  perform_all-IsCounted = perform_all-keeps p trim IsCounted perform-IsCounted
