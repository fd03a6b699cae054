-- ===== src/Feed.antt =====
-- src/modules/feed/feed.service.ts: the feed of the users that one follows, and the trending feed.
-- The join of each component with its author and the orders of the rows are left out or parameters.
pub mod Hidden
use componi_back_nest.Prelude.{
  ℕ, Bool, true, false, not, ◌&&◌, ◌||◌, Option, none, some, List, [], ◌∷◌, ◌==◌, ltb, is_none,
  is_some, or_else, count, length, if◌then◌else◌,
}
use componi_back_nest.Entities.Accounts.{Uuid, Follow}
use componi_back_nest.Entities.Content.{Component}
use componi_back_nest.Entities.Moderation.{Block}
use componi_back_nest.Database.{Db, follow_of, mute_of}
use componi_back_nest.Messages.{feed_trending_page, feed_following_page, feed_trending, user_feed}
use componi_back_nest.Cache.{Json, wrap}
use componi_back_nest.Moderation.Blocks.{either_way}
use componi_back_nest.Exec.{Exec, Result, ok, err, Platform, World, pure, gets, ◌>>=◌}

-- Is the id among the ids?
unfoldable pub among : Uuid → List Uuid → Bool
among id [] = false
among id (x ∷ xs) = x == id || among id xs

-- The authors of the page but the viewer.
unfoldable pub other_authors : Uuid → List Component → List Uuid
other_authors viewer [] = []
other_authors viewer (c ∷ cs) =
    let rest = other_authors viewer cs in if c.author_id == viewer then rest else c.author_id ∷ rest

-- CASE WHEN b."blockerId" = $1 THEN b."blockedId" ELSE b."blockerId" END
unfoldable pub other_id : Uuid → Block → Uuid
other_id viewer b = if b.blocker_id == viewer then b.blocked_id else b.blocker_id

unfoldable pub blocks_among : Uuid → List Uuid → Block → Bool
unfolding among
blocks_among viewer authors b =
    (b.blocker_id == viewer && among b.blocked_id authors)
    || (b.blocked_id == viewer && among b.blocker_id authors)

-- blockedSet.has(id)
unfoldable pub in_blocked_set : Uuid → List Block → Uuid → Bool
unfolding other_id
in_blocked_set viewer rows id = ltb 0 (count (λ b. other_id viewer b == id) rows)

unfoldable pub visible_of : Uuid → List Block → List Component → List Component
unfolding in_blocked_set
visible_of viewer rows [] = []
visible_of viewer rows (c ∷ cs) =
    let rest = visible_of viewer rows cs in
    if c.author_id == viewer || not (in_blocked_set viewer rows c.author_id) then c ∷ rest else rest

module _ (p : Platform) (json : Json (List Component)) (newest : Component → Component → Bool)
    (hottest : Component → Component → Bool) where
  unfoldable pub is_followed : Uuid → Db → Component → Bool
  is_followed user d c = is_some (p.orm.find_one (follow_of user c.author_id) d.follows)

  unfoldable pub in_feed : Uuid → Db → Component → Bool
  unfolding is_followed
  in_feed user d c =
      is_followed user d c
      && (c.is_public
          && (is_none c.deleted_at
              && (is_none (p.orm.find_one (either_way user c.author_id) d.blocks)
                  && is_none (p.orm.find_one (mute_of user c.author_id) d.mutes))))

  unfoldable pub load_feed : Uuid → ℕ → Exec (Option (List Component))
  unfolding in_feed
  load_feed user limit =
      gets (λ w. some (p.orm.find_page (in_feed user w.db) newest limit w.db.components))

  unfoldable pub for_user : Uuid → ℕ → Exec (List Component)
  for_user user limit = do
    found ←
        wrap p json (feed_following_page user limit) (load_feed user limit)
          p.config.feed_ttl_seconds (user_feed user ∷ [])
    pure (or_else found [])

  unfoldable pub load_trending : ℕ → Exec (Option (List Component))
  load_trending limit = gets (λ w. some (
      p.orm.find_page (λ (c : Component). c.is_public && is_none c.deleted_at) hottest limit
        w.db.components))

  -- The filter after the cache.
  unfoldable pub hide_blocked : Uuid → List Component → Exec (List Component)
  unfolding other_authors blocks_among visible_of
  hide_blocked viewer results =
      let authors = other_authors viewer results in
      if length authors == 0
      then pure results
      else gets
          (λ w. visible_of viewer (p.orm.find (blocks_among viewer authors) w.db.blocks) results)

  unfoldable pub shown_to : Option Uuid → List Component → Exec (List Component)
  shown_to none results = pure results
  shown_to (some viewer) results =
      if length results == 0 then pure results else hide_blocked viewer results

  unfoldable pub trending : ℕ → Option Uuid → Exec (List Component)
  unfolding shown_to
  trending limit viewer = do
    found ←
        wrap p json (feed_trending_page limit) (load_trending limit) p.config.feed_ttl_seconds
          (feed_trending ∷ [])
    shown_to viewer (or_else found [])
