-- ===== src/Components/View.antt =====
-- findById: the component as a viewer sees it, from the cache or from the database.
pub mod Visible
use componi_back_nest.Prelude.{
  ℕ, String, Bool, true, false, not, ◌&&◌, ◌||◌, Option, none, some, List, [], ◌∷◌, ◌==◌,
  if◌then◌else◌,
}
use componi_back_nest.Entities.Accounts.{Uuid}
use componi_back_nest.Entities.Content.{Component}
use componi_back_nest.Database.{live_component}
use componi_back_nest.Messages.{CacheTag, component_public}
use componi_back_nest.Cache.{Json, get, set}
use componi_back_nest.Moderation.Blocks.{blocked_pair}
use componi_back_nest.Versions.{is_author}
use componi_back_nest.Exec.{
  Exec, Result, ok, err, not_found, Platform, World, pure, require, present, gets, ◌>>=◌, ◌>>◌,
}

module _ (p : Platform) (json : Json Component) where
  -- `user && user.id !== c.authorId && await isBlockedEitherWay(user.id, c.authorId)`
  unfoldable pub is_hidden : Option Uuid → Component → World → Bool
  is_hidden none c w = false
  is_hidden (some user) c w =
      if user == c.author_id then false else blocked_pair p user c.author_id w.db

  unfoldable pub keep_public : Uuid → Component → Exec Unit
  keep_public id c =
      if c.is_public && not c.is_draft
      then set p json (component_public id) c 120 (CacheTag.component id ∷ [])
      else pure tt

  unfoldable pub view_row : Uuid → Option Uuid → Exec Component
  view_row id user = do
    row ← gets (λ w. p.orm.find_one (live_component id) w.db.components)
    found ← present row (not_found "Component not found")
    require (found.is_public || is_author user found) (not_found "Component not found")
    require (not found.is_draft || is_author user found) (not_found "Component not found")
    hidden ← gets (is_hidden user found)
    require (not hidden) (not_found "Component not found")
    keep_public id found
    pure found

  unfoldable pub view_cached : Option Uuid → Component → Exec Component
  view_cached user c = do
    hidden ← gets (is_hidden user c)
    require (not hidden) (not_found "Component not found")
    pure c

  unfoldable pub view_hit : Uuid → Option Uuid → Option Component → Exec Component
  view_hit id user none = view_row id user
  view_hit id user (some c) = view_cached user c

  unfoldable pub find_by_id : Uuid → Option Uuid → Exec Component
  find_by_id id user = do cached ← gets (get p json (component_public id)); view_hit id user cached
