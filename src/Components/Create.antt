-- ===== src/Components/Create.antt =====
-- create and fork.
pub mod Clash
use Prim.Native.String.{◌++◌}
use componi_back_nest.Prelude.{
  ℕ, String, Bool, true, false, not, ◌&&◌, ◌||◌, Option, none, some, List, [], ◌∷◌, ◌==◌, or_else,
  is_none, if◌then◌else◌,
}
use componi_back_nest.Entities.Accounts.{Uuid, Date, NotificationType, Payload, fork_key}
use componi_back_nest.Entities.Content.{Component, ComponentVersion, Tag}
use componi_back_nest.Platform.Orm.{Orm}
use componi_back_nest.Platform.Js.{Js, Embedder}
use componi_back_nest.Database.{Db, live_component}
use componi_back_nest.Messages.{CacheTag, feed_trending, author}
use componi_back_nest.Cache.{invalidate_tags}
use componi_back_nest.Notifications
use componi_back_nest.Embeddings
use componi_back_nest.Embeddings.{is_tag_of}
use componi_back_nest.Moderation.Blocks.{is_blocked_either_way}
use componi_back_nest.Versions.{new_version, insert_version, with_current, PublishVersionDto}
use componi_back_nest.Social.{set_component, set_user}
use componi_back_nest.Components.{
  CreateComponentDto, ForkComponentDto, NewComponent, owner_inc, forks_inc,
}
use componi_back_nest.Components.Slugs.{slugify, insert_with_unique_slug}
use componi_back_nest.Components.Tagging.{attach_tags}
use componi_back_nest.Exec.{
  Exec, Result, ok, err, bad_request, not_found, Platform, World, pure, raise, require, present,
  gets, now, new_uuid, trx_read, trx_write, trx_insert, transaction, ◌>>=◌, ◌>>◌,
}

unfoldable pub new_component : Uuid → CreateComponentDto → NewComponent
new_component user dto = record {
  author_id = user;
  name = dto.name;
  description = dto.description;
  framework = dto.framework;
  category = dto.category;
  is_public = or_else dto.is_public true;
  is_draft = or_else dto.is_draft false;
  forked_from_id = none;
}

unfoldable pub new_fork : Uuid → Component → String → ForkComponentDto → NewComponent
new_fork user parent name dto = record {
  author_id = user;
  name = name;
  description = parent.description;
  framework = parent.framework;
  category = parent.category;
  is_public = or_else dto.is_public true;
  is_draft = false;
  forked_from_id = some parent.id;
}

-- { forkId, parentId, kind: 'fork' }
unfoldable pub fork_payload : Uuid → Uuid → Payload
fork_payload fork parent = record {
  component_id = none;
  fork_id = some fork;
  parent_id = some parent;
  kind = some "fork";
  dedupe_key = none;
}

abbrev pub tag_slugs : List Tag → List String
tag_slugs [] = []
tag_slugs (t ∷ ts) = t.slug ∷ tag_slugs ts

module _ (p : Platform) (js : Js) where
  -- The first version of a new component, which becomes its current one.
  unfoldable pub first_version : Component → PublishVersionDto → Exec Component
  first_version row dto = do
    id ← new_uuid
    at ← now
    trx_insert (insert_version p.orm (new_version row.id 1 dto id at))
    trx_write (set_component p.orm (with_current id) row.id)
    pure (with_current id row)

  -- `if (tagSlugs?.length) await attachTags(...)`
  unfoldable pub attach_some : Uuid → Option (List String) → Exec Unit
  attach_some id none = pure tt
  attach_some id (some []) = pure tt
  attach_some id (some (s ∷ rest)) = attach_tags p js id (s ∷ rest)

  unfoldable pub finish_create : Uuid → CreateComponentDto → Component → Exec Component
  finish_create user dto row = do
    row' ← first_version row (record {
      code = dto.code;
      dependencies = or_else dto.dependencies [];
      entry_file = none;
      changelog = none;
    })
    attach_some row'.id dto.tag_slugs
    trx_write (set_user p.orm owner_inc user)
    if row'.is_draft then pure tt else invalidate_tags p (feed_trending ∷ author user ∷ [])
    pure row'

  unfoldable pub create_trx : Uuid → CreateComponentDto → Exec Component
  create_trx user dto = do
    row ← insert_with_unique_slug p js (new_component user dto) (slugify js dto.name)
    finish_create user dto row

  -- The checks of `fork`.
  unfoldable pub forkable : Uuid → Uuid → Exec Component
  forkable parent_id user = do
    found ← trx_read (λ d. p.orm.find_one (live_component parent_id) d.components)
    parent ← present found (not_found "Component not found")
    require (is_none parent.deleted_at) (not_found "Component not found")
    require (parent.is_public || parent.author_id == user) (not_found "Component not found")
    require (not parent.is_draft) (not_found "Component not found")
    hidden ←
        if parent.author_id == user
        then pure false
        else is_blocked_either_way p user parent.author_id
    require (not hidden) (not_found "Component not found")
    pure parent

  unfoldable pub source_version : Component → Exec ComponentVersion
  source_version parent = do
    id ← present parent.current_version_id (bad_request "Parent has no published version")
    found ← trx_read (λ d. p.orm.find_one (λ (v : ComponentVersion). v.id == id) d.versions)
    present found (bad_request "Parent has no published version")

  -- The changelog of a fork.
  unfoldable pub fork_changelog : Component → ComponentVersion → String
  fork_changelog parent v = "Forked from " ++ js.show parent.id ++ " v" ++ js.show v.version

  unfoldable pub finish_fork : Uuid → Component → ComponentVersion → Component → Exec Component
  finish_fork user parent source row = do
    row' ← first_version row (record {
      code = source.code;
      dependencies = source.dependencies;
      entry_file = source.entry_file;
      changelog = some (fork_changelog parent source);
    })
    tags ← trx_read (λ d. p.orm.find (is_tag_of p.orm parent.id d) d.tags)
    attach_some row'.id (some (tag_slugs tags))
    trx_write (set_component p.orm forks_inc parent.id)
    trx_write (set_user p.orm owner_inc user)
    Notifications.enqueue p parent.author_id NotificationType.version
        (fork_payload row'.id parent.id) (some user) (some (fork_key row'.id))
    invalidate_tags p (CacheTag.component parent.id ∷ feed_trending ∷ [])
    pure row'

  unfoldable pub fork_name : Component → ForkComponentDto → String
  fork_name parent dto = or_else dto.name (parent.name ++ " (fork)")

  unfoldable pub fork_trx : Uuid → Uuid → ForkComponentDto → Exec Component
  fork_trx parent_id user dto = do
    parent ← forkable parent_id user
    source ← source_version parent
    row ←
        insert_with_unique_slug p js (new_fork user parent (fork_name parent dto) dto)
          (slugify js (fork_name parent dto))
    finish_fork user parent source row

module _ (p : Platform) (js : Js) (e : Embedder) (by_slug : Tag → Tag → Bool) where
  unfoldable pub embed_published : Component → Exec Component
  embed_published saved = do
    if saved.is_draft then pure tt else Embeddings.enqueue p js e by_slug saved.id
    pure saved

  unfoldable pub create : Uuid → CreateComponentDto → Exec Component
  create user dto = do saved ← transaction p.orm (create_trx p js user dto); embed_published saved

  unfoldable pub fork : Uuid → Uuid → ForkComponentDto → Exec Component
  fork parent_id user dto = do
    row ← transaction p.orm (fork_trx p js parent_id user dto)
    Embeddings.enqueue p js e by_slug row.id
    pure row
