-- ===== src/Components/Owner.antt =====
-- What the author of a component does to it: saveDraft, publish, update, remove, setThumbnail.
use text.Mathlib.Text.{◌==◌ as str_eq}
use componi_back_nest.Prelude.{
  String, Bool, true, false, ◌&&◌, ◌||◌, Option, none, some, List, [], ◌∷◌, ◌==◌, is_none, is_some,
  if◌then◌else◌,
}
use componi_back_nest.Entities.Accounts.{Uuid}
use componi_back_nest.Entities.Content.{Component, ComponentFramework, ComponentVersion, Tag}
use componi_back_nest.Platform.Js.{Js, Embedder}
use componi_back_nest.Database.{live_component}
use componi_back_nest.Messages.{CacheTag, feed_trending, author}
use componi_back_nest.Cache.{invalidate_tags}
use componi_back_nest.Embeddings
use componi_back_nest.Thumbnails
use componi_back_nest.Social.{set_component, set_user}
use componi_back_nest.Admin.Content.{component_deleted, components_dec}
use componi_back_nest.Components.{MetadataDto, SaveDraftDto, save_component}
use componi_back_nest.Components.Slugs.{slugify, find_unique_slug}
use componi_back_nest.Components.Tagging.{replace_tags}
use componi_back_nest.Exec.{
  Exec, bad_request, not_found, Platform, pure, require, present, gets, now, write, trx_write,
  transaction, ◌>>=◌, ◌>>◌,
}

unfoldable pub same_framework : ComponentFramework → ComponentFramework → Bool
same_framework ComponentFramework.react ComponentFramework.react = true
same_framework ComponentFramework.vue ComponentFramework.vue = true
same_framework ComponentFramework.svelte ComponentFramework.svelte = true
same_framework ComponentFramework.solid ComponentFramework.solid = true
same_framework ComponentFramework.angular ComponentFramework.angular = true
same_framework ComponentFramework.other ComponentFramework.other = true
same_framework _ _ = false

-- `(dto.description ?? null) === component.description`
unfoldable pub same_description : Option String → Option String → Bool
same_description none none = true
same_description none (some t) = false
same_description (some s) none = false
same_description (some s) (some t) = str_eq s t

-- `if (dto.name && dto.name !== component.name)`: the new name, if there is one.
unfoldable pub new_name : Component → Option String → Option String
new_name c none = none
new_name c (some name) = if str_eq name "" || str_eq name c.name then none else some name

-- The next three statements of `applyMetadata`, each with whether the embedding must change.
unfoldable pub describe : Option (Option String) → Component × Bool → Component × Bool
describe none (c, changed) = (c, changed)
describe (some text) (c, changed) =
    if same_description text c.description
    then (c, changed)
    else (record c { description = text }, true)

unfoldable pub port : Option ComponentFramework → Component × Bool → Component × Bool
port none (c, changed) = (c, changed)
port (some f) (c, changed) =
    if same_framework f c.framework then (c, changed) else (record c { framework = f }, true)

unfoldable pub classify : Option (Option String) → Option Bool → Component → Component
classify none none c = c
classify none (some p) c = record c { is_public = p }
classify (some k) none c = record c { category = k }
classify (some k) (some p) c = record c { category = k; is_public = p }

unfoldable pub amend : MetadataDto → Component × Bool → Component × Bool
unfolding describe port classify
amend dto s =
    let (c, changed) = port dto.framework (describe dto.description s) in
    (classify dto.category dto.is_public c, changed)

module _ (p : Platform) where
  unfoldable pub load_owned : Uuid → Uuid → Exec Component
  load_owned id user = do
    found ← gets (λ w. p.orm.find_one (live_component id) w.db.components)
    component ← present found (not_found "Component not found")
    require (component.author_id == user) (not_found "Component not found")
    pure component

module _ (p : Platform) (js : Js) where
  unfoldable pub rename : Component → Option String → Exec (Component × Bool)
  rename c none = pure (c, false)
  rename c (some name) = do
    slug ← find_unique_slug p js c.author_id (slugify js name) c.id
    pure (record c { name = name; slug = slug }, true)

  unfoldable pub apply_metadata : Component → MetadataDto → Exec (Component × Bool)
  unfolding amend new_name
  apply_metadata c dto = do named ← rename c (new_name c dto.name); pure (amend dto named)

  -- The code and the dependencies that a draft is saved with.
  unfoldable pub rewritten :
      Option String → Option (List (String × String)) → ComponentVersion → ComponentVersion
  rewritten none none v = v
  rewritten (some code) none v = record v { code = code }
  rewritten none (some deps) v = record v { dependencies = deps }
  rewritten (some code) (some deps) v = record v { code = code; dependencies = deps }

  unfoldable pub rewrite_version : Uuid → SaveDraftDto → Exec Bool
  rewrite_version id dto = do
    found ← gets (λ w. p.orm.find_one (λ (v : ComponentVersion). v.id == id) w.db.versions)
    if is_none found then pure false else do
      write (λ d. record d {
        versions = p.orm.update (λ v. v.id == id) (rewritten dto.code dto.dependencies) d.versions;
      })
      pure (is_some dto.code)

  unfoldable pub update_draft_version : Option Uuid → SaveDraftDto → Exec Bool
  update_draft_version none dto = pure false
  update_draft_version (some id) dto =
      if is_none dto.code && is_none dto.dependencies then pure false else rewrite_version id dto

  unfoldable pub replace_some : Uuid → Option (List String) → Exec Unit
  replace_some id none = pure tt
  replace_some id (some slugs) = replace_tags p js id slugs

  unfoldable pub save_draft : Uuid → Uuid → SaveDraftDto → Exec Component
  save_draft id user dto = do
    component ← load_owned p id user
    require component.is_draft (bad_request "Component is already published.")
    amended ← apply_metadata component dto.metadata
    recoded ← update_draft_version component.current_version_id dto
    replace_some id dto.tag_slugs
    write (save_component p.orm amended.0)
    let saved = record amended.0 { embedding_generated_at = none }
    if amended.1 || recoded then write (save_component p.orm saved) else pure tt
    pure (if amended.1 || recoded then saved else amended.0)

  unfoldable pub remove : Uuid → Uuid → Exec Unit
  remove id user = do
    component ← load_owned p id user
    transaction p.orm (do
      at ← now
      trx_write (set_component p.orm (component_deleted at) component.id)
      trx_write (set_user p.orm components_dec user))
    invalidate_tags p (CacheTag.component id ∷ author user ∷ feed_trending ∷ [])

  -- assertThumbnailOriginAllowed; `none` is a URL that does not parse.
  unfoldable pub same_origin : Option (String × String) → Option (String × String) → Bool
  same_origin none allowed = false
  same_origin (some (protocol, host)) none = false
  same_origin (some (protocol, host)) (some (_, allowed)) =
      str_eq protocol "https:" && str_eq host allowed

  unfoldable pub assert_thumbnail_origin : String → Exec Unit
  assert_thumbnail_origin url = do
    supabase ← present p.config.supabase_url (bad_request "Storage origin not configured")
    require (is_some (js.parse_url url)) (bad_request "Invalid thumbnail URL")
    require (same_origin (js.parse_url url) (js.parse_url supabase))
        (bad_request "Thumbnail must be hosted on the configured Supabase project")

  unfoldable pub set_thumbnail : Uuid → Uuid → String → Exec Component
  set_thumbnail id user url = do
    assert_thumbnail_origin url
    component ← load_owned p id user
    let saved = record component { thumbnail_url = some url }
    write (save_component p.orm saved)
    if component.is_draft
        then pure tt
        else invalidate_tags p (CacheTag.component id ∷ feed_trending ∷ [])
    Thumbnails.enqueue p id url
    pure saved

module _ (p : Platform) (js : Js) (e : Embedder) (by_slug : Tag → Tag → Bool) where
  unfoldable pub publish : Uuid → Uuid → Exec Component
  publish id user = do
    component ← load_owned p id user
    require component.is_draft (bad_request "Component is already published.")
    require (is_some component.current_version_id) (bad_request "Draft has no code yet")
    let saved = record component { is_draft = false }
    write (save_component p.orm saved)
    invalidate_tags p (feed_trending ∷ author user ∷ [])
    Embeddings.enqueue p js e by_slug id
    pure saved

  unfoldable pub update : Uuid → Uuid → MetadataDto → Exec Component
  update id user dto = do
    component ← load_owned p id user
    amended ← apply_metadata p js component dto
    write (save_component p.orm amended.0)
    invalidate_tags p (CacheTag.component id ∷ author user ∷ feed_trending ∷ [])
    if amended.1 then Embeddings.enqueue p js e by_slug id else pure tt
    pure amended.0
