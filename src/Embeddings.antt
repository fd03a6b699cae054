-- ===== src/Embeddings.antt =====
-- src/common/embeddings/embeddings.service.ts: the vector of a component, computed by a job or
-- inline.
use mathlib.Core.Option
use Prim.Native.String.{◌++◌}
use text.Mathlib.Text.{◌==◌ as str_eq}
use componi_back_nest.Prelude.{
  String, Bool, not, ◌&&◌, Option, none, some, List, [], ◌∷◌, ◌==◌, if◌then◌else◌, length, or_else,
  is_none, map,
}
use componi_back_nest.Entities.Accounts.{Uuid, Date}
use componi_back_nest.Entities.Content.{
  Component, ComponentVersion, ComponentFramework, Tag, ComponentTag,
}
use componi_back_nest.Platform.Js.{Js, Embedder}
use componi_back_nest.Platform.Orm.{Orm}
use componi_back_nest.Database.{Db, live_component}
use componi_back_nest.Messages.{embed, embed_id}
use componi_back_nest.Notifications.{add_job, swallow}
use componi_back_nest.Social.{component_id}
use componi_back_nest.Exec.{
  Exec, failure, Platform, require, present, now, pure, raise, gets, write, ◌>>=◌, ◌>>◌,
}

-- What the SELECT of `deliver` returns; `none` is NULL.
pub record ComponentRow : Type 0 where
  pub id : Uuid
  pub name : String
  pub description : Option String
  pub framework : String
  pub tags : Option String
  pub code_snippet : Option String

unfoldable pub framework_name : ComponentFramework → String
framework_name ComponentFramework.react = "react"
framework_name ComponentFramework.vue = "vue"
framework_name ComponentFramework.svelte = "svelte"
framework_name ComponentFramework.solid = "solid"
framework_name ComponentFramework.angular = "angular"
framework_name ComponentFramework.other = "other"

-- Array.join, and string_agg over at least one row.
unfoldable pub join : String → List String → String
join sep [] = ""
join sep (s ∷ []) = s
join sep (s ∷ t ∷ rest) = s ++ sep ++ join sep (t ∷ rest)

unfoldable pub filled : List String → List String
filled [] = []
filled (s ∷ rest) = let others = filled rest in if str_eq s "" then others else s ∷ others

-- `value ? f(value) : ''`
unfoldable pub if_filled : (String → String) → Option String → String
if_filled f none = ""
if_filled f (some s) = if str_eq s "" then "" else f s

unfoldable pub assemble_input : Js → ComponentRow → String
unfolding join filled if_filled
assemble_input js row = join " | " (
    filled (
      row.name
      ∷ row.framework
      ∷ or_else row.description ""
      ∷ if_filled (λ t. "tags: " ++ t) row.tags
      ∷ if_filled (λ c. "code: " ++ js.squeeze c) row.code_snippet
      ∷ []))

unfoldable pub to_pg_vector : (e : Embedder) → List e.Float → String
unfolding join
to_pg_vector e vector = "[" ++ join "," (map e.to_fixed vector) ++ "]"

abbrev pub tag_slug : Tag → String
tag_slug t = t.slug

-- The tags of a component: the join of `component_tags` and `tags`.
unfoldable pub is_tag_of : Orm → Uuid → Db → Tag → Bool
is_tag_of o component d t = not (
    is_none (
      o.find_one (λ (ct : ComponentTag). ct.component_id == component && ct.tag_id == t.id)
        d.component_tags))

unfoldable pub with_vector : String → Date → Component → Component
with_vector literal at c = record c { embedding = some literal; embedding_generated_at = some at }

module _ (p : Platform) (js : Js) (e : Embedder) (by_slug : Tag → Tag → Bool) where
  -- string_agg(t.slug, ', ' ORDER BY t.slug): NULL without rows.
  unfoldable pub tags_of : Uuid → Db → Option String
  unfolding is_tag_of join
  tags_of id d =
      let found = p.orm.find_page (is_tag_of p.orm id d) by_slug (length d.tags) d.tags in
      if length found == 0 then none else some (join ", " (map tag_slug found))

  unfoldable pub snippet_of : Option Uuid → Db → Option String
  snippet_of none d = none
  snippet_of (some version) d =
      Option.map (λ (v : ComponentVersion). js.left 600 v.code)
        (p.orm.find_one (λ v. v.id == version) d.versions)

  unfoldable pub row_of : Db → Component → ComponentRow
  unfolding tags_of snippet_of framework_name
  row_of d c = record {
    id = c.id;
    name = c.name;
    description = c.description;
    framework = framework_name c.framework;
    tags = tags_of c.id d;
    code_snippet = snippet_of c.current_version_id d;
  }

  unfoldable pub store_vector : Uuid → List e.Float → Exec Unit
  unfolding with_vector
  store_vector id vector = do
    require (length vector == p.config.embedding_dimensions) (failure "refusing to write embedding")
    at ← now
    write (λ d. record d {
      components =
          p.orm.update (component_id id) (with_vector (to_pg_vector e vector) at) d.components;
    })

  unfoldable pub deliver_row : Uuid → Option Component → Exec Unit
  unfolding row_of
  deliver_row id none = pure tt
  deliver_row id (some c) = do
    row ← gets (λ w. row_of w.db c)
    vector ← present (e.embed_passage (assemble_input js row)) (failure "embedding provider")
    store_vector id vector

  unfoldable pub deliver : Uuid → Exec Unit
  deliver id = if not p.config.embeddings_enabled then pure tt else do
    found ← gets (λ w. p.orm.find_one (live_component id) w.db.components)
    deliver_row id found

  unfoldable pub enqueue : Uuid → Exec Unit
  enqueue id =
      if not p.config.embeddings_enabled
      then pure tt
      else if not p.config.workers_enabled
      then swallow (deliver id)
      else add_job p (record { body = embed id; job_id = some (embed_id id) })

  unfoldable pub embed_query : String → Exec (List e.Float)
  embed_query text =
      if not p.config.embeddings_enabled
      then raise (failure "embeddings are disabled")
      else present (e.embed_query text) (failure "embedding provider")
