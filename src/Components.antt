-- ===== src/Components.antt =====
-- components.service.ts: components, their drafts, forks and slugs. The methods are in the child
-- modules; here stand the requests, the rows and the statements that they share. `list`,
-- `listDrafts` and the ancestors of `lineage` are reads that the model leaves out.
pub mod Slugs
pub mod Tagging
pub mod Create
pub mod Owner
pub mod View
pub mod Catalog
use mathlib.Core.Option
use Prim.Native.String.{◌++◌}
use text.Mathlib.Text.{◌==◌ as str_eq}
use componi_back_nest.Prelude.{
  ℕ, ℤ, pos, inc, dec, String, Bool, true, false, not, ◌&&◌, ◌||◌, Option, none, some, List, ◌==◌,
  is_none, or_else, if◌then◌else◌,
}
use componi_back_nest.Entities.Accounts.{Uuid, Date, User}
use componi_back_nest.Entities.Content.{Component, ComponentFramework}
use componi_back_nest.Platform.Orm.{Orm}
use componi_back_nest.Database.{Db}
use componi_back_nest.Social.{component_id}

pub record CreateComponentDto : Type 0 where
  pub name : String
  pub description : Option String
  pub framework : ComponentFramework
  pub category : Option String
  pub code : String
  pub dependencies : Option (List (String × String))
  pub is_public : Option Bool
  pub tag_slugs : Option (List String)
  pub is_draft : Option Bool

pub record ForkComponentDto : Type 0 where
  pub name : Option String
  pub is_public : Option Bool

-- What SaveDraftDto and UpdateComponentDto share: `none` is a field that the request leaves out.
pub record MetadataDto : Type 0 where
  pub name : Option String
  -- Left out, null, or a text.
  pub description : Option (Option String)
  pub framework : Option ComponentFramework
  pub category : Option (Option String)
  pub is_public : Option Bool

pub record SaveDraftDto : Type 0 where
  pub metadata : MetadataDto
  pub code : Option String
  pub dependencies : Option (List (String × String))
  pub tag_slugs : Option (List String)

-- The columns of a new component that its creator chooses.
pub record NewComponent : Type 0 where
  pub author_id : Uuid
  pub name : String
  pub description : Option String
  pub framework : ComponentFramework
  pub category : Option String
  pub is_public : Bool
  pub is_draft : Bool
  pub forked_from_id : Option Uuid

-- The row, with the defaults of the other columns.
unfoldable pub component_row : NewComponent → String → Uuid → Date → Component
component_row new slug id at = record {
  id = id;
  author_id = new.author_id;
  slug = slug;
  name = new.name;
  description = new.description;
  framework = new.framework;
  category = new.category;
  thumbnail_url = none;
  is_public = new.is_public;
  is_draft = new.is_draft;
  current_version_id = none;
  forked_from_id = new.forked_from_id;
  forks_count = pos 0;
  likes_count = pos 0;
  favorites_count = pos 0;
  comments_count = pos 0;
  views_count = pos 0;
  shares_count = pos 0;
  embedding = none;
  embedding_generated_at = none;
  created_at = at;
  updated_at = at;
  deleted_at = none;
}

-- UQ_components_author_slug: the live components of an author with a slug.
unfoldable pub has_slug : Uuid → String → Component → Bool
has_slug author slug c = c.author_id == author && (str_eq c.slug slug && is_none c.deleted_at)

abbrev pub owner_inc : User → User
owner_inc u = record u { components_count = inc u.components_count }

abbrev pub forks_inc : Component → Component
forks_inc c = record c { forks_count = inc c.forks_count }

module _ (o : Orm) where
  -- save(entity) of a new component: it clashes with a live component of its author and slug.
  unfoldable pub insert_component : Component → Db → Option Db
  insert_component c d =
      Option.map (λ rows. record d { components = rows })
        (o.insert (λ r. r.id == c.id || has_slug c.author_id c.slug r) c d.components)

  -- save(entity) of a component that was loaded before: the row becomes the entity.
  unfoldable pub save_component : Component → Db → Db
  save_component c d = record d { components = o.update (component_id c.id) (λ _. c) d.components }
