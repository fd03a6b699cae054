-- ===== src/Entities/Content.antt =====
-- component.entity.ts, component-version.entity.ts, like.entity.ts, favorite.entity.ts,
-- comment.entity.ts, collection.entity.ts, collection-component.entity.ts, tag.entity.ts,
-- component-tag.entity.ts and share.entity.ts.
use componi_back_nest.Prelude.{ℕ, String, Option, Bool, List, ℤ}
use componi_back_nest.Entities.Accounts.{Uuid, Date}

pub data ComponentFramework : Type 0 where
  react vue svelte solid angular other : ComponentFramework

pub record Component : Type 0 where
  pub id : Uuid
  pub author_id : Uuid
  pub slug : String
  pub name : String
  pub description : Option String
  pub framework : ComponentFramework
  pub category : Option String
  pub thumbnail_url : Option String
  pub is_public : Bool
  pub is_draft : Bool
  pub current_version_id : Option Uuid
  pub forked_from_id : Option Uuid
  pub forks_count : ℤ
  pub likes_count : ℤ
  pub favorites_count : ℤ
  pub comments_count : ℤ
  pub views_count : ℤ
  pub shares_count : ℤ
  -- A pgvector column that the entity does not declare, as its text literal.
  pub embedding : Option String
  pub embedding_generated_at : Option Date
  pub created_at : Date
  pub updated_at : Date
  pub deleted_at : Option Date

-- `version` is a positive `int`: versions are counted from 1.
pub record ComponentVersion : Type 0 where
  pub id : Uuid
  pub component_id : Uuid
  pub version : ℕ
  pub code : String
  pub dependencies : List (String × String)
  pub entry_file : Option String
  pub changelog : Option String
  pub created_at : Date

pub record Like : Type 0 where
  pub user_id : Uuid
  pub component_id : Uuid
  pub created_at : Date

pub record Favorite : Type 0 where
  pub user_id : Uuid
  pub component_id : Uuid
  pub created_at : Date

pub record Comment : Type 0 where
  pub id : Uuid
  pub component_id : Uuid
  pub author_id : Uuid
  pub parent_id : Option Uuid
  pub body : String
  pub created_at : Date
  pub updated_at : Date
  pub deleted_at : Option Date

pub record Collection : Type 0 where
  pub id : Uuid
  pub owner_id : Uuid
  pub name : String
  pub description : Option String
  pub is_public : Bool
  pub components_count : ℤ
  pub created_at : Date
  pub updated_at : Date
  pub deleted_at : Option Date

pub record CollectionComponent : Type 0 where
  pub collection_id : Uuid
  pub component_id : Uuid
  pub position : ℕ
  pub created_at : Date

pub record Tag : Type 0 where
  pub id : Uuid
  pub slug : String
  pub name : String
  pub usage_count : ℤ
  pub created_at : Date

pub record ComponentTag : Type 0 where
  pub component_id : Uuid
  pub tag_id : Uuid
  pub created_at : Date

pub data ShareChannel : Type 0 where
  link twitter reddit embed other : ShareChannel

pub record Share : Type 0 where
  pub id : Uuid
  pub component_id : Uuid
  pub user_id : Option Uuid
  pub channel : ShareChannel
  pub created_at : Date
