-- ===== src/Collections.antt =====
-- src/modules/collections/collections.service.ts: named lists of components, each with the column
-- `componentsCount`. The list of a user's collections and the rows that `findOne` joins to a
-- collection are reads that the model leaves out.
pub mod Counted
pub mod History
pub mod Refinement
use mathlib.Core.Option
use componi_back_nest.Prelude.{
  ℕ, ℤ, pos, inc, dec, String, Bool, true, false, ◌||◌, Option, none, some, ◌==◌, ltb, is_some,
  or_else, if◌then◌else◌,
}
use componi_back_nest.Entities.Accounts.{Uuid, Date}
use componi_back_nest.Entities.Content.{Collection, CollectionComponent}
use componi_back_nest.Platform.Orm.{Orm}
use componi_back_nest.Database.{Db, live_collection, item_of}
use componi_back_nest.Exec.{
  Exec, Result, ok, err, not_found, forbidden, Platform, World, pure, require, present, gets, now,
  new_uuid, write, insert_alone, trx_read, trx_write, trx_insert, trx_delete, transaction, ◌>>=◌,
  ◌>>◌,
}

pub record CreateCollectionDto : Type 0 where
  pub name : String
  pub description : Option String
  pub is_public : Option Bool

unfoldable pub new_collection : Uuid → CreateCollectionDto → Uuid → Date → Collection
new_collection owner dto id at = record {
  id = id;
  owner_id = owner;
  name = dto.name;
  description = dto.description;
  is_public = or_else dto.is_public false;
  components_count = pos 0;
  created_at = at;
  updated_at = at;
  deleted_at = none;
}

abbrev pub collection_id : Uuid → Collection → Bool
collection_id id c = c.id == id

abbrev pub items_inc : Collection → Collection
items_inc c = record c { components_count = inc c.components_count }

abbrev pub items_dec : Collection → Collection
items_dec c = record c { components_count = dec c.components_count }

unfoldable pub collection_deleted : Date → Collection → Collection
collection_deleted at c = record c { deleted_at = some at }

-- The columns that `insert({ collectionId, componentId })` leaves out have their defaults.
unfoldable pub new_item : Uuid → Uuid → Date → CollectionComponent
new_item id component at = record {
  collection_id = id;
  component_id = component;
  position = 0;
  created_at = at;
}

module _ (o : Orm) where
  unfoldable pub insert_collection : Collection → Db → Option Db
  insert_collection c d =
      Option.map (λ rows. record d { collections = rows })
        (o.insert (collection_id c.id) c d.collections)

  unfoldable pub insert_item : CollectionComponent → Db → Option Db
  insert_item i d =
      Option.map (λ rows. record d { collection_components = rows })
        (o.insert (item_of i.collection_id i.component_id) i d.collection_components)

  unfoldable pub drop_item : Uuid → Uuid → Db → Db
  drop_item id component d = record d {
    collection_components = o.delete (item_of id component) d.collection_components;
  }

  unfoldable pub set_collection : (Collection → Collection) → Uuid → Db → Db
  set_collection set id d = record d { collections = o.update (collection_id id) set d.collections }

module _ (p : Platform) where
  unfoldable pub create : Uuid → CreateCollectionDto → Exec Collection
  create user dto = do
    id ← new_uuid
    at ← now
    insert_alone (insert_collection p.orm (new_collection user dto id at))
    pure (new_collection user dto id at)

  -- `collection.ownerId !== user?.id`, negated.
  unfoldable pub is_owner : Option Uuid → Collection → Bool
  is_owner none c = false
  is_owner (some user) c = c.owner_id == user

  unfoldable pub find_one : Uuid → Option Uuid → Exec Collection
  unfolding is_owner
  find_one id user = do
    found ← gets (λ w. p.orm.find_one (live_collection id) w.db.collections)
    collection ← present found (not_found "Collection not found")
    require (collection.is_public || is_owner user collection) (not_found "Collection not found")
    pure collection

  -- The checks with which the two transactions begin.
  unfoldable pub owned : Uuid → Uuid → Exec Collection
  owned id user = do
    found ← trx_read (λ d. p.orm.find_one (live_collection id) d.collections)
    collection ← present found (not_found "Collection not found")
    require (collection.owner_id == user) (forbidden "Forbidden")
    pure collection

  unfoldable pub add_trx : Uuid → Uuid → Uuid → Exec Unit
  unfolding owned
  add_trx id component user = do
    _ ← owned id user
    existing ← trx_read (λ d. p.orm.find_one (item_of id component) d.collection_components)
    at ← now
    if is_some existing then pure tt else do
      trx_insert (insert_item p.orm (new_item id component at))
      trx_write (set_collection p.orm items_inc id)

  unfoldable pub add_component : Uuid → Uuid → Uuid → Exec Unit
  add_component id component user = transaction p.orm (add_trx id component user)

  unfoldable pub remove_trx : Uuid → Uuid → Uuid → Exec Unit
  unfolding owned
  remove_trx id component user = do
    _ ← owned id user
    deleted ←
        trx_delete (λ d. p.orm.affected (item_of id component) d.collection_components)
          (drop_item p.orm id component)
    if ltb 0 deleted then trx_write (set_collection p.orm items_dec id) else pure tt

  unfoldable pub remove_component : Uuid → Uuid → Uuid → Exec Unit
  remove_component id component user = transaction p.orm (remove_trx id component user)

  unfoldable pub remove : Uuid → Uuid → Exec Unit
  remove id user = do
    found ← gets (λ w. p.orm.find_one (live_collection id) w.db.collections)
    collection ← present found (not_found "Collection not found")
    require (collection.owner_id == user) (forbidden "Forbidden")
    at ← now
    write (set_collection p.orm (collection_deleted at) collection.id)
