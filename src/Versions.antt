-- ===== src/Versions.antt =====
-- versions.service.ts: published iterations of a component. The list of versions is a read that the
-- model leaves out.
pub mod Numbered
use mathlib.Core.Option
use componi_back_nest.Prelude.{
  ℕ, ◌+◌, String, Bool, true, false, not, ◌&&◌, ◌||◌, Option, none, some, List, ◌==◌, or_else,
  if◌then◌else◌,
}
use componi_back_nest.Entities.Accounts.{Uuid, Date}
use componi_back_nest.Entities.Content.{Component, ComponentVersion}
use componi_back_nest.Platform.Orm.{Orm}
use componi_back_nest.Database.{Db, live_component}
use componi_back_nest.Social.{set_component}
use componi_back_nest.Exec.{
  Exec, Result, ok, err, forbidden, not_found, Platform, World, require, present, now, new_uuid,
  pure, gets, transaction, trx_read, trx_write, trx_insert, ◌>>=◌, ◌>>◌,
}

pub record PublishVersionDto : Type 0 where
  pub code : String
  pub dependencies : List (String × String)
  pub entry_file : Option String
  pub changelog : Option String

abbrev pub version_of : Uuid → ComponentVersion → Bool
version_of component v = v.component_id == component

-- The rows that clash by `uq_component_version`.
abbrev pub numbered : Uuid → ℕ → ComponentVersion → Bool
numbered component n v = v.component_id == component && v.version == n

abbrev pub number : ComponentVersion → ℕ
number v = v.version

unfoldable pub new_version : Uuid → ℕ → PublishVersionDto → Uuid → Date → ComponentVersion
new_version component n dto id at = record {
  id = id;
  component_id = component;
  version = n;
  code = dto.code;
  dependencies = dto.dependencies;
  entry_file = dto.entry_file;
  changelog = dto.changelog;
  created_at = at;
}

abbrev pub with_current : Uuid → Component → Component
with_current version c = record c { current_version_id = some version }

-- `(latest?.version ?? 0) + 1`
unfoldable pub next_version : Option ComponentVersion → ℕ
next_version latest = or_else (Option.map number latest) 0 + 1

unfoldable pub insert_version : Orm → ComponentVersion → Db → Option Db
insert_version o v d =
    Option.map (λ rows. record d { versions = rows })
      (o.insert (numbered v.component_id v.version) v d.versions)

-- `user?.id` of an anonymous reader is no author's.
unfoldable pub is_author : Option Uuid → Component → Bool
is_author none c = false
is_author (some user) c = c.author_id == user

module _ (p : Platform) where
  unfoldable pub publish_trx : Uuid → Uuid → PublishVersionDto → Exec ComponentVersion
  publish_trx component user dto = do
    found ← trx_read (λ d. p.orm.find_one (live_component component) d.components)
    row ← present found (not_found "Component not found")
    require (row.author_id == user) (forbidden "Forbidden")
    latest ← trx_read (λ d. p.orm.find_last (version_of component) number d.versions)
    id ← new_uuid
    at ← now
    trx_insert (insert_version p.orm (new_version component (next_version latest) dto id at))
    trx_write (set_component p.orm (with_current id) component)
    pure (new_version component (next_version latest) dto id at)

  unfoldable pub publish : Uuid → Uuid → PublishVersionDto → Exec ComponentVersion
  publish component user dto = transaction p.orm (publish_trx component user dto)

  unfoldable pub find_version : Uuid → ℕ → Option Uuid → Exec ComponentVersion
  find_version component n user = do
    found ← gets (λ w. p.orm.find_one (live_component component) w.db.components)
    row ← present found (not_found "Component not found")
    require (row.is_public || is_author user row) (not_found "Component not found")
    version ← gets (λ w. p.orm.find_one (numbered component n) w.db.versions)
    present version (not_found "Version not found")
