-- ===== src/Components/Catalog.antt =====
-- The table of components against its unique index and the column `componentsCount` of the authors:
-- the invariant, and how the statements of the service move it.
pub mod Changes
pub mod Frames
pub mod Entering
pub mod Owning
pub mod Handlers
pub mod History
use componi_back_nest.Prelude.{
  ℕ, ◌+◌, ◌≤◌, ◌≡◌, ℤ, refl, sym, ap, subst, String, Bool, true, false, not, ◌&&◌, ◌==◌, is_none,
  List, count, bit, arith, ◌∙◌,
}
use componi_back_nest.Entities.Accounts.{Uuid, User}
use componi_back_nest.Entities.Content.{Component}
use componi_back_nest.Platform.Orm.{Orm, count-update_same}
use componi_back_nest.Platform.Counters.{Counts, Counts-inc, Counts-cong}
use componi_back_nest.Database.{Db}
use componi_back_nest.Social.{set_component, set_user, component_id}
use componi_back_nest.Social.Invariant.{user_key}
use componi_back_nest.Components.{has_slug, owner_inc}

-- The components of an author that are not deleted.
abbrev pub live_by : Uuid → Component → Bool
live_by author c = c.author_id == author && is_none c.deleted_at

abbrev pub components_by : List Component → Uuid → ℕ
components_by t author = count (live_by author) t

abbrev pub components_count : User → ℤ
components_count u = u.components_count

-- Components have different ids, the live ones of an author different slugs, and each author has as
-- many live components as the row says.
pub record IsCatalog (d : Db) : Type 0 where
  pub key : (id : Uuid) → count (component_id id) d.components ≤ 1
  pub slugs : (a : Uuid) (s : String) → count (has_slug a s) d.components ≤ 1
  pub counted : Counts user_key components_count (components_by d.components) d.users

-- The same in the middle of a transaction that has inserted a component of `y` and not yet counted
-- it.
pub record IsOwing (y : Uuid) (d : Db) : Type 0 where
  pub key : (id : Uuid) → count (component_id id) d.components ≤ 1
  pub slugs : (a : Uuid) (s : String) → count (has_slug a s) d.components ≤ 1
  pub before : Uuid → ℕ
  pub more : (a : Uuid) → components_by d.components a ≡ bit (a == y) + before a
  pub counted : Counts user_key components_count before d.users

-- What an action leaves that does not touch the columns in question.
pub record IsSame (d d' : Db) : Type 0 where
  pub ids :
      (id : Uuid) → count (component_id id) d'.components ≡ count (component_id id) d.components
  pub slugs :
      (a : Uuid) (s : String)
      → count (has_slug a s) d'.components ≡ count (has_slug a s) d.components
  pub live : (a : Uuid) → components_by d'.components a ≡ components_by d.components a
  pub users : d'.users ≡ d.users

pub Same-IsCatalog : (d d' : Db) → IsSame d d' → IsCatalog d → IsCatalog d'
Same-IsCatalog d d' s c = record {
  key = λ id. omega (arith, c.key id, s.ids id);
  slugs = λ a n. omega (arith, c.slugs a n, s.slugs a n);
  counted = subst (Counts user_key components_count (components_by d'.components)) (sym s.users) (
      Counts-cong user_key components_count (components_by d.components)
        (components_by d'.components) d.users s.live c.counted);
}

pub Same-IsOwing : (y : Uuid) (d d' : Db) → IsSame d d' → IsOwing y d → IsOwing y d'
Same-IsOwing y d d' s c = record {
  key = λ id. omega (arith, c.key id, s.ids id);
  slugs = λ a n. omega (arith, c.slugs a n, s.slugs a n);
  before = c.before;
  more = λ a. s.live a ∙ c.more a;
  counted = subst (Counts user_key components_count c.before) (sym s.users) c.counted;
}

-- Other tables.
pub others-IsSame : (d d' : Db) → d'.components ≡ d.components → d'.users ≡ d.users → IsSame d d'
others-IsSame d d' e f = record {
  ids = λ id. ap (count (component_id id)) e;
  slugs = λ a s. ap (count (has_slug a s)) e;
  live = λ a. ap (count (live_by a)) e;
  users = f;
}

module _ (o : Orm) where
  -- Other columns of components.
  pub set_component-IsSame :
      (set : Component → Component) (id : Uuid) (d : Db)
      → ((c : Component) → (set c).id ≡ c.id)
      → ((c : Component) → (set c).author_id ≡ c.author_id)
      → ((c : Component) → (set c).slug ≡ c.slug)
      → ((c : Component) → (set c).deleted_at ≡ c.deleted_at)
      → IsSame d (set_component o set id d)
  unfolding set_component has_slug
  set_component-IsSame set id d ids authors slugs deleted = record {
    ids = λ x.
        count-update_same o (component_id x) (component_id id) set d.components
          (λ c. rw (ids c) refl);
    slugs = λ a s.
        count-update_same o (has_slug a s) (component_id id) set d.components
          (λ c. rw (authors c, slugs c, deleted c) refl);
    live = λ a.
        count-update_same o (live_by a) (component_id id) set d.components
          (λ c. rw (authors c, deleted c) refl);
    users = refl;
  }

  -- The increment of the author's counter.
  pub owner_inc-IsCatalog : (y : Uuid) (d : Db) → IsOwing y d → IsCatalog (set_user o owner_inc y d)
  unfolding set_user
  owner_inc-IsCatalog y d c = record {
    key = c.key;
    slugs = c.slugs;
    counted =
        Counts-inc o user_key components_count c.before (components_by d.components) y owner_inc
          d.users (λ u. refl) (λ u. refl) c.more c.counted;
  }
