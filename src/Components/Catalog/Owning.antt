-- ===== src/Components/Catalog/Owning.antt =====
-- What the author does to a component: saveDraft, publish, update, remove, setThumbnail.
use componi_back_nest.Prelude.{
  ℕ, zero, suc, ◌+◌, ◌≡◌, refl, sym, subst, ◌∙◌, String, Bool, true, false, Option, some, none,
  arith,
}
use componi_back_nest.Entities.Accounts.{Uuid}
use componi_back_nest.Entities.Content.{Component}
use componi_back_nest.Platform.Orm.{find_one-test}
use componi_back_nest.Platform.Js.{Js}
use componi_back_nest.Database.{live_component}
use componi_back_nest.Components.{MetadataDto, has_slug, save_component}
use componi_back_nest.Components.Slugs.{
  slugify, candidate, is_free, find_from, find_unique_slug, slug_retry_limit,
}
use componi_back_nest.Components.Owner.{
  new_name, describe, port, classify, amend, rename, apply_metadata,
}
use componi_back_nest.Components.Catalog.{IsCatalog}
use componi_back_nest.Components.Catalog.Changes.{
  IsFree, own_slug-IsFree, save_component-IsCatalog, is_free-IsFree,
}
use componi_back_nest.Exec.{Exec, World, Platform, pure, bind_keeps}
use componi_back_nest.Exec.Outcomes.{Post, bind-Post}

-- The entity stands for the row that was loaded: the same id, author and deletion.
pub record IsOf (c c' : Component) : Type 0 where
  pub ids : c'.id ≡ c.id
  pub authors : c'.author_id ≡ c.author_id
  pub deleted : c'.deleted_at ≡ c.deleted_at

pub same-IsOf : (c : Component) → IsOf c c
same-IsOf c = record { ids = refl; authors = refl; deleted = refl }

-- applyMetadata after the rename leaves the slug and what IsOf says.
module _ (dto : MetadataDto) (c0 c : Component) (changed : Bool) where
  amend-IsOf : IsOf c0 c → IsOf c0 (amend dto (c, changed)).0
  unfolding amend describe port classify
  amend-IsOf h = record {
    ids = kept_id ∙ h.ids;
    authors = kept_author ∙ h.authors;
    deleted = kept_deleted ∙ h.deleted;
  }
    where
      kept_id : (amend dto (c, changed)).0.id ≡ c.id
      kept_id = ground arith

      kept_author : (amend dto (c, changed)).0.author_id ≡ c.author_id
      kept_author = ground arith

      kept_deleted : (amend dto (c, changed)).0.deleted_at ≡ c.deleted_at
      kept_deleted = ground arith

  slug-amend : (amend dto (c, changed)).0.slug ≡ c.slug
  unfolding amend describe port classify
  slug-amend = ground arith

-- A rename only reads.
module _ (p : Platform) (js : Js) (w : World) where
  find_from_world :
      (author : Uuid) (base : String) (exclude : Uuid) (left attempt : ℕ)
      → (find_from p js author base exclude left attempt w).1 ≡ w
  unfolding find_from
  find_from_world author base exclude zero attempt = refl
  find_from_world author base exclude (suc left) attempt =
      ground (arith, find_from_world author base exclude left (attempt + 1))

  pub apply_metadata_world :
      (c : Component) (dto : MetadataDto) → (apply_metadata p js c dto w).1 ≡ w
  unfolding apply_metadata rename find_unique_slug
  apply_metadata_world c dto =
      bind_keeps (λ v. v ≡ w) (rename p js c (new_name c dto.name)) _ w
        (renamed (new_name c dto.name)) (λ _ v e. e)
    where
      renamed : (name : Option String) → (rename p js c name w).1 ≡ w
      renamed none = refl
      renamed (some name) =
          bind_keeps (λ v. v ≡ w)
            (find_from p js c.author_id (slugify js name) c.id slug_retry_limit 0) _ w
            (find_from_world c.author_id (slugify js name) c.id slug_retry_limit 0) (λ _ v e. e)

module _ (p : Platform) (js : Js) (w : World) (v : IsCatalog w.db) where
  -- findUniqueSlug only reads, and what it settles on is free.
  find_from-IsFree :
      (author : Uuid) (base : String) (exclude : Uuid) (left attempt : ℕ)
      → Post
          (λ s u. (u ≡ w) × IsFree exclude author s w.db)
          (find_from p js author base exclude left attempt w)
  unfolding find_from
  find_from-IsFree author base exclude zero attempt = tt
  find_from-IsFree author base exclude (suc left) attempt =
      decided (is_free p js exclude (p.orm.find_one (has_slug author slug) w.db.components)) refl
        (find_from-IsFree author base exclude left (attempt + 1))
    where
      slug : String
      slug = candidate js base attempt

      decided :
          (b : Bool)
          → is_free p js exclude (p.orm.find_one (has_slug author slug) w.db.components) ≡ b
          → Post
              (λ s u. (u ≡ w) × IsFree exclude author s w.db)
              (find_from p js author base exclude left (attempt + 1) w)
          → Post
              (λ s u. (u ≡ w) × IsFree exclude author s w.db)
              ((elim b as (λ _. Exec String) [
                | true ↦ pure slug
                | false ↦ find_from p js author base exclude left (attempt + 1)
              ])
                w)
      decided true e rest = (refl, is_free-IsFree p js w.db exclude author slug v e)
      decided false e rest = rest

  module _ (id user : Uuid) (c : Component)
      (found : p.orm.find_one (live_component id) w.db.components ≡ some c) where
    -- The entity may be saved: it is the row's, with a slug that is free.
    abbrev pub Savable : Component → Type 0
    Savable c' = IsOf c c' × IsFree id c.author_id c'.slug w.db

    pub found_id : c.id ≡ id
    found_id = ground (arith, find_one-test p.orm (live_component id) w.db.components c found)

    rename-Savable :
        (name : Option String) → Post (λ s u. (u ≡ w) × Savable s.0) (rename p js c name w)
    unfolding rename find_unique_slug
    rename-Savable none = (refl, (same-IsOf c, own_slug-IsFree p.orm w.db v id c found))
    rename-Savable (some name) =
        bind-Post (λ s u. (u ≡ w) × IsFree c.id c.author_id s w.db) (λ s u. (u ≡ w) × Savable s.0)
          (find_unique_slug p js c.author_id (slugify js name) c.id) _ w
          (find_from-IsFree c.author_id (slugify js name) c.id slug_retry_limit 0)
          (λ slug u k. (
            k.0,
            (
              record { ids = refl; authors = refl; deleted = refl },
              subst (λ y. IsFree y c.author_id slug w.db) found_id k.1,
            ),
          ))

    pub apply_metadata-Savable :
        (dto : MetadataDto) → Post (λ s u. (u ≡ w) × Savable s.0) (apply_metadata p js c dto w)
    unfolding apply_metadata
    apply_metadata-Savable dto =
        bind-Post (λ s u. (u ≡ w) × Savable s.0) (λ s u. (u ≡ w) × Savable s.0)
          (rename p js c (new_name c dto.name)) _ w (rename-Savable (new_name c dto.name))
          (λ s u k. (
            k.0,
            (
              amend-IsOf dto c s.0 s.1 k.1.0,
              subst (λ slug. IsFree id c.author_id slug w.db) (sym (slug-amend dto c s.0 s.1))
                  k.1.1,
            ),
          ))

    pub saved-IsCatalog : (c' : Component) → Savable c' → IsCatalog (save_component p.orm c' w.db)
    saved-IsCatalog c' k =
        save_component-IsCatalog p.orm w.db v id c found c' (k.0.ids ∙ found_id) k.0.authors
          k.0.deleted k.1
