-- ===== src/Components/Slugs.antt =====
-- slugify, findUniqueSlug and insertWithUniqueSlug.
use Prim.Native.String.{◌++◌}
use text.Mathlib.Text.{◌==◌ as str_eq}
use componi_back_nest.Prelude.{
  ℕ, zero, suc, ◌+◌, String, Bool, true, false, Option, none, some, ◌==◌, if◌then◌else◌,
}
use componi_back_nest.Entities.Accounts.{Uuid}
use componi_back_nest.Entities.Content.{Component}
use componi_back_nest.Platform.Js.{Js}
use componi_back_nest.Exec.{
  Exec, bad_request, Platform, pure, raise, gets, now, new_uuid, trx_insert, if_new, ◌>>=◌,
}
use componi_back_nest.Components.{NewComponent, component_row, has_slug, insert_component}

-- SLUG_RETRY_LIMIT
abbrev pub slug_retry_limit : ℕ
slug_retry_limit = 5

unfoldable pub slugify : Js → String → String
slugify js value =
    let stripped = js.slug_chars value in if str_eq stripped "" then "component" else stripped

-- attempt === 0 ? baseSlug : `${baseSlug}-${attempt + 1}`
unfoldable pub candidate : Js → String → ℕ → String
candidate js base attempt = if attempt == 0 then base else base ++ "-" ++ js.show (attempt + 1)

module _ (p : Platform) (js : Js) where
  -- The loop of insertWithUniqueSlug, with the attempts that are left.
  unfoldable pub insert_from : NewComponent → String → (left attempt : ℕ) → Exec Component
  unfolding candidate
  insert_from new base zero attempt = raise (bad_request "Could not allocate a unique slug")
  insert_from new base (suc left) attempt = do
    id ← new_uuid
    at ← now
    let row = component_row new (candidate js base attempt) id at
    fresh ← if_new (trx_insert (insert_component p.orm row))
    elim fresh [ true ↦ pure row | false ↦ insert_from new base left (attempt + 1) ]

  unfoldable pub insert_with_unique_slug : NewComponent → String → Exec Component
  insert_with_unique_slug new base = insert_from new base slug_retry_limit 0

  -- `!conflict || conflict.id === excludeId`
  unfoldable pub is_free : Uuid → Option Component → Bool
  is_free exclude none = true
  is_free exclude (some conflict) = conflict.id == exclude

  -- The loop of findUniqueSlug.
  unfoldable pub find_from : Uuid → String → Uuid → (left attempt : ℕ) → Exec String
  unfolding candidate is_free
  find_from author base exclude zero attempt =
      raise (bad_request "Could not allocate a unique slug")
  find_from author base exclude (suc left) attempt = do
    conflict ←
        gets (λ w. p.orm.find_one (has_slug author (candidate js base attempt)) w.db.components)
    elim (is_free exclude conflict) [
      | true ↦ pure (candidate js base attempt)
      | false ↦ find_from author base exclude left (attempt + 1)
    ]

  unfoldable pub find_unique_slug : Uuid → String → Uuid → Exec String
  find_unique_slug author base exclude = find_from author base exclude slug_retry_limit 0
