-- ===== src/Components/Create/Clash.antt =====
-- What becomes of a new component whose slug its author has used.
use componi_back_nest.Prelude.{
  ℕ, suc, ◌<◌, ◌≡◌, refl, String, Bool, true, false, none, count, count_mono, arith, ◌||◌, ◌==◌,
}
use componi_back_nest.Entities.Accounts.{Uuid}
use componi_back_nest.Entities.Content.{Component, Tag}
use componi_back_nest.Platform.Js.{Js, Embedder}
use componi_back_nest.Components.{
  CreateComponentDto, NewComponent, component_row, has_slug, insert_component,
}
use componi_back_nest.Components.Slugs.{slugify, candidate, insert_from, insert_with_unique_slug}
use componi_back_nest.Components.Create.{
  embed_published, create, create_trx, new_component, finish_create,
}
use componi_back_nest.Exec.{
  Exec, World, Platform, err, Error, query_failed, in_failed_sql_transaction, ◌>>=◌,
}

module _ (p : Platform) (js : Js) where
  -- In a transaction that has failed, no attempt succeeds.
  aborted-insert_from :
      (new : NewComponent) (base : String) (left attempt : ℕ) (w : World)
      → w.aborted ≡ true
      → (insert_from p js new base (suc left) attempt w).0
        ≡ err (query_failed in_failed_sql_transaction)
  unfolding insert_from
  aborted-insert_from new base left attempt w h = rw h refl

  module _ (new : NewComponent) (base : String) (w : World)
      (clash : 0 < count (has_slug new.author_id base) w.db.components) where
    abbrev row : Component
    row = component_row new base (w.uuids w.drawn) w.clock

    taken : insert_component p.orm row w.db ≡ none
    unfolding insert_component component_row
    taken =
        rw
          (p.orm.insert_clash (λ r. r.id == row.id || has_slug row.author_id row.slug r) row
            w.db.components
            (omega (
              arith,
              clash,
              count_mono (has_slug new.author_id base)
                  (λ r. r.id == row.id || has_slug row.author_id row.slug r) w.db.components
                  (λ r k. ground (arith, k)),
            )))
          refl

    second-insert :
        w.aborted ≡ false
        → (insert_with_unique_slug p js new base w).0 ≡ err (query_failed in_failed_sql_transaction)
    unfolding insert_with_unique_slug insert_from candidate
    second-insert clean = rw (clean, taken) refl

-- What throws, throws.
bind-err :
    {A B : Type 0} (m : Exec A) (f : A → Exec B) (w : World) (e : Error)
    → (m w).0 ≡ err e
    → (((m >>= f) w).0 ≡ err e) × (((m >>= f) w).1 ≡ (m w).1)
bind-err m f w e h = (rw h refl, rw h refl)

module _ (p : Platform) (js : Js) (e : Embedder) (by_slug : Tag → Tag → Bool) (user : Uuid)
    (dto : CreateComponentDto) (w : World) where
  -- If the author has a live component with the slug of the name, `create` throws the driver's
  -- error 25P02 (a statement in a failed transaction) and leaves the database as it was: the first
  -- retry of the loop fails in the transaction that the clash has aborted, so no numbered slug is
  -- ever taken.
  pub create_clash :
      0 < count (has_slug user (slugify js dto.name)) w.db.components
      → ((create p js e by_slug user dto w).0 ≡ err (query_failed in_failed_sql_transaction))
        × ((create p js e by_slug user dto w).1.db ≡ w.db)
  unfolding create create_trx embed_published new_component
  create_clash clash =
      let begun = record w { aborted = false } in
      let failed =
        (bind-err (insert_with_unique_slug p js (new_component user dto) (slugify js dto.name))
          (finish_create p js user dto) begun (query_failed in_failed_sql_transaction)
          (second-insert p js (new_component user dto) (slugify js dto.name) begun clash refl)).0 in
      (rw failed refl, rw failed (p.orm.settle_rollback w.db _ _))
