-- ===== src/Collections/Refinement.antt =====
-- A collection as a set of components: what the two transactions do to it.
use mathlib.Core.Option
use componi_back_nest.Prelude.{
  ℕ, ◌<◌, ◌≡◌, refl, sym, subst, Bool, true, false, Option, none, some, arith, count, ◌==◌, ltb,
  is_some, Bool-cases, inl, inr, if◌then◌else◌, not, ◌&&◌, ◌||◌, count_mono, count_none, count_cong,
}
use componi_back_nest.Entities.Accounts.{Uuid}
use componi_back_nest.Entities.Content.{CollectionComponent}
use componi_back_nest.Platform.Orm.{Orm, find_one-test}
use componi_back_nest.Database.{Db, live_collection, item_of}
use componi_back_nest.Collections.{
  items_inc, items_dec, new_item, insert_item, drop_item, set_collection, owned, add_trx,
  add_component, remove_trx, remove_component,
}
use componi_back_nest.Exec.{
  Exec, Platform, World, not_found, forbidden, pure, gets, write, in_trx, trx_insert, trx_write,
  trx_read, trx_delete, now, ◌>>=◌, ◌>>◌,
}
use componi_back_nest.Exec.Outcomes.{
  Post, bind-Post, in_trx-Post, insert-Post, present-Post, require-Post, committed-Post,
}

-- Is a component in a collection?
unfoldable pub contains : Db → Uuid → Uuid → Bool
contains d id component = ltb 0 (count (item_of id component) d.collection_components)

-- The sets of collections after one has gained or lost a component.
abbrev pub Gains : Uuid → Uuid → Db → Db → Type 0
Gains id component d d' =
    (x y : Uuid) → contains d' x y ≡ ((x == id && y == component) || contains d x y)

abbrev pub Loses : Uuid → Uuid → Db → Db → Type 0
Loses id component d d' =
    (x y : Uuid) → contains d' x y ≡ (not (x == id && y == component) && contains d x y)

module _ (o : Orm) (d : Db) (id component : Uuid) where
  insert_item-Gains :
      (at : ℕ) (d' : Db)
      → insert_item o (new_item id component at) d ≡ some d'
      → Gains id component d (set_collection o items_inc id d')
  unfolding insert_item new_item set_collection contains
  insert_item-Gains at d' e x y =
      let (rows, done, same) = (Option.map-eq-some_iff _ _).0 e in
      rw (← same) (
        ground (
          arith,
          o.count-insert (item_of x y) (item_of id component) (new_item id component at)
              d.collection_components rows done,
        ))

  present_item-Gains :
      (i : CollectionComponent)
      → o.find_one (item_of id component) d.collection_components ≡ some i
      → Gains id component d d
  unfolding contains
  present_item-Gains i e x y = elim (Bool-cases (x == id && y == component)) [
    | inr other ↦ rw other refl
    | inl own ↦ rw own (ground (arith, there own))
  ]
    where
      there : x == id && y == component ≡ true → 0 < count (item_of x y) d.collection_components
      there own = omega (
        arith,
        o.find_one_some (item_of id component) (item_of id component) d.collection_components i e
            (find_one-test o (item_of id component) d.collection_components i e),
        count_mono (λ r. item_of id component r && item_of id component r) (item_of x y)
            d.collection_components (λ r k. ground (arith, k, own)),
      )

  drop_item-Loses : Loses id component d (drop_item o id component d)
  unfolding contains drop_item
  drop_item-Loses x y = elim (Bool-cases (x == id && y == component)) [
    | inl own ↦ rw own (
        ground (
          arith,
          o.count-delete (item_of x y) (item_of id component) d.collection_components,
          count_none (λ r. not (item_of id component r) && item_of x y r) d.collection_components
              (λ r. ground (arith, own)),
        ))
    | inr other ↦ rw other (
        ground (
          arith,
          o.count-delete (item_of x y) (item_of id component) d.collection_components,
          count_cong (λ r. not (item_of id component r) && item_of x y r) (item_of x y)
              d.collection_components (λ r. ground (arith, other)),
        ))
  ]

module _ (p : Platform) where
  -- The checks only read.
  owned_clean :
      (id user : Uuid) (w : World) → w.aborted ≡ false → Post (λ _ u. u ≡ w) (owned p id user w)
  unfolding owned
  owned_clean id user w clean =
      let read = λ (u : World). p.orm.find_one (live_collection id) u.db.collections in
      bind-Post (λ _ u. u ≡ w) (λ _ u. u ≡ w) (in_trx (gets read)) _ w
        (in_trx-Post (λ _ u. u ≡ w) (gets read) w (λ _. refl))
        (λ o u k.
          present-Post (λ _ u. u ≡ w) o (not_found "Collection not found") _ u
            (λ c e.
              require-Post (λ _ u. u ≡ w) (c.owner_id == user) (forbidden "Forbidden") (pure c) u
                (λ own. k)))

  module _ (id component user : Uuid) (w : World) where
    abbrev begun : World
    begun = record w { aborted = false }

    abbrev Added : World → Type 0
    Added v = (v.aborted ≡ false) × Gains id component w.db v.db

    placed :
        (o : Option CollectionComponent)
        → p.orm.find_one (item_of id component) w.db.collection_components ≡ o
        → Post
            (λ _ v. Added v)
            ((if is_some o
                then pure tt
                else (trx_insert (insert_item p.orm (new_item id component w.clock))
                    >> trx_write (set_collection p.orm items_inc id)))
              begun)
    placed (some i) e = (refl, present_item-Gains p.orm w.db id component i e)
    placed none e =
        bind-Post
          (λ _ y.
            (y.aborted ≡ false) × Gains id component w.db (set_collection p.orm items_inc id y.db))
          (λ _ y. Added y) (trx_insert (insert_item p.orm (new_item id component w.clock))) _ begun
          (insert-Post
            (λ _ y.
              (y.aborted ≡ false)
              × Gains id component w.db (set_collection p.orm items_inc id y.db))
            (insert_item p.orm (new_item id component w.clock)) begun
            (λ d x. (refl, insert_item-Gains p.orm w.db id component w.clock d x)))
          (λ _ y m.
            in_trx-Post (λ _ z. Added z) (write (set_collection p.orm items_inc id)) y
              (λ clean. (clean, m.1)))

    -- What the two transactions do after their checks.
    abbrev add_checked : Exec Unit
    add_checked = do
      existing ← trx_read (λ d. p.orm.find_one (item_of id component) d.collection_components)
      at ← now
      if is_some existing then pure tt else do
        trx_insert (insert_item p.orm (new_item id component at))
        trx_write (set_collection p.orm items_inc id)

    abbrev remove_checked : Exec Unit
    remove_checked = do
      deleted ←
          trx_delete (λ d. p.orm.affected (item_of id component) d.collection_components)
            (drop_item p.orm id component)
      if ltb 0 deleted then trx_write (set_collection p.orm items_dec id) else pure tt

    add_trx-Added : Post (λ _ v. Added v) (add_trx p id component user begun)
    unfolding add_trx
    add_trx-Added =
        bind-Post (λ _ u. u ≡ begun) (λ _ v. Added v) (owned p id user) _ begun
          (owned_clean id user begun refl)
          (λ c u k.
            subst (λ v. Post (λ _ x. Added x) (add_checked v)) (sym k)
              (placed (p.orm.find_one (item_of id component) w.db.collection_components) refl))

    abbrev Removed : World → Type 0
    Removed v = (v.aborted ≡ false) × Loses id component w.db v.db

    taken :
        (b : Bool)
        → Post
            (λ _ v. Removed v)
            ((if b then trx_write (set_collection p.orm items_dec id) else pure tt)
              (record begun { db = drop_item p.orm id component w.db }))
    unfolding set_collection contains
    taken true = (refl, drop_item-Loses p.orm w.db id component)
    taken false = (refl, drop_item-Loses p.orm w.db id component)

    remove_trx-Removed : Post (λ _ v. Removed v) (remove_trx p id component user begun)
    unfolding remove_trx
    remove_trx-Removed =
        bind-Post (λ _ u. u ≡ begun) (λ _ v. Removed v) (owned p id user) _ begun
          (owned_clean id user begun refl)
          (λ c u k.
            subst (λ v. Post (λ _ x. Removed x) (remove_checked v)) (sym k)
              (taken (ltb 0 (p.orm.affected (item_of id component) w.db.collection_components))))

    -- If adding a component to a collection returns, the collection has that component and what it
    -- had before; if removing one returns, the collection has what it had but for that component.
    -- In both cases every other collection has what it had.
    pub collection_refines_set :
        Post (λ _ v. Gains id component w.db v.db) (add_component p id component user w)
        × Post (λ _ v. Loses id component w.db v.db) (remove_component p id component user w)
    unfolding add_component remove_component
    collection_refines_set = (
      committed-Post p.orm (Gains id component w.db) (add_trx p id component user) w add_trx-Added,
      committed-Post p.orm (Loses id component w.db) (remove_trx p id component user) w
          remove_trx-Removed,
    )
