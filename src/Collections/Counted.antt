-- ===== src/Collections/Counted.antt =====
-- The column `componentsCount` against the components of a collection.
use mathlib.Core.Option
use componi_back_nest.Prelude.{
  ℕ, ◌<◌, ◌≤◌, ◌≡◌, refl, sym, subst, ap, some, List, arith, count, bit, ◌==◌, Bool-cases, inl, inr,
  not, ◌&&◌, count_mono, eq_of_==, ◌⊎◌, pos, is_nat,
}
use componi_back_nest.Entities.Accounts.{Uuid}
use componi_back_nest.Entities.Content.{Collection, CollectionComponent}
use componi_back_nest.Platform.Orm.{Orm, insert-free, count-update_same}
use componi_back_nest.Platform.Counters.{
  Counts, Counts-inc, Counts-dec, Counts-same, Counts-cong, degree, degree-insert, degree-delete,
  degree-delete_none, Once, Once-insert, Once-delete,
}
use componi_back_nest.Database.{Db, item_of}
use componi_back_nest.Collections.{
  CreateCollectionDto, new_collection, collection_id, items_inc, items_dec, collection_deleted,
  insert_collection, insert_item, drop_item, set_collection,
}

abbrev item_collection : CollectionComponent → Uuid
item_collection i = i.collection_id

abbrev item_component : CollectionComponent → Uuid
item_component i = i.component_id

abbrev collection_key : Collection → Uuid
collection_key c = c.id

-- Each component is in a collection at most once, each collection has as many components as it
-- says, and a component is only in collections that there are.
pub record ItemsCounted (d : Db) : Type 0 where
  pub once : Once item_collection item_component d.collection_components
  pub counted :
      Counts collection_key
        (λ c. c.components_count)
        (degree item_collection d.collection_components)
        d.collections
  pub housed :
      (id : Uuid)
      → count (collection_id id) d.collections ≡ 0
      → degree item_collection d.collection_components id ≡ 0

module _ (o : Orm) (d : Db) (v : ItemsCounted d) where
  pub insert_collection-ItemsCounted :
      (owner : Uuid) (dto : CreateCollectionDto) (id at : ℕ) (d' : Db)
      → insert_collection o (new_collection owner dto id at) d ≡ some d'
      → ItemsCounted d'
  unfolding insert_collection new_collection is_nat
  insert_collection-ItemsCounted owner dto id at d' e =
      let (rows, done, same) = (Option.map-eq-some_iff _ _).0 e in
      let c = new_collection owner dto id at in
      rw (← same) (record {
        once = v.once;
        counted = omega (
          arith,
          v.counted,
          o.count-insert
              (λ r.
                not
                  (is_nat (degree item_collection d.collection_components r.id) r.components_count))
              (collection_id c.id) c d.collections rows done,
          fresh c rows
              (v.housed c.id (insert-free o (collection_id c.id) c d.collections rows done)),
        );
        housed = λ x none_left. v.housed x (
            omega (
              arith,
              none_left,
              o.count-insert (collection_id x) (collection_id c.id) c d.collections rows done,
            ));
      })
    where
      fresh :
          (c : Collection) (rows : List Collection)
          → degree item_collection d.collection_components id ≡ 0
          → bit (not (is_nat (degree item_collection d.collection_components id) (pos 0))) ≡ 0
      fresh c rows none_left = rw none_left refl

  still_housed :
      (set : Collection → Collection) (id : Uuid) (rows : List CollectionComponent)
      → ((c : Collection) → (set c).id ≡ c.id)
      → ((x : Uuid)
          → 0 < count (collection_id x) d.collections
            ⊎ degree item_collection rows x ≤ degree item_collection d.collection_components x)
      → (x : Uuid) → count (collection_id x) (o.update (collection_id id) set d.collections) ≡ 0
      → degree item_collection rows x ≡ 0
  still_housed set id rows same fewer x none_left =
      let there =
        count-update_same o (collection_id x) (collection_id id) set d.collections
          (λ c. rw (same c) refl) in
      elim (fewer x) [
        | inl some_one ↦ absurd (omega (arith, some_one, there, none_left))
        | inr less ↦
            omega (arith, less, there, none_left, v.housed x (omega (arith, there, none_left)))
      ]

  pub insert_item-ItemsCounted :
      (i : CollectionComponent) (d' : Db)
      → 0 < count (collection_id i.collection_id) d.collections
      → insert_item o i d ≡ some d'
      → ItemsCounted (set_collection o items_inc i.collection_id d')
  unfolding insert_item set_collection
  insert_item-ItemsCounted i d' there e =
      let (rows, done, same) = (Option.map-eq-some_iff _ _).0 e in
      let more =
        degree-insert o item_collection (item_of i.collection_id i.component_id) i.collection_id
          d.collection_components i rows refl done in
      rw (← same) (record {
        once =
            Once-insert o item_collection item_component d.collection_components i rows done v.once;
        counted =
            Counts-inc o collection_key (λ c. c.components_count)
              (degree item_collection d.collection_components) (degree item_collection rows)
              i.collection_id items_inc d.collections (λ c. refl) (λ c. refl) more v.counted;
        housed =
            still_housed items_inc i.collection_id rows (λ c. refl)
              (λ x. elim (Bool-cases (x == i.collection_id)) [
                | inl own ↦ inl (
                    subst (λ y. 0 < count (collection_id y) d.collections)
                      (sym (eq_of_== x i.collection_id own)) there)
                | inr other ↦ inr (omega (arith, more x, ap bit other))
              ]);
      })

  fewer_items :
      (id component x : Uuid)
      → degree item_collection (o.delete (item_of id component) d.collection_components) x
        ≤ degree item_collection d.collection_components x
  fewer_items id component x = omega (
    arith,
    o.count-delete (λ e. e.collection_id == x) (item_of id component) d.collection_components,
    count_mono (λ r. not (item_of id component r) && r.collection_id == x)
        (λ e. e.collection_id == x) d.collection_components (λ r k. ground (arith, k)),
  )

  pub drop_item-ItemsCounted :
      (id component : Uuid)
      → 0 < o.affected (item_of id component) d.collection_components
      → ItemsCounted (set_collection o items_dec id (drop_item o id component d))
  unfolding set_collection drop_item
  drop_item-ItemsCounted id component some_row = record {
    once =
        Once-delete o item_collection item_component d.collection_components (item_of id component)
          v.once;
    counted =
        Counts-dec o collection_key (λ c. c.components_count)
          (degree item_collection d.collection_components)
          (degree item_collection (o.delete (item_of id component) d.collection_components)) id
          items_dec d.collections (λ c. refl) (λ c. refl)
          (degree-delete o item_collection (item_of id component) id d.collection_components
            (λ r k. ground arith)
            (omega (
              arith,
              v.once id component,
              o.affected_lem (item_of id component) d.collection_components,
            )))
          v.counted;
    housed = still_housed items_dec id _ (λ c. refl) (λ x. inr (fewer_items id component x));
  }

  pub no_item-ItemsCounted :
      (id component : Uuid)
      → o.affected (item_of id component) d.collection_components ≡ 0
      → ItemsCounted (drop_item o id component d)
  unfolding drop_item
  no_item-ItemsCounted id component nothing = record {
    once =
        Once-delete o item_collection item_component d.collection_components (item_of id component)
          v.once;
    counted =
        Counts-cong collection_key (λ c. c.components_count)
          (degree item_collection d.collection_components)
          (degree item_collection (o.delete (item_of id component) d.collection_components))
          d.collections
          (degree-delete_none o item_collection (item_of id component) id d.collection_components
            (omega (arith, o.affected_lem (item_of id component) d.collection_components)))
          v.counted;
    housed = λ x none_left. omega (arith, fewer_items id component x, v.housed x none_left);
  }

  pub delete_collection-ItemsCounted :
      (id at : ℕ) → ItemsCounted (set_collection o (collection_deleted at) id d)
  unfolding set_collection collection_deleted
  delete_collection-ItemsCounted id at = record {
    once = v.once;
    counted =
        Counts-same o collection_key (λ c. c.components_count)
          (degree item_collection d.collection_components)
          (degree item_collection d.collection_components) id (collection_deleted at) d.collections
          (λ c. refl) (collection_id id) (λ c. refl) v.counted;
    housed = λ x none_left. v.housed x (
        omega (
          arith,
          none_left,
          count-update_same o (collection_id x) (collection_id id) (collection_deleted at)
              d.collections (λ c. refl),
        ));
  }
