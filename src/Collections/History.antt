-- ===== src/Collections/History.antt =====
-- Collections made, filled, emptied and removed: the counters stay right.
use componi_back_nest.Prelude.{
  ℕ, suc, ◌<◌, ◌≡◌, refl, sym, subst, ◌∙◌, Bool, true, false, some, List, [], ◌∷◌, arith, count,
  ◌==◌, ltb, is_some, Option-cases, Bool-cases, inl, inr, if◌then◌else◌, ◌&&◌, count_mono,
}
use componi_back_nest.Entities.Accounts.{Uuid}
use componi_back_nest.Entities.Content.{Collection}
use componi_back_nest.Platform.Orm.{find_one-test}
use componi_back_nest.Database.{live_collection, item_of}
use componi_back_nest.Collections.{
  CreateCollectionDto, new_collection, collection_id, items_inc, items_dec, new_item,
  insert_collection, insert_item, drop_item, set_collection, create, owned, add_trx, add_component,
  remove_trx, remove_component, remove,
}
use componi_back_nest.Exec.{
  Exec, Platform, World, ok, not_found, forbidden, pure, gets, write, in_trx, trx_insert, trx_write,
  insert_alone, bind_keeps, ◌>>◌,
}
use componi_back_nest.Exec.Keeps.{insert_alone_keeps}
use componi_back_nest.Exec.Outcomes.{
  Post, bind-Post, in_trx-Post, insert-Post, present-Post, require-Post, transaction-Post,
}
use componi_back_nest.Collections.Counted.{
  ItemsCounted, insert_collection-ItemsCounted, insert_item-ItemsCounted, drop_item-ItemsCounted,
  no_item-ItemsCounted, delete_collection-ItemsCounted,
}

-- What happens to collections.
pub data CollectionRequest : Type 0 where
  creates : (user : Uuid) → CreateCollectionDto → CollectionRequest
  adds removes_item : (user id component : Uuid) → CollectionRequest
  removes : (user id : Uuid) → CollectionRequest

module _ (p : Platform) where
  -- The world after a request, whether it returned or threw.
  unfoldable pub serve : CollectionRequest → World → World
  serve (creates user dto) w = (create p user dto w).1
  serve (adds user id component) w = (add_component p id component user w).1
  serve (removes_item user id component) w = (remove_component p id component user w).1
  serve (removes user id) w = (remove p id user w).1

  unfoldable pub serve_all : List CollectionRequest → World → World
  serve_all [] w = w
  serve_all (r ∷ rest) w = serve_all rest (serve r w)

  create-ItemsCounted :
      (user : Uuid) (dto : CreateCollectionDto) (w : World)
      → ItemsCounted w.db
      → ItemsCounted (create p user dto w).1.db
  unfolding create
  create-ItemsCounted user dto w v =
      let c = new_collection user dto (w.uuids w.drawn) w.clock in
      bind_keeps (λ u. ItemsCounted u.db) (insert_alone (insert_collection p.orm c)) _
        (record w { drawn = suc w.drawn })
        (insert_alone_keeps ItemsCounted (insert_collection p.orm c)
          (record w { drawn = suc w.drawn }) v
          (λ d e.
            insert_collection-ItemsCounted p.orm w.db v user dto (w.uuids w.drawn) w.clock d e))
        (λ _ u h. h)

  remove-ItemsCounted :
      (user id : Uuid) (w : World) → ItemsCounted w.db → ItemsCounted (remove p id user w).1.db
  unfolding remove
  remove-ItemsCounted user id w v =
      elim (Option-cases (p.orm.find_one (live_collection id) w.db.collections)) [
        | inl e ↦ rw e v
        | inr (c, e) ↦ elim (Bool-cases (c.owner_id == user)) [
          | inl own ↦ rw (e, own) (delete_collection-ItemsCounted p.orm w.db v c.id w.clock)
          | inr other ↦ rw (e, other) v
        ]
      ]

  -- The collection is there.
  abbrev Found : Uuid → World → Type 0
  Found id w = ItemsCounted w.db × (0 < count (collection_id id) w.db.collections)

  owned-Found :
      (id user : Uuid) (w : World)
      → ItemsCounted w.db
      → Post (λ _ u. Found id u) (owned p id user w)
  unfolding owned
  owned-Found id user w v =
      let read = λ (u : World). p.orm.find_one (live_collection id) u.db.collections in
      bind-Post (λ o u. (u ≡ w) × (o ≡ read w)) (λ _ u. Found id u) (in_trx (gets read)) _ w
        (in_trx-Post (λ o u. (u ≡ w) × (o ≡ read w)) (gets read) w (λ _. (refl, refl)))
        (λ o u k.
          present-Post (λ _ u. Found id u) o (not_found "Collection not found") _ u
            (λ c e.
              require-Post (λ _ u. Found id u) (c.owner_id == user) (forbidden "Forbidden") (pure c)
                u (λ own. subst (Found id) (sym k.0) (v, there c (sym k.1 ∙ e)))))
    where
      there :
          (c : Collection)
          → p.orm.find_one (live_collection id) w.db.collections ≡ some c
          → 0 < count (collection_id id) w.db.collections
      there c e = omega (
        arith,
        p.orm.find_one_some (live_collection id) (live_collection id) w.db.collections c e
            (find_one-test p.orm (live_collection id) w.db.collections c e),
        count_mono (λ x. live_collection id x && live_collection id x) (collection_id id)
            w.db.collections (λ x k. ground (arith, k)),
      )

  add_trx-ItemsCounted :
      (user id component : Uuid) (w : World)
      → ItemsCounted w.db
      → Post (λ _ u. ItemsCounted u.db) (add_trx p id component user w)
  unfolding add_trx new_item
  add_trx-ItemsCounted user id component w v =
      let read = λ (u : World). p.orm.find_one (item_of id component) u.db.collection_components in
      bind-Post (λ _ u. Found id u) (λ _ u. ItemsCounted u.db) (owned p id user) _ w
        (owned-Found id user w v)
        (λ c u k.
          bind-Post (λ _ x. Found id x) (λ _ x. ItemsCounted x.db) (in_trx (gets read)) _ u
            (in_trx-Post (λ _ x. Found id x) (gets read) u (λ _. k))
            (λ existing x l. placed (is_some existing) x l))
    where
      placed :
          (there : Bool) (x : World)
          → Found id x
          → Post
              (λ _ y. ItemsCounted y.db)
              ((if there
                  then pure tt
                  else (trx_insert (insert_item p.orm (new_item id component x.clock))
                      >> trx_write (set_collection p.orm items_inc id)))
                x)
      placed true x l = l.0
      placed false x l =
          bind-Post (λ _ y. ItemsCounted (set_collection p.orm items_inc id y.db))
            (λ _ y. ItemsCounted y.db)
            (trx_insert (insert_item p.orm (new_item id component x.clock))) _ x
            (insert-Post (λ _ y. ItemsCounted (set_collection p.orm items_inc id y.db))
              (insert_item p.orm (new_item id component x.clock)) x
              (λ d e.
                insert_item-ItemsCounted p.orm x.db l.0 (new_item id component x.clock) d l.1 e))
            (λ _ y m.
              in_trx-Post (λ _ z. ItemsCounted z.db) (write (set_collection p.orm items_inc id)) y
                (λ _. m))

  -- After the delete: is a component left to be uncounted?
  abbrev Left : Uuid → Bool → World → Type 0
  Left id true x = ItemsCounted (set_collection p.orm items_dec id x.db)
  Left id false x = ItemsCounted x.db

  dropped :
      (id component : Uuid) (u : World)
      → ItemsCounted u.db
      → (b : Bool) → ltb 0 (p.orm.affected (item_of id component) u.db.collection_components) ≡ b
      → Left id b (record u { db = drop_item p.orm id component u.db })
  dropped id component u v true e =
      drop_item-ItemsCounted p.orm u.db v id component (ground (arith, e))
  dropped id component u v false e =
      no_item-ItemsCounted p.orm u.db v id component (ground (arith, e))

  uncounted :
      (id : Uuid) (b : Bool) (x : World)
      → Left id b x
      → Post
          (λ _ y. ItemsCounted y.db)
          ((if b then trx_write (set_collection p.orm items_dec id) else pure tt) x)
  uncounted id true x l =
      in_trx-Post (λ _ z. ItemsCounted z.db) (write (set_collection p.orm items_dec id)) x (λ _. l)
  uncounted id false x l = l

  remove_trx-ItemsCounted :
      (user id component : Uuid) (w : World)
      → ItemsCounted w.db
      → Post (λ _ u. ItemsCounted u.db) (remove_trx p id component user w)
  unfolding remove_trx
  remove_trx-ItemsCounted user id component w v =
      bind-Post (λ _ u. Found id u) (λ _ u. ItemsCounted u.db) (owned p id user) _ w
        (owned-Found id user w v)
        (λ c u k.
          let delete : Exec ℕ = λ x. (
            ok (p.orm.affected (item_of id component) x.db.collection_components),
            record x { db = drop_item p.orm id component x.db },
          ) in
          bind-Post (λ n x. Left id (ltb 0 n) x) (λ _ x. ItemsCounted x.db) (in_trx delete) _ u
            (in_trx-Post (λ n x. Left id (ltb 0 n) x) delete u
              (λ _.
                dropped id component u k.0
                  (ltb 0 (p.orm.affected (item_of id component) u.db.collection_components)) refl))
            (λ n x l. uncounted id (ltb 0 n) x l))

  serve-ItemsCounted :
      (r : CollectionRequest) (w : World) → ItemsCounted w.db → ItemsCounted (serve r w).db
  unfolding serve add_component remove_component
  serve-ItemsCounted (creates user dto) w v = create-ItemsCounted user dto w v
  serve-ItemsCounted (adds user id component) w v =
      transaction-Post p.orm ItemsCounted (add_trx p id component user) w v
        (add_trx-ItemsCounted user id component (record w { aborted = false }) v)
  serve-ItemsCounted (removes_item user id component) w v =
      transaction-Post p.orm ItemsCounted (remove_trx p id component user) w v
        (remove_trx-ItemsCounted user id component (record w { aborted = false }) v)
  serve-ItemsCounted (removes user id) w v = remove-ItemsCounted user id w v

  -- If each component is in a collection at most once, every `componentsCount` is the number of the
  -- collection's components, and there is a collection for every row of `collection_components`,
  -- then this is so after any sequence of requests that create and remove collections and add and
  -- remove their components, whether each succeeds or throws.
  pub serve_all-ItemsCounted :
      (list : List CollectionRequest) (w : World)
      → ItemsCounted w.db
      → ItemsCounted (serve_all list w).db
  unfolding serve_all
  serve_all-ItemsCounted [] w v = v
  serve_all-ItemsCounted (r ∷ rest) w v =
      serve_all-ItemsCounted rest (serve r w) (serve-ItemsCounted r w v)
