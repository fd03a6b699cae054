-- ===== src/Components/Catalog/Entering.antt =====
-- create and fork: a new component has a slug of its own among those of its author, and is counted.
use componi_back_nest.Prelude.{
  ℕ, zero, suc, ◌+◌, ◌≡◌, refl, sym, subst, ◌∙◌, String, Bool, true, false, Option, some, none,
  is_none, [], ◌∷◌, ◌==◌, ◌||◌, not, Bool-cases, inl, inr, if◌then◌else◌,
}
use componi_back_nest.Entities.Accounts.{Uuid, NotificationType, fork_key}
use componi_back_nest.Entities.Content.{Component, ComponentVersion, Tag}
use componi_back_nest.Platform.Js.{Js, Embedder}
use componi_back_nest.Database.{Db, live_component}
use componi_back_nest.Notifications
use componi_back_nest.Notifications.Frame.{enqueue_db}
use componi_back_nest.Embeddings.{is_tag_of, enqueue}
use componi_back_nest.Moderation.Blocks.{blocked_pair, is_blocked_either_way}
use componi_back_nest.Social.{set_component, set_user}
use componi_back_nest.Messages.{CacheTag, feed_trending, author}
use componi_back_nest.Cache.{invalidate_tags}
use componi_back_nest.Components.{
  CreateComponentDto, ForkComponentDto, NewComponent, owner_inc, forks_inc, component_row,
  insert_component,
}
use componi_back_nest.Components.Slugs.{
  slugify, candidate, slug_retry_limit, insert_from, insert_with_unique_slug,
}
use componi_back_nest.Components.Create.{
  new_component, first_version, attach_some, finish_create, create_trx, create, embed_published,
  tag_slugs, fork_payload, forkable, source_version, fork_name, finish_fork, fork_trx, fork,
  new_fork,
}
use componi_back_nest.Components.Catalog.{
  IsCatalog, IsOwing, Same-IsCatalog, Same-IsOwing, set_component-IsSame, owner_inc-IsCatalog,
}
use componi_back_nest.Exec.Keeps.{one_of_two, kept-Post, trx_write_keeps, in_trx_keeps, present_db}
use componi_back_nest.Components.Catalog.Frames.{
  embed_keeps, attach_some_keeps, first_version_keeps,
}
use componi_back_nest.Components.Catalog.Changes.{insert_component-IsOwing}
use componi_back_nest.Exec.{
  Exec, World, Platform, Result, ok, err, trx_insert, trx_write, in_trx, if_new, caught,
  query_failed, unique_violation, ◌>>◌, pure, gets, bind_keeps, require_keeps, if_keeps, present,
  transaction, not_found, bad_request, write,
}
use componi_back_nest.Exec.Outcomes.{Post, bind-Post, in_trx-Post, transaction-Post}

module _ (p : Platform) (js : Js) where
  -- After an attempt: the row stands, or nothing has changed.
  abbrev Tried : Uuid → Bool → World → Type 0
  Tried y true v = IsOwing y v.db
  Tried y false v = IsCatalog v.db

  attempt-Tried :
      (c : Component) (w : World)
      → is_none c.deleted_at ≡ true
      → IsCatalog w.db
      → Post (Tried c.author_id) (if_new (trx_insert (insert_component p.orm c)) w)
  attempt-Tried c w live h =
      one_of_two (λ (s : Result Unit × World). Post (Tried c.author_id) (caught s)) w.aborted _ _ tt
        (tried (insert_component p.orm c w.db)
          (λ d e. insert_component-IsOwing p.orm w.db h c d live e))
    where
      tried :
          (o : Option Db)
          → ((d : Db) → o ≡ some d → IsOwing c.author_id d)
          → Post (Tried c.author_id) (
              caught (elim o as (λ _. Result Unit × World) [
                | none ↦ (err (query_failed unique_violation), record w { aborted = true })
                | some d ↦ (ok tt, record w { db = d })
              ]))
      tried none k = h
      tried (some d) k = k d refl

  insert_from-IsOwing :
      (new : NewComponent) (base : String) (left attempt : ℕ) (w : World)
      → IsCatalog w.db
      → Post (λ _ v. IsOwing new.author_id v.db) (insert_from p js new base left attempt w)
  unfolding insert_from component_row
  insert_from-IsOwing new base zero attempt w h = tt
  insert_from-IsOwing new base (suc left) attempt w h =
      bind-Post (Tried new.author_id) (λ _ v. IsOwing new.author_id v.db)
        (if_new (
          trx_insert (
            insert_component p.orm
              (component_row new (candidate js base attempt) (w.uuids w.drawn) w.clock))))
        _ (record w { drawn = suc w.drawn })
        (attempt-Tried (component_row new (candidate js base attempt) (w.uuids w.drawn) w.clock)
          (record w { drawn = suc w.drawn }) refl h)
        (next (insert_from-IsOwing new base left (attempt + 1)))
    where
      row : Component
      row = component_row new (candidate js base attempt) (w.uuids w.drawn) w.clock

      next :
          ((v : World)
            → IsCatalog v.db
            → Post
                (λ _ u. IsOwing new.author_id u.db)
                (insert_from p js new base left (attempt + 1) v))
          → (fresh : Bool) (v : World) → Tried new.author_id fresh v
          → Post
              (λ _ v. IsOwing new.author_id v.db)
              ((elim fresh as (λ _. Exec Component) [
                | true ↦ pure row
                | false ↦ insert_from p js new base left (attempt + 1)
              ])
                v)
      next rest true v k = k
      next rest false v k = rest v k

  -- The counter of the author, at the end of both transactions.
  counted-Post :
      {B : Type 0} (y : Uuid) (m : Exec B) (w : World)
      → IsOwing y w.db
      → ((v : World) → (m v).1.db ≡ v.db)
      → Post (λ _ v. IsCatalog v.db) ((trx_write (set_user p.orm owner_inc y) >> m) w)
  counted-Post y m w h quiet =
      bind-Post (λ _ v. v.db ≡ set_user p.orm owner_inc y w.db) (λ _ v. IsCatalog v.db)
        (trx_write (set_user p.orm owner_inc y)) (λ _. m) w
        (in_trx-Post (λ _ v. v.db ≡ set_user p.orm owner_inc y w.db)
          (write (set_user p.orm owner_inc y)) w (λ _. refl))
        (λ _ v e.
          kept-Post IsCatalog (m v)
            (subst IsCatalog (sym (quiet v ∙ e)) (owner_inc-IsCatalog p.orm y w.db h)))

  drop_feeds_db :
      (user : Uuid) (row : Component) (w : World)
      → (((if row.is_draft then pure tt else invalidate_tags p (feed_trending ∷ author user ∷ []))
            >> pure row)
          w).1.db
        ≡ w.db
  unfolding invalidate_tags
  drop_feeds_db user row w = elim (Bool-cases row.is_draft) [
    | inl e ↦ rw e refl
    | inr e ↦ rw e refl
  ]

  module _ (user : Uuid) (dto : CreateComponentDto) where
    finish_create-IsCatalog :
        (row : Component) (w : World)
        → IsOwing user w.db
        → Post (λ _ v. IsCatalog v.db) (finish_create p js user dto row w)
    unfolding finish_create
    finish_create-IsCatalog row w h =
        bind-Post (λ _ v. IsOwing user v.db) (λ _ v. IsCatalog v.db) (first_version p js row _) _ w
          (kept-Post (IsOwing user) _
            (first_version_keeps p js (IsOwing user) (Same-IsOwing user) row _ w h))
          (λ row' v k.
            bind-Post (λ _ v. IsOwing user v.db) (λ _ v. IsCatalog v.db)
              (attach_some p js row'.id dto.tag_slugs) _ v
              (kept-Post (IsOwing user) _ (
                attach_some_keeps p js (IsOwing user) (Same-IsOwing user) row'.id dto.tag_slugs v
                  k))
              (λ _ u l. counted-Post user _ u l (λ x. drop_feeds_db user row' x)))

    create_trx-IsCatalog :
        (w : World) → IsCatalog w.db → Post (λ _ v. IsCatalog v.db) (create_trx p js user dto w)
    unfolding create_trx insert_with_unique_slug new_component
    create_trx-IsCatalog w h =
        bind-Post (λ _ v. IsOwing user v.db) (λ _ v. IsCatalog v.db)
          (insert_with_unique_slug p js (new_component user dto) (slugify js dto.name))
          (finish_create p js user dto) w
          (insert_from-IsOwing (new_component user dto) (slugify js dto.name) slug_retry_limit 0 w
            h)
          (λ row v k. finish_create-IsCatalog row v k)

  module _ (parent_id user : Uuid) (dto : ForkComponentDto) where
    forkable_keeps : (w : World) → IsCatalog w.db → IsCatalog (forkable p js parent_id user w).1.db
    unfolding forkable is_blocked_either_way
    forkable_keeps w h =
        let In = λ (v : World). IsCatalog v.db in
        let read = λ (v : World). p.orm.find_one (live_component parent_id) v.db.components in
        bind_keeps In (in_trx (gets read)) _ w (in_trx_keeps In (gets read) w h h) (λ found v k.
          bind_keeps In (present found (not_found "Component not found")) _ v
            (present_db IsCatalog found _ v k)
            (λ parent u l. require_keeps In (is_none parent.deleted_at) _ _ u l (
              require_keeps In (parent.is_public || parent.author_id == user) _ _ u l (
                require_keeps In (not parent.is_draft) _ _ u l (
                  let blocked = λ (x : World). blocked_pair p user parent.author_id x.db in
                  bind_keeps In (if parent.author_id == user then pure false else gets blocked) _ u
                    (if_keeps In (parent.author_id == user) (pure false) (gets blocked) u l l)
                    (λ hidden x n. require_keeps In (not hidden) _ _ x n n))))))

    source_version_keeps :
        (parent : Component) (w : World)
        → IsCatalog w.db
        → IsCatalog (source_version p js parent w).1.db
    unfolding source_version
    source_version_keeps parent w h =
        let In = λ (v : World). IsCatalog v.db in
        bind_keeps In
          (present parent.current_version_id (bad_request "Parent has no published version")) _ w
          (present_db IsCatalog parent.current_version_id _ w h)
          (λ id v k.
            let read =
              λ (x : World). p.orm.find_one (λ (r : ComponentVersion). r.id == id) x.db.versions in
            bind_keeps In (in_trx (gets read)) _ v (in_trx_keeps In (gets read) v k k)
              (λ found u l. present_db IsCatalog found _ u l))

    tell_db :
        (parent row : Component) (w : World)
        → ((Notifications.enqueue p parent.author_id NotificationType.version
                (fork_payload row.id parent.id)
                (some user)
                (some (fork_key row.id))
              >> (invalidate_tags p (CacheTag.component parent.id ∷ feed_trending ∷ [])
                  >> pure row))
            w).1.db
          ≡ w.db
    unfolding invalidate_tags
    tell_db parent row w =
        bind_keeps (λ v. v.db ≡ w.db) (Notifications.enqueue p _ _ _ _ _) _ w
          (enqueue_db p parent.author_id NotificationType.version (fork_payload row.id parent.id)
            (some user) (some (fork_key row.id)) w)
          (λ _ v e. e)

    finish_fork-IsCatalog :
        (parent row : Component) (source : ComponentVersion) (w : World)
        → IsOwing user w.db
        → Post (λ _ v. IsCatalog v.db) (finish_fork p js user parent source row w)
    unfolding finish_fork
    finish_fork-IsCatalog parent row source w h =
        let In = λ (v : World). IsOwing user v.db in
        bind-Post (λ _ v. In v) (λ _ v. IsCatalog v.db) (first_version p js row _) _ w
          (kept-Post (IsOwing user) _
            (first_version_keeps p js (IsOwing user) (Same-IsOwing user) row _ w h))
          (λ row' v k.
            let read = λ (x : World). p.orm.find (is_tag_of p.orm parent.id x.db) x.db.tags in
            bind-Post (λ _ x. In x) (λ _ x. IsCatalog x.db) (in_trx (gets read)) _ v
              (kept-Post (IsOwing user) _ (in_trx_keeps In (gets read) v k k))
              (λ tags u l.
                bind-Post (λ _ x. In x) (λ _ x. IsCatalog x.db)
                  (attach_some p js row'.id (some (tag_slugs tags))) _ u
                  (kept-Post (IsOwing user) _ (
                    attach_some_keeps p js (IsOwing user) (Same-IsOwing user) row'.id
                      (some (tag_slugs tags)) u l))
                  (λ _ x m.
                    bind-Post (λ _ y. In y) (λ _ y. IsCatalog y.db)
                      (trx_write (set_component p.orm forks_inc parent.id)) _ x
                      (kept-Post (IsOwing user) _ (
                        trx_write_keeps (IsOwing user) (set_component p.orm forks_inc parent.id) x m
                          (Same-IsOwing user x.db _
                            (set_component-IsSame p.orm forks_inc parent.id x.db (λ _. refl)
                              (λ _. refl) (λ _. refl) (λ _. refl))
                            m)))
                      (λ _ y n. counted-Post user _ y n (λ z. tell_db parent row' z)))))

    fork_trx-IsCatalog :
        (w : World)
        → IsCatalog w.db
        → Post (λ _ v. IsCatalog v.db) (fork_trx p js parent_id user dto w)
    unfolding fork_trx insert_with_unique_slug new_fork
    fork_trx-IsCatalog w h =
        let In = λ (v : World). IsCatalog v.db in
        bind-Post (λ _ v. In v) (λ _ v. In v) (forkable p js parent_id user) _ w
          (kept-Post IsCatalog _ (forkable_keeps w h))
          (λ parent v k.
            bind-Post (λ _ u. In u) (λ _ u. In u) (source_version p js parent) _ v
              (kept-Post IsCatalog _ (source_version_keeps parent v k))
              (λ source u l.
                bind-Post (λ _ x. IsOwing user x.db) (λ _ x. In x)
                  (insert_with_unique_slug p js
                    (new_fork user parent (fork_name p js parent dto) dto)
                    (slugify js (fork_name p js parent dto)))
                  (finish_fork p js user parent source) u
                  (insert_from-IsOwing (new_fork user parent (fork_name p js parent dto) dto)
                    (slugify js (fork_name p js parent dto)) slug_retry_limit 0 u l)
                  (λ row x m. finish_fork-IsCatalog parent row source x m)))

  module _ (e : Embedder) (by_slug : Tag → Tag → Bool) where
    pub create-IsCatalog :
        (user : Uuid) (dto : CreateComponentDto) (w : World)
        → IsCatalog w.db
        → IsCatalog (create p js e by_slug user dto w).1.db
    unfolding create embed_published
    create-IsCatalog user dto w h =
        let In = λ (v : World). IsCatalog v.db in
        bind_keeps In (transaction p.orm (create_trx p js user dto))
          (embed_published p js e by_slug) w
          (transaction-Post p.orm IsCatalog (create_trx p js user dto) w h
            (create_trx-IsCatalog user dto (record w { aborted = false }) h))
          (λ saved v k.
            bind_keeps In (if saved.is_draft then pure tt else enqueue p js e by_slug saved.id) _ v
              (if_keeps In saved.is_draft (pure tt) (enqueue p js e by_slug saved.id) v k
                (embed_keeps p js e by_slug IsCatalog Same-IsCatalog saved.id v k))
              (λ _ _ x. x))

    pub fork-IsCatalog :
        (parent_id user : Uuid) (dto : ForkComponentDto) (w : World)
        → IsCatalog w.db
        → IsCatalog (fork p js e by_slug parent_id user dto w).1.db
    unfolding fork
    fork-IsCatalog parent_id user dto w h =
        let In = λ (v : World). IsCatalog v.db in
        bind_keeps In (transaction p.orm (fork_trx p js parent_id user dto)) _ w
          (transaction-Post p.orm IsCatalog (fork_trx p js parent_id user dto) w h
            (fork_trx-IsCatalog parent_id user dto (record w { aborted = false }) h))
          (λ row v k.
            bind_keeps In (enqueue p js e by_slug row.id) _ v
              (embed_keeps p js e by_slug IsCatalog Same-IsCatalog row.id v k) (λ _ _ x. x))
