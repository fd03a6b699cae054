-- ===== src/Components/Catalog/Frames.antt =====
-- What the statements on tags, versions and embeddings leave alone of the catalog.
use mathlib.Core.Option
use componi_back_nest.Prelude.{
  ℕ, suc, ◌≡◌, refl, sym, subst, String, Bool, not, Option, some, none, List, [], ◌∷◌, ◌++◌, ◌==◌,
  length, Bool-cases, inl, inr, arith,
}
use componi_back_nest.Entities.Accounts.{Uuid}
use componi_back_nest.Entities.Content.{Component, ComponentVersion, Tag}
use componi_back_nest.Platform.Js.{Js, Embedder}
use componi_back_nest.Database.{Db, live_component}
use componi_back_nest.Embeddings.{
  with_vector, store_vector, to_pg_vector, row_of, assemble_input, deliver_row, deliver, enqueue,
}
use componi_back_nest.Notifications.{swallow, add_job}
use componi_back_nest.Social.{set_component}
use componi_back_nest.Messages.{Job, embed, embed_id}
use componi_back_nest.Versions.{PublishVersionDto, insert_version, new_version, with_current}
use componi_back_nest.Components.Tagging.{
  new_tag, one_of, usage_inc, insert_tag, insert_links, create_tags, link_tags, attach_tags,
  missing, normalized, holds_slug,
}
use componi_back_nest.Components.Create.{first_version, attach_some}
use componi_back_nest.Components.Catalog.{IsSame, others-IsSame, set_component-IsSame}
use componi_back_nest.Exec.{
  World, Platform, trx_insert, trx_write, in_trx, if_new, gets, bind_keeps, present, if_keeps,
  failure,
}
use componi_back_nest.Exec.Keeps.{
  in_trx_keeps, trx_insert_keeps, trx_write_keeps, caught_world, present_db,
}

-- What tagging and versions leave alone.
module _ (p : Platform) (js : Js) (P : Db → Type 0)
    (frame : (d d' : Db) → d'.components ≡ d.components → d'.users ≡ d.users → P d → P d') where
  abbrev pub In : World → Type 0
  In w = P w.db

  insert_tag_keeps : (t : Tag) (d d' : Db) → P d → insert_tag p.orm t d ≡ some d' → P d'
  unfolding insert_tag
  insert_tag_keeps t d d' h e =
      let (rows, done, same) = (Option.map-eq-some_iff _ _).0 e in
      rw (← same) (frame d (record d { tags = rows }) refl refl h)

  create_tags_keeps : (slugs : List String) (w : World) → In w → In (create_tags p js slugs w).1
  unfolding create_tags
  create_tags_keeps [] w h = h
  create_tags_keeps (s ∷ rest) w h =
      let v = record w { drawn = suc w.drawn } in
      bind_keeps In (trx_insert (insert_tag p.orm (new_tag s (w.uuids w.drawn) w.clock))) _ v
        (trx_insert_keeps P (insert_tag p.orm (new_tag s (w.uuids w.drawn) w.clock)) v h
          (λ d e. insert_tag_keeps (new_tag s (w.uuids w.drawn) w.clock) w.db d h e))
        (λ _ u k.
          bind_keeps In (create_tags p js rest) _ u (create_tags_keeps rest u k) (λ _ _ x. x))

  abbrev links : Uuid → List Tag → ℕ → Db → Option Db
  links component all at d =
      Option.map (λ rows. record d { component_tags = rows })
        (insert_links p.orm component at all d.component_tags)

  links_keeps :
      (component : Uuid) (all : List Tag) (at : ℕ) (d d' : Db)
      → P d
      → links component all at d ≡ some d'
      → P d'
  links_keeps component all at d d' h e =
      let (rows, done, same) = (Option.map-eq-some_iff _ _).0 e in
      rw (← same) (frame d (record d { component_tags = rows }) refl refl h)

  abbrev used : List Tag → Db → Db
  used all d = record d { tags = p.orm.update (one_of all) usage_inc d.tags }

  link_tags_keeps :
      (component : Uuid) (all : List Tag) (w : World) → In w → In (link_tags p js component all w).1
  unfolding link_tags
  link_tags_keeps component all w h =
      bind_keeps In (if_new (trx_insert (links component all w.clock))) _ w
        (rw (caught_world (trx_insert (links component all w.clock) w)) (
          trx_insert_keeps P (links component all w.clock) w h
            (λ d e. links_keeps component all w.clock w.db d h e)))
        (λ _ u k. trx_write_keeps P (used all) u k (frame u.db (used all u.db) refl refl k))

  pub attach_tags_keeps :
      (id : Uuid) (slugs : List String) (w : World) → In w → In (attach_tags p js id slugs w).1
  unfolding attach_tags
  attach_tags_keeps id slugs w h = elim (Bool-cases (length (normalized js slugs) == 0)) [
    | inl e ↦ rw e h
    | inr e ↦ rw e (
        let there = λ (v : World). p.orm.find (holds_slug (normalized js slugs)) v.db.tags in
        bind_keeps In (in_trx (gets there)) _ w (in_trx_keeps In (gets there) w h h)
          (λ existing u k.
            bind_keeps In (create_tags p js (missing existing (normalized js slugs))) _ u
              (create_tags_keeps (missing existing (normalized js slugs)) u k)
              (λ created v l. link_tags_keeps id (existing ++ created) v l)))
  ]

  insert_version_keeps :
      (v : ComponentVersion) (d d' : Db) → P d → insert_version p.orm v d ≡ some d' → P d'
  unfolding insert_version
  insert_version_keeps v d d' h e =
      let (rows, done, same) = (Option.map-eq-some_iff _ _).0 e in
      rw (← same) (frame d (record d { versions = rows }) refl refl h)

-- And of whole components.
module _ (p : Platform) (js : Js) (P : Db → Type 0)
    (frame : (d d' : Db) → IsSame d d' → P d → P d') where
  apart : (d d' : Db) → d'.components ≡ d.components → d'.users ≡ d.users → P d → P d'
  apart d d' e f = frame d d' (others-IsSame d d' e f)

  pub attach_some_keeps :
      (id : Uuid) (slugs : Option (List String)) (w : World)
      → P w.db
      → P (attach_some p js id slugs w).1.db
  unfolding attach_some
  attach_some_keeps id none w h = h
  attach_some_keeps id (some []) w h = h
  attach_some_keeps id (some (s ∷ rest)) w h = attach_tags_keeps p js P apart id (s ∷ rest) w h

  pub first_version_keeps :
      (row : Component) (dto : PublishVersionDto) (w : World)
      → P w.db
      → P (first_version p js row dto w).1.db
  unfolding first_version
  first_version_keeps row dto w h =
      let v = new_version row.id 1 dto (w.uuids w.drawn) w.clock in
      bind_keeps (λ x. P x.db) (trx_insert (insert_version p.orm v)) _
        (record w { drawn = suc w.drawn })
        (trx_insert_keeps P (insert_version p.orm v) (record w { drawn = suc w.drawn }) h
          (λ d e. insert_version_keeps p js P apart v w.db d h e))
        (λ _ u k.
          bind_keeps (λ x. P x.db)
            (trx_write (set_component p.orm (with_current (w.uuids w.drawn)) row.id)) _ u
            (trx_write_keeps P (set_component p.orm (with_current (w.uuids w.drawn)) row.id) u k (
              frame u.db _
                (set_component-IsSame p.orm (with_current (w.uuids w.drawn)) row.id u.db (λ _. refl)
                  (λ _. refl) (λ _. refl) (λ _. refl))
                k))
            (λ _ _ x. x))

pub add_job_db : (p : Platform) (job : Job) (w : World) → (add_job p job w).1.db ≡ w.db
unfolding add_job
add_job_db p job w = ground arith

module _ (p : Platform) (js : Js) (e : Embedder) (by_slug : Tag → Tag → Bool) (P : Db → Type 0)
    (frame : (d d' : Db) → IsSame d d' → P d → P d') where
  store_vector_keeps :
      (id : Uuid) (vector : List e.Float) (w : World)
      → P w.db
      → P (store_vector p js e by_slug id vector w).1.db
  unfolding store_vector with_vector set_component
  store_vector_keeps id vector w h =
      elim (Bool-cases (length vector == p.config.embedding_dimensions)) [
        | inl fits ↦ rw fits (
            frame w.db _
              (set_component-IsSame p.orm (with_vector (to_pg_vector e vector) w.clock) id w.db
                (λ _. refl) (λ _. refl) (λ _. refl) (λ _. refl))
              h)
        | inr other ↦ rw other h
      ]

  deliver_row_keeps :
      (id : Uuid) (c : Option Component) (w : World)
      → P w.db
      → P (deliver_row p js e by_slug id c w).1.db
  unfolding deliver_row
  deliver_row_keeps id none w h = h
  deliver_row_keeps id (some c) w h =
      bind_keeps (λ v. P v.db)
        (present (e.embed_passage (assemble_input js (row_of p js e by_slug w.db c)))
          (failure "embedding provider"))
        (store_vector p js e by_slug id) w (present_db P _ (failure "embedding provider") w h)
        (λ vector v k. store_vector_keeps id vector v k)

  deliver_keeps : (id : Uuid) (w : World) → P w.db → P (deliver p js e by_slug id w).1.db
  unfolding deliver
  deliver_keeps id w h =
      if_keeps (λ v. P v.db) (not p.config.embeddings_enabled) _ _ w h
        (deliver_row_keeps id (p.orm.find_one (live_component id) w.db.components) w h)

  pub embed_keeps : (id : Uuid) (w : World) → P w.db → P (enqueue p js e by_slug id w).1.db
  unfolding enqueue swallow
  embed_keeps id w h =
      if_keeps (λ v. P v.db) (not p.config.embeddings_enabled) _ _ w h
        (if_keeps (λ v. P v.db) (not p.config.workers_enabled) _ _ w (deliver_keeps id w h)
          (subst P (sym (add_job_db p (record { body = embed id; job_id = some (embed_id id) }) w))
            h))
