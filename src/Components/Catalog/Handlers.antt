-- ===== src/Components/Catalog/Handlers.antt =====
-- The handlers of the author keep the catalog.
use componi_back_nest.Prelude.{
  ◌≡◌, refl, sym, subst, ap, String, Bool, true, false, Option, some, none, List, [], ◌∷◌, ◌==◌,
  ◌||◌, Bool-cases, length, ◌&&◌, Option-cases, inl, inr, arith, eq_of_==, if◌then◌else◌, is_none,
  is_some,
}
use componi_back_nest.Entities.Accounts.{Uuid}
use componi_back_nest.Entities.Content.{Component, ComponentVersion, Tag, ComponentTag}
use componi_back_nest.Platform.Orm.{find_one-test}
use componi_back_nest.Platform.Js.{Js, Embedder}
use componi_back_nest.Database.{Db, live_component}
use componi_back_nest.Messages.{CacheTag, verify, verify_id, feed_trending, author}
use componi_back_nest.Cache.{invalidate_tags}
use componi_back_nest.Embeddings.{enqueue}
use componi_back_nest.Thumbnails
use componi_back_nest.Social.{set_component, set_user, component_id}
use componi_back_nest.Admin.Content.{
  component_deleted, components_dec, delete_component_trx, delete_component,
}
use componi_back_nest.Audit.{AuditContext, log_db}
use componi_back_nest.Components.{MetadataDto, SaveDraftDto, save_component}
use componi_back_nest.Components.Tagging.{attach_tags, replace_trx, replace_tags}
use componi_back_nest.Components.Owner.{
  load_owned, apply_metadata, rewrite_version, update_draft_version, replace_some, save_draft,
  remove, assert_thumbnail_origin, set_thumbnail, publish, update,
}
use componi_back_nest.Components.Catalog.{IsCatalog, Same-IsCatalog, others-IsSame}
use componi_back_nest.Components.Catalog.Changes.{
  IsFree, own_slug-IsFree, again-IsSame, take_down-IsCatalog,
}
use componi_back_nest.Exec.Keeps.{trx_write_keeps}
use componi_back_nest.Components.Catalog.Frames.{embed_keeps, attach_tags_keeps, add_job_db}
use componi_back_nest.Components.Catalog.Owning.{
  IsOf, apply_metadata_world, Savable, found_id, apply_metadata-Savable, saved-IsCatalog,
}
use componi_back_nest.Exec.{
  Exec, World, Platform, Result, ok, err, pure, write, trx_write, transaction, transaction_db,
  ◌>>=◌, ◌>>◌, bind_keeps, bind_reads, require_keeps, if_keeps, continue,
}
use componi_back_nest.Exec.Outcomes.{Post}

abbrev In : World → Type 0
In w = IsCatalog w.db

-- An action that only reads, and what comes after it.
module _ {A B : Type 0} (R : A → World → Type 0) (f : A → Exec B) (w : World) (h : In w)
    (k : (a : A) (v : World) → R a v → In (f a v).1) where
  continued : (r : Result A) (v : World) → v ≡ w → Post R (r, v) → In (continue r f v).1
  continued (ok a) v e post = k a v post
  continued (err x) v e post = subst In (sym e) h

  after_read : (m : Exec A) → (m w).1 ≡ w → Post R (m w) → In ((m >>= f) w).1
  after_read m e post = continued (m w).0 (m w).1 e post

-- The rule of composition, for an action that throws or returns with what the rest needs.
bind_weakens :
    {A B : Type 0} (P Q : World → Type 0) (m : Exec A) (f : A → Exec B) (w : World)
    → P (m w).1
    → ((v : World) → P v → Q v)
    → ((a : A) (v : World) → P v → Q (f a v).1)
    → Q ((m >>= f) w).1
bind_weakens {A = A} P Q m f w h weak k = go (m w).0 (m w).1 h
  where
    go : (r : Result A) (v : World) → P v → Q (continue r f v).1
    go (ok a) v h = k a v h
    go (err x) v h = weak v h

module _ (p : Platform) (w : World) (h : In w) where
  after_load :
      {B : Type 0} (id user : Uuid) (f : Component → Exec B)
      → ((c : Component)
          → p.orm.find_one (live_component id) w.db.components ≡ some c
          → c.author_id == user ≡ true
          → In (f c w).1)
      → In ((load_owned p id user >>= f) w).1
  unfolding load_owned
  after_load id user f k =
      elim (Option-cases (p.orm.find_one (live_component id) w.db.components)) [
        | inl e ↦ rw e h
        | inr (c, e) ↦ elim (Bool-cases (c.author_id == user)) [
          | inl own ↦ rw (e, own) (k c e own)
          | inr other ↦ rw (e, other) h
        ]
      ]

-- What tagging and the rewriting of a version keep: the components and the users.
module _ (p : Platform) (js : Js) (P : Db → Type 0)
    (frame : (d d' : Db) → d'.components ≡ d.components → d'.users ≡ d.users → P d → P d') where
  replace_trx_keeps :
      (id : Uuid) (slugs : List String) (w : World) → P w.db → P (replace_trx p js id slugs w).1.db
  unfolding replace_trx
  replace_trx_keeps id slugs w h =
      let unlinked = λ (d : Db). record d {
        component_tags = p.orm.delete (λ (r : ComponentTag). r.component_id == id) d.component_tags;
      } in
      bind_keeps (λ v. P v.db) (trx_write unlinked) _ w
        (trx_write_keeps P unlinked w h (frame w.db (unlinked w.db) refl refl h))
        (λ _ v k.
          if_keeps (λ u. P u.db) (length slugs == 0) (pure tt) (attach_tags p js id slugs) v k
            (attach_tags_keeps p js P frame id slugs v k))

  replace_some_keeps :
      (id : Uuid) (slugs : Option (List String)) (w : World)
      → P w.db
      → P (replace_some p js id slugs w).1.db
  unfolding replace_some replace_tags
  replace_some_keeps id none w h = h
  replace_some_keeps id (some slugs) w h =
      transaction_db p.orm P (replace_trx p js id slugs) w h
        (λ _ _. replace_trx_keeps id slugs (record w { aborted = false }) h)

  rewrite_version_keeps :
      (id : Uuid) (dto : SaveDraftDto) (w : World) → P w.db → P (rewrite_version p js id dto w).1.db
  unfolding rewrite_version
  rewrite_version_keeps id dto w h =
      if_keeps (λ v. P v.db)
        (is_none (p.orm.find_one (λ (v : ComponentVersion). v.id == id) w.db.versions)) _ _ w h
        (frame w.db _ refl refl h)

  update_draft_version_keeps :
      (version : Option Uuid) (dto : SaveDraftDto) (w : World)
      → P w.db
      → P (update_draft_version p js version dto w).1.db
  unfolding update_draft_version
  update_draft_version_keeps none dto w h = h
  update_draft_version_keeps (some id) dto w h =
      if_keeps (λ v. P v.db) (is_none dto.code && is_none dto.dependencies) (pure false)
        (rewrite_version p js id dto) w h (rewrite_version_keeps id dto w h)

-- A state that is a catalog, and stays one when the entity is saved.
abbrev Ready : Platform → Component → Db → Type 0
Ready p c d = IsCatalog d × IsCatalog (save_component p.orm c d)

Ready-apart :
    (p : Platform) (c : Component) (d d' : Db)
    → d'.components ≡ d.components
    → d'.users ≡ d.users
    → Ready p c d
    → Ready p c d'
unfolding save_component
Ready-apart p c d d' e f (h, k) = (
  Same-IsCatalog d d' (others-IsSame d d' e f) h,
  Same-IsCatalog (save_component p.orm c d) (save_component p.orm c d')
      (others-IsSame (save_component p.orm c d) (save_component p.orm c d')
        (ap (p.orm.update (component_id c.id) (λ _. c)) e) f)
      k,
)

module _ (p : Platform) (js : Js) (id user : Uuid) (w : World) (h : IsCatalog w.db) where
  -- The columns that the catalog says nothing of.
  other_columns :
      (c c' : Component)
      → p.orm.find_one (live_component id) w.db.components ≡ some c
      → IsOf c c'
      → c'.slug ≡ c.slug
      → IsCatalog (save_component p.orm c' w.db)
  other_columns c c' found of slugs = saved-IsCatalog p js w h id user c found c' (
    of,
    subst (λ s. IsFree id c.author_id s w.db) (sym slugs) (own_slug-IsFree p.orm w.db h id c found),
  )

  pub set_thumbnail-IsCatalog : (url : String) → IsCatalog (set_thumbnail p js id user url w).1.db
  unfolding set_thumbnail assert_thumbnail_origin invalidate_tags Thumbnails.enqueue
  set_thumbnail-IsCatalog url =
      bind_reads In (assert_thumbnail_origin p js url) _ w (origin_world url) h (λ _.
        after_load p w h id user _ (λ c found own.
          let saved =
            other_columns c (record c { thumbnail_url = some url }) found
              (record { ids = refl; authors = refl; deleted = refl }) refl in
          bind_keeps In
            (if c.is_draft
              then pure tt
              else invalidate_tags p (CacheTag.component id ∷ feed_trending ∷ []))
            _ _ (if_keeps In c.is_draft (pure tt) _ _ saved saved)
            (λ _ v k.
              bind_keeps In (Thumbnails.enqueue p id url) _ v (verify_keeps url v k) (λ _ _ x. x))))
    where
      origin_world : (url : String) → (assert_thumbnail_origin p js url w).1 ≡ w
      origin_world url = ground arith

      verify_keeps : (url : String) (v : World) → In v → In (Thumbnails.enqueue p id url v).1
      verify_keeps url v k =
          if_keeps In p.config.workers_enabled _ (pure tt) v
            (subst IsCatalog
              (sym (add_job_db p (record { body = verify id url; job_id = some (verify_id id) }) v))
              k)
            k

  pub remove-IsCatalog : IsCatalog (remove p js id user w).1.db
  unfolding remove invalidate_tags
  remove-IsCatalog = after_load p w h id user _ (λ c found own.
      subst IsCatalog (sym (p.orm.settle_commit w.db (taken c))) (
        of_author c (found_id p js w h id user c found) (eq_of_== c.author_id user own)
          (take_down-IsCatalog p.orm w.db h id c found w.clock)))
    where
      taken : Component → Db
      taken c =
          set_user p.orm components_dec user
            (set_component p.orm (component_deleted w.clock) c.id w.db)

      of_author :
          (c : Component)
          → c.id ≡ id
          → c.author_id ≡ user
          → IsCatalog (
              set_user p.orm components_dec c.author_id
                (set_component p.orm (component_deleted w.clock) id w.db))
          → IsCatalog (taken c)
      of_author c e f x =
          subst
            (λ y. IsCatalog (
              set_user p.orm components_dec user
                (set_component p.orm (component_deleted w.clock) y w.db)))
            (sym e)
            (subst
              (λ a. IsCatalog (
                set_user p.orm components_dec a
                  (set_component p.orm (component_deleted w.clock) id w.db)))
              f x)

  -- The two saves at the end of saveDraft.
  resaved :
      (c : Component) (stale : Bool) (x : World)
      → IsCatalog (save_component p.orm c x.db)
      → In
          ((write (save_component p.orm c)
              >> ((if stale
                    then write (save_component p.orm (record c { embedding_generated_at = none }))
                    else pure tt)
                  >> pure (if stale then record c { embedding_generated_at = none } else c)))
            x).1
  resaved c true x m =
      Same-IsCatalog (save_component p.orm c x.db) _
        (again-IsSame p.orm c (record c { embedding_generated_at = none }) x.db refl refl refl refl)
        m
  resaved c false x m = m

  pub save_draft-IsCatalog : (dto : SaveDraftDto) → IsCatalog (save_draft p js id user dto w).1.db
  unfolding save_draft
  save_draft-IsCatalog dto = after_load p w h id user _ (λ c found own.
      require_keeps In c.is_draft _ _ w h (
        after_read (λ s u. (u ≡ w) × Savable p js w h id user c found s.0) _ w h
          (λ s v k.
            let ready : Ready p s.0 v.db =
              subst (λ u. Ready p s.0 u.db) (sym k.0)
                (h, saved-IsCatalog p js w h id user c found s.0 k.1) in
            bind_weakens (λ u. Ready p s.0 u.db) In
              (update_draft_version p js c.current_version_id dto) _ v
              (update_draft_version_keeps p js (Ready p s.0) (Ready-apart p s.0)
                c.current_version_id dto v ready)
              (λ u x. x.0)
              (λ recoded u l.
                bind_weakens (λ x. Ready p s.0 x.db) In (replace_some p js id dto.tag_slugs) _ u
                  (replace_some_keeps p js (Ready p s.0) (Ready-apart p s.0) id dto.tag_slugs u l)
                  (λ x y. y.0) (λ _ x m. resaved s.0 (s.1 || recoded) x m.1)))
          (apply_metadata p js c dto.metadata) (apply_metadata_world p js w c dto.metadata)
          (apply_metadata-Savable p js w h id user c found dto.metadata)))

module _ (p : Platform) (js : Js) (e : Embedder) (by_slug : Tag → Tag → Bool) (id user : Uuid)
    (w : World) (h : IsCatalog w.db) where
  pub publish-IsCatalog : IsCatalog (publish p js e by_slug id user w).1.db
  unfolding publish invalidate_tags
  publish-IsCatalog = after_load p w h id user _ (λ c found own.
      require_keeps In c.is_draft _ _ w h (
        require_keeps In (is_some c.current_version_id) _ _ w h (
          bind_keeps In (enqueue p js e by_slug id) _ _
            (embed_keeps p js e by_slug IsCatalog Same-IsCatalog id _ (
              other_columns p js id user w h c (record c { is_draft = false }) found
                (record { ids = refl; authors = refl; deleted = refl }) refl))
            (λ _ _ x. x))))

  pub update-IsCatalog : (dto : MetadataDto) → IsCatalog (update p js e by_slug id user dto w).1.db
  unfolding update invalidate_tags
  update-IsCatalog dto = after_load p w h id user _ (λ c found own.
      after_read (λ s u. (u ≡ w) × Savable p js w h id user c found s.0) _ w h
        (λ s v k.
          let saved : IsCatalog (save_component p.orm s.0 v.db) =
            subst (λ u. IsCatalog (save_component p.orm s.0 u.db)) (sym k.0)
              (saved-IsCatalog p js w h id user c found s.0 k.1) in
          bind_keeps In (if s.1 then enqueue p js e by_slug id else pure tt) _ _
            (if_keeps In s.1 (enqueue p js e by_slug id) (pure tt) _
              (embed_keeps p js e by_slug IsCatalog Same-IsCatalog id _ saved) saved)
            (λ _ _ x. x))
        (apply_metadata p js c dto) (apply_metadata_world p js w c dto)
        (apply_metadata-Savable p js w h id user c found dto))

-- The takedown of a component by a moderator.
module _ (p : Platform) (trim : String → String) (ctx : AuditContext) (id : Uuid) (reason : String)
    (report : Option Uuid) (w : World) (h : IsCatalog w.db) where
  taken_db :
      (c : Component) (v : World)
      → v.aborted ≡ false
      → (delete_component_trx p trim ctx c reason report v).1.db
        ≡ set_user p.orm components_dec c.author_id
            (set_component p.orm (component_deleted v.clock) c.id v.db)
  unfolding delete_component_trx
  taken_db c v clean = rw clean (log_db p trim ctx _ _)

  pub delete_component-IsCatalog : IsCatalog (delete_component p trim ctx id reason report w).1.db
  unfolding delete_component invalidate_tags
  delete_component-IsCatalog =
      elim (Option-cases (p.orm.find_one (live_component id) w.db.components)) [
        | inl e ↦ rw e h
        | inr (c, e) ↦ elim (Bool-cases (is_none c.deleted_at)) [
          | inl live ↦
              rw (e, live)
                (bind_keeps In (transaction p.orm (delete_component_trx p trim ctx c reason report))
                  (λ _.
                    invalidate_tags p
                      (CacheTag.component id ∷ author c.author_id ∷ feed_trending ∷ []))
                  w
                  (transaction_db p.orm IsCatalog (delete_component_trx p trim ctx c reason report)
                    w h
                    (λ _ _. rw (taken_db c (record w { aborted = false }) refl) (
                      subst
                        (λ y. IsCatalog (
                          set_user p.orm components_dec c.author_id
                            (set_component p.orm (component_deleted w.clock) y w.db)))
                        (sym (same_id c e)) (take_down-IsCatalog p.orm w.db h id c e w.clock))))
                  (λ _ v k. k))
          | inr gone ↦ rw (e, gone) h
        ]
      ]
    where
      same_id :
          (c : Component) → p.orm.find_one (live_component id) w.db.components ≡ some c → c.id ≡ id
      same_id c e = ground (arith, find_one-test p.orm (live_component id) w.db.components c e)
