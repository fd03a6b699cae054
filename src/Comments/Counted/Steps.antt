-- ===== src/Comments/Counted/Steps.antt =====
-- Comments made, removed by their authors and taken down by moderators.
use componi_back_nest.Prelude.{
  ◌≡◌, refl, sym, subst, String, false, Option, some, List, [], ◌∷◌, ℤ, ◌==◌, is_none, arith,
  Option-cases, Bool-cases, inl, inr, ◌⊎◌,
}
use componi_back_nest.Entities.Accounts.{Uuid}
use componi_back_nest.Entities.Content.{Comment}
use componi_back_nest.Database.{Db, live_comment}
use componi_back_nest.Social.{set_component}
use componi_back_nest.Audit.{AuditContext, log_db}
use componi_back_nest.Cache.{invalidate_tags}
use componi_back_nest.Comments.{
  CreateCommentDto, comments_inc, comments_dec, new_comment, insert_comment, soft_remove,
  create_trx, announce_comment, create, remove_trx, remove,
}
use componi_back_nest.Admin.Content.{delete_comment_trx, delete_comment}
use componi_back_nest.Exec.{Platform, World, transaction, transaction_db, bind_keeps}
use componi_back_nest.Comments.Counted.{
  CommentsCounted, add_comment-CommentsCounted, take_down-CommentsCounted,
}
use componi_back_nest.Messages.{CacheTag}
use componi_back_nest.Realtime.Service.{component_commented}

-- What happens to comments.
pub data CommentStep : Type 0 where
  creates : (component user : Uuid) → CreateCommentDto → CommentStep
  removes : (id user : Uuid) → CommentStep
  takes_down : AuditContext → (id : Uuid) (reason : String) → Option Uuid → CommentStep

module _ (p : Platform) (trim : String → String) where
  -- The world after a step, whether it returned or threw.
  unfoldable pub step : CommentStep → World → World
  step (creates component user dto) w = (create p component user dto w).1
  step (removes id user) w = (remove p id user w).1
  step (takes_down ctx id reason report) w = (delete_comment p trim ctx id reason report w).1

  -- Any number of steps.
  unfoldable pub steps : List CommentStep → World → World
  steps [] w = w
  steps (s ∷ rest) w = steps rest (step s w)

  abbrev row : Uuid → Uuid → CreateCommentDto → World → Comment
  row component user dto w = new_comment component user dto (w.uuids w.drawn) w.clock

  create_trx_db :
      (component user : Uuid) (dto : CreateCommentDto) (w : World)
      → ((create_trx p component user dto w).1.db ≡ w.db)
        ⊎ ((d : Db) × (insert_comment p.orm (row component user dto w) w.db ≡ some d)
            × ((create_trx p component user dto w).1.db
                ≡ set_component p.orm comments_inc component d))
  unfolding create_trx
  create_trx_db component user dto w =
      elim (Option-cases (insert_comment p.orm (row component user dto w) w.db)) [
        | inl e ↦ inl (ground (arith, e))
        | inr (d, e) ↦ elim (two d e) [ inl h ↦ inl h | inr h ↦ inr (d, e, h) ]
      ]
    where
      two :
          (d : Db)
          → insert_comment p.orm (row component user dto w) w.db ≡ some d
          → ((create_trx p component user dto w).1.db ≡ w.db)
            ⊎ ((create_trx p component user dto w).1.db
                ≡ set_component p.orm comments_inc component d)
      two d e = ground (arith, e)

  create_trx-CommentsCounted :
      (component user : Uuid) (dto : CreateCommentDto) (w : World)
      → CommentsCounted w.db
      → CommentsCounted (create_trx p component user dto w).1.db
  unfolding new_comment
  create_trx-CommentsCounted component user dto w v = elim (create_trx_db component user dto w) [
    | inl e ↦ rw e v
    | inr (d, e, h) ↦
        rw h (add_comment-CommentsCounted p.orm w.db v (row component user dto w) d refl e)
  ]

  create-CommentsCounted :
      (component user : Uuid) (dto : CreateCommentDto) (w : World)
      → CommentsCounted w.db
      → CommentsCounted (create p component user dto w).1.db
  unfolding create announce_comment component_commented
  create-CommentsCounted component user dto w v =
      bind_keeps (λ s. CommentsCounted s.db) (transaction p.orm (create_trx p component user dto))
        (announce_comment p component user) w
        (transaction_db p.orm CommentsCounted (create_trx p component user dto) w v
          (λ _ _. create_trx-CommentsCounted component user dto _ v))
        (λ (saved, n) s h. subst CommentsCounted (sym (announced saved n s)) h)
    where
      announced :
          (saved : Comment) (n : ℤ) (s : World)
          → (announce_comment p component user (saved, n) s).1.db ≡ s.db
      announced saved n s = ground arith

  remove_trx_db :
      (c : Comment) (w : World)
      → w.aborted ≡ false
      → (remove_trx p c w).1.db
        ≡ set_component p.orm comments_dec c.component_id (soft_remove p.orm c.id w.clock w.db)
  unfolding remove_trx
  remove_trx_db c w clean = rw clean refl

  remove-CommentsCounted :
      (id user : Uuid) (w : World)
      → CommentsCounted w.db
      → CommentsCounted (remove p id user w).1.db
  unfolding remove
  remove-CommentsCounted id user w v =
      elim (Option-cases (p.orm.find_one (live_comment id) w.db.comments)) [
        | inl e ↦ rw e v
        | inr (c, e) ↦ elim (Bool-cases (c.author_id == user)) [
          | inl own ↦
              rw (e, own)
                (transaction_db p.orm CommentsCounted (remove_trx p c) w v (λ _ _.
                  rw (remove_trx_db c (record w { aborted = false }) refl)
                    (take_down-CommentsCounted p.orm w.db v id c w.clock e)))
          | inr other ↦ rw (e, other) v
        ]
      ]

  delete_comment_trx_db :
      (ctx : AuditContext) (c : Comment) (reason : String) (report : Option Uuid) (w : World)
      → w.aborted ≡ false
      → (delete_comment_trx p trim ctx c reason report w).1.db
        ≡ set_component p.orm comments_dec c.component_id (soft_remove p.orm c.id w.clock w.db)
  unfolding delete_comment_trx
  delete_comment_trx_db ctx c reason report w clean = rw clean (log_db p trim ctx _ _)

  delete_comment-CommentsCounted :
      (ctx : AuditContext) (id : Uuid) (reason : String) (report : Option Uuid) (w : World)
      → CommentsCounted w.db
      → CommentsCounted (delete_comment p trim ctx id reason report w).1.db
  unfolding delete_comment invalidate_tags
  delete_comment-CommentsCounted ctx id reason report w v =
      elim (Option-cases (p.orm.find_one (live_comment id) w.db.comments)) [
        | inl e ↦ rw e v
        | inr (c, e) ↦ elim (Bool-cases (is_none c.deleted_at)) [
          | inl live ↦
              rw (e, live)
                (bind_keeps (λ s. CommentsCounted s.db)
                  (transaction p.orm (delete_comment_trx p trim ctx c reason report))
                  (λ _. invalidate_tags p (CacheTag.component c.component_id ∷ [])) w
                  (transaction_db p.orm CommentsCounted
                    (delete_comment_trx p trim ctx c reason report) w v
                    (λ _ _.
                      rw
                        (delete_comment_trx_db ctx c reason report (record w { aborted = false })
                          refl)
                        (take_down-CommentsCounted p.orm w.db v id c w.clock e)))
                  (λ _ s h. h))
          | inr gone ↦ rw (e, gone) v
        ]
      ]

  -- If ids of comments are unique and every `commentsCount` is the number of the component's
  -- comments that are not deleted, then this is so after any sequence of comments made, removed by
  -- users and taken down by moderators, whether each succeeds or throws.
  pub steps-CommentsCounted :
      (list : List CommentStep) (w : World)
      → CommentsCounted w.db
      → CommentsCounted (steps list w).db
  unfolding steps step
  steps-CommentsCounted [] w v = v
  steps-CommentsCounted (creates component user dto ∷ rest) w v =
      steps-CommentsCounted rest _ (create-CommentsCounted component user dto w v)
  steps-CommentsCounted (removes id user ∷ rest) w v =
      steps-CommentsCounted rest _ (remove-CommentsCounted id user w v)
  steps-CommentsCounted (takes_down ctx id reason report ∷ rest) w v =
      steps-CommentsCounted rest _ (delete_comment-CommentsCounted ctx id reason report w v)
