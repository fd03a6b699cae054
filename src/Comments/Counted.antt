-- ===== src/Comments/Counted.antt =====
-- The column `commentsCount` against the comments of a component.
pub mod Steps
use mathlib.Core.Option
use componi_back_nest.Prelude.{
  ℕ, ◌+◌, ◌≤◌, ◌<◌, ◌≡◌, refl, sym, ap, subst, String, Bool, true, false, not, ◌&&◌, Option, none,
  some, List, ◌==◌, is_none, if◌then◌else◌, count, count_mono, count_cong, count_split, bit, arith,
  Option-cases, Bool-cases, inl, inr, ◌⊎◌, ◌∙◌,
}
use componi_back_nest.Entities.Accounts.{Uuid, Date}
use componi_back_nest.Entities.Content.{Component, Comment}
use componi_back_nest.Platform.Orm.{Orm, find_one-test, insert-free}
use componi_back_nest.Platform.Counters.{Counts, Counts-inc, Counts-dec}
use componi_back_nest.Database.{Db, live_component, live_comment}
use componi_back_nest.Social.{set_component, component_id}
use componi_back_nest.Social.Invariant.{component_key}
use componi_back_nest.Audit.{AuditContext, log, log_db}
use componi_back_nest.Cache.{invalidate_tags}
use componi_back_nest.Comments.{
  CreateCommentDto, comment_id, comments_inc, comments_dec, comment_deleted, new_comment,
  insert_comment, soft_remove, create_trx, announce_comment, create, remove_trx, remove,
}
use componi_back_nest.Admin.Content.{delete_comment_trx, delete_comment}
use componi_back_nest.Exec.{
  Exec, Platform, World, Result, transaction, transaction_db, bind_keeps, ◌>>=◌, ◌>>◌,
}

-- The comments of a component that are not deleted.
abbrev pub live_on : Uuid → Comment → Bool
live_on id c = is_none c.deleted_at && c.component_id == id

abbrev pub live_comments : List Comment → Uuid → ℕ
live_comments t id = count (live_on id) t

-- Comments have different ids, and each component has as many live comments as it says.
pub record CommentsCounted (d : Db) : Type 0 where
  pub key : (id : Uuid) → count (comment_id id) d.comments ≤ 1
  pub counted : Counts component_key (λ c. c.comments_count) (live_comments d.comments) d.components

module _ (o : Orm) (d : Db) (v : CommentsCounted d) where
  insert_comment-key :
      (c : Comment) (rows : List Comment) (id : Uuid)
      → o.insert (comment_id c.id) c d.comments ≡ some rows
      → count (comment_id id) rows ≤ 1
  insert_comment-key c rows id done =
      let total = o.count-insert (comment_id id) (comment_id c.id) c d.comments rows done in
      elim (Bool-cases (comment_id id c)) [
        | inl own ↦ omega (
          arith,
          total,
          ap bit own,
          insert-free o (comment_id c.id) c d.comments rows done,
          count_mono (comment_id id) (comment_id c.id) d.comments (λ r k. ground (arith, k, own)),
        )
        | inr other ↦ omega (arith, total, ap bit other, v.key id)
      ]

  pub add_comment-CommentsCounted :
      (c : Comment) (d' : Db)
      → is_none c.deleted_at ≡ true
      → insert_comment o c d ≡ some d'
      → CommentsCounted (set_component o comments_inc c.component_id d')
  unfolding insert_comment set_component
  add_comment-CommentsCounted c d' live e =
      let (rows, done, same) = (Option.map-eq-some_iff _ _).0 e in
      rw (← same) (record {
        key = λ id. insert_comment-key c rows id done;
        counted =
            Counts-inc o component_key (λ x. x.comments_count) (live_comments d.comments)
              (live_comments rows) c.component_id comments_inc d.components (λ x. refl) (λ x. refl)
              (λ id.
                o.count-insert (live_on id) (comment_id c.id) c d.comments rows done
                ∙ ground (arith, live))
              v.counted;
      })

  -- The only comment with an id, which is live.
  own_comment :
      (id : Uuid) (c : Comment) (y : Uuid)
      → o.find_one (live_comment id) d.comments ≡ some c
      → count (λ r. comment_id id r && live_on y r) d.comments ≡ bit (y == c.component_id)
  own_comment id c y e =
      let here =
        o.find_one_some (live_comment id) (λ r. r.component_id == c.component_id) d.comments c e
          (ground arith) in
      let some_one =
        count_mono (λ r. live_comment id r && r.component_id == c.component_id)
          (λ r. comment_id id r && live_on c.component_id r) d.comments (λ r k. ground arith) in
      elim (Bool-cases (y == c.component_id)) [
        | inl own ↦ rw own (
            omega (
              arith,
              here,
              some_one,
              v.key id,
              count_mono (λ r. comment_id id r && live_on y r) (comment_id id) d.comments
                  (λ r k. ground arith),
              count_mono (λ r. comment_id id r && live_on c.component_id r)
                  (λ r. comment_id id r && live_on y r) d.comments (λ r k. ground (arith, k, own)),
            ))
        | inr other ↦ rw other (
            omega (
              arith,
              here,
              some_one,
              v.key id,
              count_split (live_on c.component_id) (comment_id id) d.comments,
              count_mono (λ r. comment_id id r && live_on c.component_id r)
                  (λ r. live_on c.component_id r && comment_id id r) d.comments
                  (λ r k. ground arith),
              count_mono (λ r. comment_id id r && live_on y r)
                  (λ r. not (live_on c.component_id r) && comment_id id r) d.comments
                  (λ r k. ground (arith, k, other)),
            ))
      ]

  pub take_down-CommentsCounted :
      (id : Uuid) (c : Comment) (at : Date)
      → o.find_one (live_comment id) d.comments ≡ some c
      → CommentsCounted (set_component o comments_dec c.component_id (soft_remove o c.id at d))
  unfolding soft_remove set_component comment_deleted
  take_down-CommentsCounted id c at e =
      let same_id : id ≡ c.id = ground (arith, find_one-test o (live_comment id) d.comments c e) in
      rw (← same_id) (record {
        key = λ i. omega (
          arith,
          v.key i,
          o.count-update (comment_id i) (comment_id id) (comment_deleted at) d.comments,
          count_cong (λ r. comment_id i (if comment_id id r then comment_deleted at r else r))
              (comment_id i) d.comments (λ r. ground arith),
        );
        counted =
            Counts-dec o component_key (λ x. x.comments_count) (live_comments d.comments)
              (live_comments (o.update (comment_id id) (comment_deleted at) d.comments))
              c.component_id comments_dec d.components (λ x. refl) (λ x. refl)
              (λ y. omega (
                arith,
                own_comment id c y e,
                count_split (comment_id id) (live_on y) d.comments,
                o.count-update (live_on y) (comment_id id) (comment_deleted at) d.comments,
                count_cong (λ r. live_on y (if comment_id id r then comment_deleted at r else r))
                    (λ r. not (comment_id id r) && live_on y r) d.comments (λ r. ground arith),
              ))
              v.counted;
      })
