-- ===== src/Moderation/Blocks/Effects.antt =====
-- What blocking leaves in the database, over all branches of the transaction.
use componi_back_nest.Prelude.{
  suc, ◌≡◌, false, Option, some, arith, inl, inr, ◌⊎◌, ltb, String, Option-cases, if◌then◌else◌,
}
use componi_back_nest.Entities.Accounts.{Uuid}
use componi_back_nest.Entities.Moderation.{Block}
use componi_back_nest.Platform.Orm.{Orm}
use componi_back_nest.Database.{Db, follow_of}
use componi_back_nest.Exec.{Platform, World}
use componi_back_nest.Moderation.Blocks.{
  drop_follow, uncount_follow, insert_block, tear_down, block_trx, new_block,
}

-- A follow, if there is one, and its counters.
unfoldable pub unlink : Orm → Uuid → Uuid → Db → Db
unlink o a b d =
    let d' = drop_follow o a b d in
    if ltb 0 (o.affected (follow_of a b) d.follows) then uncount_follow o a b d' else d'

module _ (p : Platform) (a b : Uuid) where
  tear_down_db :
      (w : World)
      → w.aborted ≡ false
      → (tear_down p a b w).1.db ≡ unlink p.orm b a (unlink p.orm a b w.db)
  unfolding tear_down unlink drop_follow uncount_follow
  tear_down_db w clean = ground arith

module _ (p : Platform) (trim : String → String) (a b : Uuid) (reason : Option String) (w : World)
    (clean : w.aborted ≡ false) where
  abbrev pub block_row : Block
  block_row = new_block trim (w.uuids w.drawn) a b reason w.clock

  pub block_trx_db :
      ((block_trx p trim a b reason w).1.db ≡ w.db)
      ⊎ ((d : Db) × (insert_block p.orm block_row w.db ≡ some d)
          × ((block_trx p trim a b reason w).1.db ≡ unlink p.orm b a (unlink p.orm a b d)))
  unfolding block_trx
  block_trx_db = elim (Option-cases (insert_block p.orm block_row w.db)) [
    | inl e ↦ inl (ground arith)
    | inr (d, e) ↦ elim (two d e) [ inl h ↦ inl h | inr h ↦ inr (d, e, h) ]
  ]
    where
      two :
          (d : Db)
          → insert_block p.orm block_row w.db ≡ some d
          → ((block_trx p trim a b reason w).1.db ≡ w.db)
            ⊎ ((block_trx p trim a b reason w).1.db ≡ unlink p.orm b a (unlink p.orm a b d))
      two d e = ground (arith, tear_down_db p a b (record w { db = d; drawn = suc w.drawn }) clean)
