-- ===== src/Social/Effects.antt =====
-- What each transaction of the service may leave behind, over all its branches.
use componi_back_nest.Prelude.{◌<◌, ◌≡◌, refl, ◌⊎◌, some, arith, Option-cases, inl, inr, is_some}
use componi_back_nest.Entities.Accounts.{Uuid, User, Follow}
use componi_back_nest.Entities.Content.{Like, Favorite}
use componi_back_nest.Database.{Db, like_of, favorite_of, follow_of}
use componi_back_nest.Exec.{Platform, World, trx_read, bind_reads, if_keeps}
use componi_back_nest.Moderation.Blocks.{drop_follow, uncount_follow}
use componi_back_nest.Social.{
  insert_like, insert_favorite, insert_follow, drop_like, drop_favorite, set_component, set_user,
  likes_inc, likes_dec, favorites_inc, favorites_dec, like_trx, unlike_trx, favorite_trx,
  unfavorite_trx, follow_target, record_follow, follow_trx, unfollow_trx,
}
use componi_back_nest.Moderation.Blocks.{following_inc, followers_inc}

module _ (p : Platform) (u c : Uuid) (w : World) where
  abbrev pub like_row : Like
  like_row = record { user_id = u; component_id = c; created_at = w.clock }

  abbrev pub favorite_row : Favorite
  favorite_row = record { user_id = u; component_id = c; created_at = w.clock }

  abbrev pub follow_row : Follow
  follow_row = record { follower_id = u; followee_id = c; created_at = w.clock }

  pub like_trx_db :
      ((like_trx p u c w).1.db ≡ w.db)
      ⊎ ((d : Db) × (insert_like p.orm like_row w.db ≡ some d)
          × ((like_trx p u c w).1.db ≡ set_component p.orm likes_inc c d))
  unfolding like_trx
  like_trx_db = elim (Option-cases (insert_like p.orm like_row w.db)) [
    | inl e ↦ inl (ground arith)
    | inr (d, e) ↦ elim (two d e) [ inl h ↦ inl h | inr h ↦ inr (d, e, h) ]
  ]
    where
      two :
          (d : Db)
          → insert_like p.orm like_row w.db ≡ some d
          → ((like_trx p u c w).1.db ≡ w.db)
            ⊎ ((like_trx p u c w).1.db ≡ set_component p.orm likes_inc c d)
      two d e = ground arith

  pub unlike_trx_db :
      ((unlike_trx p u c w).1.db ≡ w.db)
      ⊎ (((0 < p.orm.affected (like_of u c) w.db.likes)
            × ((unlike_trx p u c w).1.db
                ≡ set_component p.orm likes_dec c (drop_like p.orm u c w.db)))
          ⊎ ((p.orm.affected (like_of u c) w.db.likes ≡ 0)
              × ((unlike_trx p u c w).1.db ≡ drop_like p.orm u c w.db)))
  unfolding unlike_trx
  unlike_trx_db = ground arith

  pub favorite_trx_db :
      ((favorite_trx p u c w).1.db ≡ w.db)
      ⊎ ((d : Db) × (insert_favorite p.orm favorite_row w.db ≡ some d)
          × ((favorite_trx p u c w).1.db ≡ set_component p.orm favorites_inc c d))
  unfolding favorite_trx
  favorite_trx_db = elim (Option-cases (insert_favorite p.orm favorite_row w.db)) [
    | inl e ↦ inl (ground arith)
    | inr (d, e) ↦ elim (two d e) [ inl h ↦ inl h | inr h ↦ inr (d, e, h) ]
  ]
    where
      two :
          (d : Db)
          → insert_favorite p.orm favorite_row w.db ≡ some d
          → ((favorite_trx p u c w).1.db ≡ w.db)
            ⊎ ((favorite_trx p u c w).1.db ≡ set_component p.orm favorites_inc c d)
      two d e = ground arith

  pub unfavorite_trx_db :
      ((unfavorite_trx p u c w).1.db ≡ w.db)
      ⊎ (((0 < p.orm.affected (favorite_of u c) w.db.favorites)
            × ((unfavorite_trx p u c w).1.db
                ≡ set_component p.orm favorites_dec c (drop_favorite p.orm u c w.db)))
          ⊎ ((p.orm.affected (favorite_of u c) w.db.favorites ≡ 0)
              × ((unfavorite_trx p u c w).1.db ≡ drop_favorite p.orm u c w.db)))
  unfolding unfavorite_trx
  unfavorite_trx_db = ground arith

  follow_target_world : (follow_target p u c w).1 ≡ w
  unfolding follow_target
  follow_target_world = ground arith

  record_follow_db :
      (target : User)
      → ((record_follow p u c w.clock target w).1.db ≡ w.db)
        ⊎ ((d : Db) × (insert_follow p.orm follow_row w.db ≡ some d)
            × ((record_follow p u c w.clock target w).1.db
                ≡ set_user p.orm followers_inc c (set_user p.orm following_inc u d)))
  unfolding record_follow
  record_follow_db target = elim (Option-cases (insert_follow p.orm follow_row w.db)) [
    | inl e ↦ inl (ground arith)
    | inr (d, e) ↦ elim (two d e) [ inl h ↦ inl h | inr h ↦ inr (d, e, h) ]
  ]
    where
      two :
          (d : Db)
          → insert_follow p.orm follow_row w.db ≡ some d
          → ((record_follow p u c w.clock target w).1.db ≡ w.db)
            ⊎ ((record_follow p u c w.clock target w).1.db
                ≡ set_user p.orm followers_inc c (set_user p.orm following_inc u d))
      two d e = ground arith

  abbrev Followed : World → Type 0
  Followed v =
      (v.db ≡ w.db)
      ⊎ ((d : Db) × (insert_follow p.orm follow_row w.db ≡ some d)
          × (v.db ≡ set_user p.orm followers_inc c (set_user p.orm following_inc u d)))

  pub follow_trx_db : Followed (follow_trx p u c w).1
  unfolding follow_trx
  follow_trx_db =
      bind_reads Followed (follow_target p u c) _ w follow_target_world (inl refl) (λ target.
        bind_reads Followed (trx_read (λ d. p.orm.find_one (follow_of u c) d.follows)) _ w
          (ground arith) (inl refl)
          (λ existing.
            if_keeps Followed (is_some existing) _ _ w (inl refl) (record_follow_db target)))

  pub unfollow_trx_db :
      ((unfollow_trx p u c w).1.db ≡ w.db)
      ⊎ (((0 < p.orm.affected (follow_of u c) w.db.follows)
            × ((unfollow_trx p u c w).1.db ≡ uncount_follow p.orm u c (drop_follow p.orm u c w.db)))
          ⊎ ((p.orm.affected (follow_of u c) w.db.follows ≡ 0)
              × ((unfollow_trx p u c w).1.db ≡ drop_follow p.orm u c w.db)))
  unfolding unfollow_trx
  unfollow_trx_db = ground arith
