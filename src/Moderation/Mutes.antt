-- ===== src/Moderation/Mutes.antt =====
-- mutes.service.ts. The list of a user's mutes is a read that the model leaves out.
use mathlib.Core.Option
use componi_back_nest.Prelude.{
  ◌<◌, ◌≡◌, not, Option, [], ◌∷◌, ◌==◌, is_none, if◌then◌else◌, arith, count, Option-cases, inl,
  inr, ==_refl,
}
use componi_back_nest.Entities.Accounts.{Uuid}
use componi_back_nest.Entities.Moderation.{Mute}
use componi_back_nest.Platform.Orm.{Orm}
use componi_back_nest.Database.{Db, live_user, mute_of}
use componi_back_nest.Messages.{user_feed}
use componi_back_nest.Cache.{invalidate_tags}
use componi_back_nest.Exec.{
  Exec, ok, bad_request, not_found, Platform, World, require, present, now, new_uuid, pure, gets,
  write, insert_alone, if_new, ◌>>=◌, ◌>>◌,
}

unfoldable pub insert_mute : Orm → Mute → Db → Option Db
insert_mute o m d =
    Option.map (λ rows. record d { mutes = rows })
      (o.insert (mute_of m.muter_id m.muted_id) m d.mutes)

module _ (p : Platform) where
  unfoldable pub mute : Uuid → Uuid → Exec Unit
  unfolding insert_mute
  mute muter muted = do
    require (not (muter == muted)) (bad_request "Cannot mute yourself")
    found ← gets (λ w. p.orm.find_one (live_user muted) w.db.users)
    target ← present found (not_found "User not found")
    require (is_none target.deleted_at) (not_found "User not found")
    id ← new_uuid
    at ← now
    fresh ← if_new (
        insert_alone (
          insert_mute p.orm
            (record { id = id; muter_id = muter; muted_id = muted; created_at = at })))
    if fresh then invalidate_tags p (user_feed muter ∷ []) else pure tt

  unfoldable pub unmute : Uuid → Uuid → Exec Unit
  unmute muter muted = do
    write (λ d. record d { mutes = p.orm.delete (mute_of muter muted) d.mutes })
    invalidate_tags p (user_feed muter ∷ [])

  -- The row that `mute` inserts.
  abbrev mute_row : Uuid → Uuid → World → Mute
  mute_row a b w = record { id = w.uuids w.drawn; muter_id = a; muted_id = b; created_at = w.clock }

module _ (p : Platform) (a b : Uuid) (w : World) where
  pub mute-muted : (mute p a b w).0 ≡ ok tt → 0 < count (mute_of a b) (mute p a b w).1.db.mutes
  unfolding mute insert_mute invalidate_tags
  mute-muted h = elim (Option-cases (p.orm.insert (mute_of a b) (mute_row p a b w) w.db.mutes)) [
    | inl e ↦ ground (arith, h, e, p.orm.insert_free (mute_of a b) (mute_row p a b w) w.db.mutes)
    | inr (rows, e) ↦ ground (
      arith,
      h,
      e,
      p.orm.count-insert (mute_of a b) (mute_of a b) (mute_row p a b w) w.db.mutes rows e,
      ==_refl a,
      ==_refl b,
    )
  ]
