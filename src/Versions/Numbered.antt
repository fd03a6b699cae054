-- ===== src/Versions/Numbered.antt =====
-- The numbers of the versions of a component.
use mathlib.Core.Option
use native.Mathlib.Decide.{dec_lt}
use componi_back_nest.Prelude.{
  ℕ, ◌+◌, ◌≡◌, refl, ap, false, ◌&&◌, some, List, ◌==◌, leb, ltb, count, count_mono, bit, arith,
  Option-cases, Bool-cases, inl, inr, ◌⊎◌, ==_refl,
}
use componi_back_nest.Entities.Accounts.{Uuid}
use componi_back_nest.Entities.Content.{ComponentVersion}
use componi_back_nest.Platform.Orm.{Orm}
use componi_back_nest.Database.{Db}
use componi_back_nest.Social.{set_component}
use componi_back_nest.Exec.{Platform, World, transaction_db}
use componi_back_nest.Versions.{
  PublishVersionDto, version_of, numbered, number, new_version, next_version, insert_version,
  publish_trx, publish, with_current,
}

-- The versions of each component have the numbers 1, 2, ..., n, each once, where n is how many the
-- component has.
abbrev pub Numbered : Db → Type 0
Numbered d =
    (c : Uuid) (n : ℕ)
    → count (numbered c n) d.versions ≡ bit (leb 1 n && leb n (count (version_of c) d.versions))

module _ (o : Orm) (d : Db) (v : Numbered d) (c : Uuid) where
  abbrev total : ℕ
  total = count (version_of c) d.versions

  highest :
      (r : ComponentVersion)
      → o.find_last (version_of c) number d.versions ≡ some r
      → r.version ≡ total
  highest r e =
      let here =
        o.find_last_some (version_of c) (λ x. x.version == r.version) number d.versions r e
          (==_refl r.version) in
      elim (dec_lt r.version total) [
        | no high ↦ ground (arith, here, v c r.version, high)
        | yes low ↦ absurd (
            ground (
              arith,
              low,
              v c total,
              o.find_last_above (version_of c) number d.versions r e,
              count_mono (numbered c total) (λ x. version_of c x && ltb r.version x.version)
                  d.versions (λ x k. ground (arith, k, low)),
            ))
      ]

  -- The next number is one more than the versions that there are.
  next-count : next_version (o.find_last (version_of c) number d.versions) ≡ total + 1
  unfolding next_version
  next-count = elim (Option-cases (o.find_last (version_of c) number d.versions)) [
    | inl e ↦ rw (e, o.find_last_none (version_of c) number d.versions e) refl
    | inr (r, e) ↦ rw e (ap (λ n. n + 1) (highest r e))
  ]

  insert_version-Numbered :
      (r : ComponentVersion) (d' : Db)
      → r.component_id ≡ c
      → r.version ≡ total + 1
      → insert_version o r d ≡ some d'
      → Numbered d'
  unfolding insert_version
  insert_version-Numbered r d' own next e =
      let (rows, done, same) = (Option.map-eq-some_iff _ _).0 e in
      rw (← same) (λ c' n. each rows done c' n)
    where
      each :
          (rows : List ComponentVersion)
          → o.insert (numbered r.component_id r.version) r d.versions ≡ some rows
          → (c' : Uuid) (n : ℕ)
          → count (numbered c' n) rows ≡ bit (leb 1 n && leb n (count (version_of c') rows))
      each rows done c' n =
          let a =
            o.count-insert (numbered c' n) (numbered r.component_id r.version) r d.versions rows
              done in
          let b =
            o.count-insert (version_of c') (numbered r.component_id r.version) r d.versions rows
              done in
          elim (Bool-cases (r.component_id == c')) [
            | inl mine ↦ rw (a, b) (ground (arith, mine, own, next, v c' n))
            | inr other ↦ rw (a, b) (ground (arith, other, v c' n))
          ]

module _ (p : Platform) (c user : Uuid) (dto : PublishVersionDto) where
  abbrev next : World → ℕ
  next w = next_version (p.orm.find_last (version_of c) number w.db.versions)

  abbrev row : World → ComponentVersion
  row w = new_version c (next w) dto (w.uuids w.drawn) w.clock

  publish_trx_db :
      (w : World)
      → ((publish_trx p c user dto w).1.db ≡ w.db)
        ⊎ ((d : Db) × (insert_version p.orm (row w) w.db ≡ some d)
            × ((publish_trx p c user dto w).1.db
                ≡ set_component p.orm (with_current (w.uuids w.drawn)) c d))
  unfolding publish_trx
  publish_trx_db w = elim (Option-cases (insert_version p.orm (row w) w.db)) [
    | inl e ↦ inl (ground (arith, e))
    | inr (d, e) ↦ elim (two d e) [ inl h ↦ inl h | inr h ↦ inr (d, e, h) ]
  ]
    where
      two :
          (d : Db)
          → insert_version p.orm (row w) w.db ≡ some d
          → ((publish_trx p c user dto w).1.db ≡ w.db)
            ⊎ ((publish_trx p c user dto w).1.db
                ≡ set_component p.orm (with_current (w.uuids w.drawn)) c d)
      two d e = ground (arith, e)

  publish_trx-Numbered : (w : World) → Numbered w.db → Numbered (publish_trx p c user dto w).1.db
  unfolding new_version set_component
  publish_trx-Numbered w v = elim (publish_trx_db w) [
    | inl e ↦ rw e v
    | inr (d, e, h) ↦
        rw h (insert_version-Numbered p.orm w.db v c (row w) d refl (next-count p.orm w.db v c) e)
  ]

  -- If the versions of every component are numbered from 1 on without gaps and without repetition,
  -- then they are so after `publish`, whether it publishes a version or throws.
  pub publish-Numbered : (w : World) → Numbered w.db → Numbered (publish p c user dto w).1.db
  unfolding publish
  publish-Numbered w v =
      transaction_db p.orm Numbered (publish_trx p c user dto) w v
        (λ _ _. publish_trx-Numbered (record w { aborted = false }) v)
