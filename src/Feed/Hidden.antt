-- ===== src/Feed/Hidden.antt =====
-- The trending feed shows a viewer exactly what no block hides.
use componi_back_nest.Prelude.{
  ℕ, ◌+◌, ◌≡◌, refl, ap, ◌∙◌, Bool, true, false, not, ◌&&◌, ◌||◌, Option, none, some, List, [], ◌∷◌,
  ◌==◌, ltb, count, count_cong, arith, Bool-cases, inl, inr, if◌then◌else◌, ==_refl, eq_of_==,
  or_else, length,
}
use componi_back_nest.Entities.Accounts.{Uuid}
use componi_back_nest.Entities.Content.{Component}
use componi_back_nest.Entities.Moderation.{Block}
use componi_back_nest.Database.{Db}
use componi_back_nest.Messages.{feed_trending_page, feed_trending}
use componi_back_nest.Cache.{Json, wrap, get, set, serve, keep}
use componi_back_nest.Moderation.Blocks.{either_way}
use componi_back_nest.Feed.{
  among, other_authors, other_id, blocks_among, in_blocked_set, visible_of, hide_blocked, shown_to,
  load_trending, trending,
}
use componi_back_nest.Exec.{Platform, World, Result, ok, err, continue}

-- May the viewer see the component: is it the viewer's, or is there no block either way?
abbrev pub is_shown : Uuid → Db → Component → Bool
is_shown viewer d c =
    c.author_id == viewer || not (ltb 0 (count (either_way viewer c.author_id) d.blocks))

-- The components of a list that a test keeps.
unfoldable pub filter : (Component → Bool) → List Component → List Component
filter q [] = []
filter q (c ∷ cs) = let rest = filter q cs in if q c then c ∷ rest else rest

module _ (p : Platform) (viewer : Uuid) (d : Db) (authors : List Uuid) where
  -- The rows of the query and the blocks between the viewer and one of the authors.
  found_blocks :
      (id : Uuid)
      → among id authors ≡ true
      → id == viewer ≡ false
      → in_blocked_set viewer (p.orm.find (blocks_among viewer authors) d.blocks) id
        ≡ ltb 0 (count (either_way viewer id) d.blocks)
  unfolding in_blocked_set other_id blocks_among
  found_blocks id listed other =
      ap (λ n. ltb 0 n)
        (p.orm.count-find (λ b. other_id viewer b == id) (blocks_among viewer authors) d.blocks
          ∙ count_cong _ (either_way viewer id) d.blocks (λ b. same_blocks b))
    where
      same_blocks :
          (b : Block)
          → blocks_among viewer authors b && other_id viewer b == id ≡ either_way viewer id b
      same_blocks b =
          ground (arith, listed, other, eq_of_== b.blocked_id id, eq_of_== b.blocker_id id)

own_listed :
    (viewer : Uuid) (c : Component) (cs : List Component)
    → c.author_id == viewer ≡ false
    → among c.author_id (other_authors viewer (c ∷ cs)) ≡ true
unfolding other_authors among
own_listed viewer c cs other = rw other (ground (arith, ==_refl c.author_id))

listed_later :
    (viewer : Uuid) (c : Component) (cs : List Component) (id : Uuid)
    → among id (other_authors viewer cs) ≡ true
    → among id (other_authors viewer (c ∷ cs)) ≡ true
unfolding other_authors among
listed_later viewer c cs id k = elim (Bool-cases (c.author_id == viewer)) [
  | inl own ↦ rw own k
  | inr other ↦ rw other (ground (arith, k))
]

module _ (p : Platform) (viewer : Uuid) (d : Db) (authors : List Uuid) where
  abbrev rows : List Block
  rows = p.orm.find (blocks_among viewer authors) d.blocks

  shown_same :
      (c : Component)
      → (c.author_id == viewer ≡ false → among c.author_id authors ≡ true)
      → c.author_id == viewer || not (in_blocked_set viewer rows c.author_id) ≡ is_shown viewer d c
  shown_same c h = elim (Bool-cases (c.author_id == viewer)) [
    | inl own ↦ rw own refl
    | inr other ↦ rw other (ap not (found_blocks p viewer d authors c.author_id (h other) other))
  ]

  visible_of-filter :
      (cs : List Component)
      → ((id : Uuid) → among id (other_authors viewer cs) ≡ true → among id authors ≡ true)
      → visible_of viewer rows cs ≡ filter (is_shown viewer d) cs
  unfolding visible_of filter other_authors
  visible_of-filter [] h = refl
  visible_of-filter (c ∷ cs) h =
      rw
        (
          shown_same c (λ other. h c.author_id (own_listed viewer c cs other)),
          visible_of-filter cs (λ id k. h id (listed_later viewer c cs id k)),
        )
        refl

  none_listed :
      (cs : List Component)
      → length (other_authors viewer cs) ≡ 0
      → filter (is_shown viewer d) cs ≡ cs
  unfolding filter other_authors length
  none_listed [] e = refl
  none_listed (c ∷ cs) e = elim (Bool-cases (c.author_id == viewer)) [
    | inl own ↦ rw own (ap (λ l. c ∷ l) (none_listed cs (rw own at e)))
    | inr other ↦ absurd (omega (arith, rw other at e))
  ]

module _ (p : Platform) (json : Json (List Component))
    (newest hottest : Component → Component → Bool) where
  hide_blocked-filter :
      (viewer : Uuid) (page : List Component) (w : World)
      → hide_blocked p json newest hottest viewer page w
        ≡ (ok (filter (is_shown viewer w.db) page), w)
  unfolding hide_blocked
  hide_blocked-filter viewer page w = elim (Bool-cases (length (other_authors viewer page) == 0)) [
    | inl e ↦ rw (e, none_listed p viewer w.db [] page (ground (arith, e))) refl
    | inr e ↦
        rw (e, visible_of-filter p viewer w.db (other_authors viewer page) page (λ id k. k)) refl
  ]

  shown_to-filter :
      (viewer : Uuid) (page : List Component) (w : World)
      → shown_to p json newest hottest (some viewer) page w
        ≡ (ok (filter (is_shown viewer w.db) page), w)
  unfolding shown_to length filter
  shown_to-filter viewer [] w = refl
  shown_to-filter viewer (c ∷ cs) w =
      let some_left : 1 + length cs == 0 ≡ false = ground arith in
      rw some_left (hide_blocked-filter viewer (c ∷ cs) w)

  -- Reading through the cache touches no table.
  page_db :
      (limit : ℕ) (w : World)
      → (wrap p json
          (feed_trending_page limit)
          (load_trending p json newest hottest limit)
          p.config.feed_ttl_seconds
          (feed_trending ∷ [])
          w).1.db
        ≡ w.db
  unfolding wrap get set serve keep load_trending
  page_db limit w = ground arith

  -- A viewer gets the page of the trending feed that a guest gets, from the cache or from the
  -- database, without the components whose author is in a block with the viewer, in either
  -- direction, but for the viewer's own, in the same order.
  pub trending-filter :
      (limit : ℕ) (viewer : Uuid) (page : List Component) (w : World)
      → (trending p json newest hottest limit none w).0 ≡ ok page
      → (trending p json newest hottest limit (some viewer) w).0
        ≡ ok (filter (is_shown viewer w.db) page)
  unfolding trending shown_to
  trending-filter limit viewer page w =
      filtered
        (wrap p json (feed_trending_page limit) (load_trending p json newest hottest limit)
          p.config.feed_ttl_seconds (feed_trending ∷ []) w).0
        _ (page_db limit w)
    where
      page_eq :
          (found : Option (List Component)) (v : World)
          → (shown_to p json newest hottest none (or_else found []) v).0 ≡ ok page
          → or_else found [] ≡ page
      page_eq found v h = ground (arith, h)

      filtered :
          (r : Result (Option (List Component))) (v : World)
          → v.db ≡ w.db
          → (continue r (λ found. shown_to p json newest hottest none (or_else found [])) v).0
            ≡ ok page
          → (continue r
              (λ found. shown_to p json newest hottest (some viewer) (or_else found []))
              v).0
            ≡ ok (filter (is_shown viewer w.db) page)
      filtered (ok found) v e h =
          ap (λ s. s.0) (shown_to-filter viewer (or_else found []) v)
          ∙ (ap (λ d. ok (filter (is_shown viewer d) (or_else found []))) e
              ∙ ap (λ l. ok (filter (is_shown viewer w.db) l)) (page_eq found v h))
      filtered (err x) v e h = ground (arith, h)
