-- ===== src/Components/Catalog/Changes.antt =====
-- The statements that insert, delete and rename a component.
use mathlib.Core.Option
use text.Mathlib.TextEquality.{eq_iff}
use text.Mathlib.TextPositions.{eq_refl}
use componi_back_nest.Prelude.{
  ◌+◌, ◌≤◌, ◌≡◌, refl, ap, sym, subst, String, Bool, true, false, not, ◌&&◌, ◌||◌, ◌==◌, is_none,
  Option, some, List, count, bit, arith, ◌∙◌, count_mono, count_cong, count_none, count_split,
  if◌then◌else◌, Bool-cases, Option-cases, inl, inr, ==_refl,
}
use componi_back_nest.Entities.Accounts.{Uuid, Date}
use componi_back_nest.Entities.Content.{Component}
use componi_back_nest.Platform.Orm.{Orm, count-update_same, insert-free, find_one-test}
use componi_back_nest.Platform.Rows.{only_row, count-set}
use componi_back_nest.Platform.Counters.{Counts-dec, Counts-cong}
use componi_back_nest.Database.{Db, live_component}
use componi_back_nest.Social.{set_component, set_user, component_id}
use componi_back_nest.Social.Invariant.{user_key}
use componi_back_nest.Admin.Content.{component_deleted, components_dec}
use componi_back_nest.Components.{has_slug, insert_component, save_component}
use componi_back_nest.Platform.Js.{Js}
use componi_back_nest.Exec.{Platform}
use componi_back_nest.Components.Slugs.{is_free}
use componi_back_nest.Components.Catalog.{
  IsCatalog, IsOwing, IsSame, live_by, components_by, components_count,
}

-- No live component of the author but that with the id has the slug.
abbrev pub IsFree : Uuid → Uuid → String → Db → Type 0
IsFree id author s d = count (λ x. not (component_id id x) && has_slug author s x) d.components ≡ 0

abbrev clashing : Component → Component → Bool
clashing c r = r.id == c.id || has_slug c.author_id c.slug r

-- A test that at most one row passes, and that the new row passes only if it implies a clash.
once-insert :
    (o : Orm) (q : Component → Bool) (c : Component) (t rows : List Component)
    → o.insert (clashing c) c t ≡ some rows
    → (q c ≡ true → (r : Component) → q r ≡ true → clashing c r ≡ true)
    → count q t ≤ 1
    → count q rows ≤ 1
once-insert o q c t rows done implied once =
    let total = o.count-insert q (clashing c) c t rows done in
    elim (Bool-cases (q c)) [
      | inl own ↦ omega (
        arith,
        total,
        ap bit own,
        insert-free o (clashing c) c t rows done,
        count_mono q (clashing c) t (implied own),
      )
      | inr other ↦ omega (arith, total, ap bit other, once)
    ]

same_slug :
    (a : Uuid) (s : String) (c r : Component)
    → has_slug a s c ≡ true
    → has_slug a s r ≡ true
    → has_slug c.author_id c.slug r ≡ true
unfolding has_slug
same_slug a s c r own k =
    ground (arith, own, k, eq_iff c.slug s, eq_iff r.slug s, eq_iff r.slug c.slug)

still_has :
    (a : Uuid) (s : String) (id : Uuid) (at : Date) (r : Component)
    → has_slug a s (if component_id id r then component_deleted at r else r) ≡ true
    → has_slug a s r ≡ true
unfolding has_slug component_deleted
still_has a s id at r k = ground (arith, k)

module _ (o : Orm) (d : Db) (v : IsCatalog d) where
  pub insert_component-IsOwing :
      (c : Component) (d' : Db)
      → is_none c.deleted_at ≡ true
      → insert_component o c d ≡ some d'
      → IsOwing c.author_id d'
  unfolding insert_component
  insert_component-IsOwing c d' live e =
      let (rows, done, same) = (Option.map-eq-some_iff _ _).0 e in
      rw (← same) (record {
        key = λ id.
            once-insert o (component_id id) c d.components rows done
              (λ own r k. ground (arith, own, k)) (v.key id);
        slugs = λ a s.
            once-insert o (has_slug a s) c d.components rows done
              (λ own r k. ground (arith, same_slug a s c r own k)) (v.slugs a s);
        before = components_by d.components;
        more = λ a.
            o.count-insert (live_by a) (clashing c) c d.components rows done ∙ ground (arith, live);
        counted = v.counted;
      })

  module _ (id : Uuid) (c : Component)
      (found : o.find_one (live_component id) d.components ≡ some c) where
    own_rows :
        (q : Component → Bool) → count (λ x. component_id id x && q x) d.components ≡ bit (q c)
    own_rows q =
        only_row o (component_id id) (live_component id) d.components q c (λ x k. ground (arith, k))
          (v.key id) found

    found_live : (c.id == id ≡ true) × (is_none c.deleted_at ≡ true)
    found_live =
        let h = find_one-test o (live_component id) d.components c found in
        (ground (arith, h), ground (arith, h))

    pub take_down-IsCatalog :
        (at : Date)
        → IsCatalog
            (set_user o components_dec c.author_id (set_component o (component_deleted at) id d))
    unfolding set_user set_component component_deleted
    take_down-IsCatalog at = record {
      key = λ x. omega (
        arith,
        count-update_same o (component_id x) (component_id id) (component_deleted at) d.components
            (λ r. refl),
        v.key x,
      );
      slugs = λ a s. omega (
        arith,
        v.slugs a s,
        o.count-update (has_slug a s) (component_id id) (component_deleted at) d.components,
        count_mono (λ r. has_slug a s (if component_id id r then component_deleted at r else r))
            (has_slug a s) d.components (λ r k. still_has a s id at r k),
      );
      counted =
          Counts-dec o user_key components_count (components_by d.components)
            (components_by (o.update (component_id id) (component_deleted at) d.components))
            c.author_id components_dec d.users (λ u. refl) (λ u. refl)
            (λ a. omega (
              arith,
              count-set o (component_id id) (live_by a) d.components (component_deleted at),
              count_none (λ x. component_id id x && live_by a (component_deleted at x)) d.components
                  (λ x. ground arith),
              count_split (component_id id) (live_by a) d.components,
              own_rows (live_by a),
              own_live a,
            ))
            v.counted;
    }
      where
        own_live : (a : Uuid) → bit (live_by a c) ≡ bit (a == c.author_id)
        own_live a = ground (arith, found_live)

    pub own_slug-IsFree : IsFree id c.author_id c.slug d
    unfolding has_slug
    own_slug-IsFree = omega (
      arith,
      v.slugs c.author_id c.slug,
      count_split (component_id id) (has_slug c.author_id c.slug) d.components,
      own_rows (has_slug c.author_id c.slug),
      own_has,
    )
      where
        own_has : bit (has_slug c.author_id c.slug c) ≡ 1
        own_has = ground (arith, found_live, eq_refl c.slug, ==_refl c.author_id)

    module _ (c' : Component) (ids : c'.id ≡ id) (authors : c'.author_id ≡ c.author_id)
        (deleted : c'.deleted_at ≡ c.deleted_at) where
      replaced :
          (q : Component → Bool)
          → count q (o.update (component_id id) (λ _. c') d.components)
            ≡ bit (q c') + count (λ x. not (component_id id x) && q x) d.components
      replaced q =
          omega
            (arith, count-set o (component_id id) q d.components (λ _. c'), own_rows (λ _. q c'))

      stays_once :
          (q : Component → Bool)
          → (q c' ≡ true → count (λ x. not (component_id id x) && q x) d.components ≡ 0)
          → count q d.components ≤ 1
          → count q (o.update (component_id id) (λ _. c') d.components) ≤ 1
      stays_once q free once = elim (Bool-cases (q c')) [
        | inl own ↦ omega (arith, replaced q, ap bit own, free own)
        | inr other ↦ omega (
          arith,
          replaced q,
          ap bit other,
          once,
          count_mono (λ x. not (component_id id x) && q x) q d.components
              (λ x k. ground (arith, k)),
        )
      ]

      own_key :
          (x : Uuid)
          → component_id x c' ≡ true
          → count (λ r. not (component_id id r) && component_id x r) d.components ≡ 0
      own_key x own = count_none _ d.components (λ r. ground (arith, own, ids))

      own_slug :
          (a : Uuid) (s : String)
          → IsFree id c.author_id c'.slug d
          → has_slug a s c' ≡ true
          → count (λ r. not (component_id id r) && has_slug a s r) d.components ≡ 0
      own_slug a s free own = omega (
        arith,
        free,
        count_mono (λ r. not (component_id id r) && has_slug a s r)
            (λ r. not (component_id id r) && has_slug c.author_id c'.slug r) d.components
            (λ r k.
              ground (arith, k, ap (λ y. has_slug y c'.slug r) authors, same_slug a s c' r own)),
      )

      same_live : (a : Uuid) → live_by a c' ≡ live_by a c
      same_live a = ground (arith, authors, ap (λ (o : Option Date). is_none o) deleted)

      -- The entity takes the row's place.
      pub save_component-IsCatalog :
          IsFree id c.author_id c'.slug d → IsCatalog (save_component o c' d)
      unfolding save_component
      save_component-IsCatalog free =
          subst
            (λ y.
              IsCatalog
                (record d { components = o.update (component_id y) (λ _. c') d.components }))
            (sym ids)
            (record {
              key = λ x. stays_once (component_id x) (own_key x) (v.key x);
              slugs = λ a s. stays_once (has_slug a s) (own_slug a s free) (v.slugs a s);
              counted =
                  Counts-cong user_key components_count (components_by d.components)
                    (components_by (o.update (component_id id) (λ _. c') d.components)) d.users
                    (λ a. omega (
                      arith,
                      replaced (live_by a),
                      own_rows (live_by a),
                      count_split (component_id id) (live_by a) d.components,
                      ap bit (same_live a),
                    ))
                    v.counted;
            })

saved_twice :
    (o : Orm) (c' c'' : Component) (d : Db) (q : Component → Bool)
    → c''.id ≡ c'.id
    → q c'' ≡ q c'
    → count q (save_component o c'' (save_component o c' d)).components
      ≡ count q (save_component o c' d).components
unfolding save_component
saved_twice o c' c'' d q ids e =
    let first = o.update (component_id c'.id) (λ _. c') d.components in
    o.count-update q (component_id c''.id) (λ _. c'') first
    ∙ (o.count-update (λ r. q (if component_id c''.id r then c'' else r)) (component_id c'.id)
          (λ _. c') d.components
        ∙ (count_cong _ (λ r. q (if component_id c'.id r then c' else r)) d.components (λ r. seen r)
            ∙ sym (o.count-update q (component_id c'.id) (λ _. c') d.components)))
  where
    same_q : (b : Bool) → q (if b then c'' else c') ≡ q c'
    same_q true = e
    same_q false = refl

    seen :
        (r : Component)
        → q (
            if component_id c''.id (if component_id c'.id r then c' else r)
            then c''
            else (if component_id c'.id r then c' else r))
          ≡ q (if component_id c'.id r then c' else r)
    seen r = elim (Bool-cases (component_id c'.id r)) [
      | inl own ↦ rw own (same_q (component_id c''.id c'))
      | inr other ↦
          let away : component_id c''.id r ≡ false = ground (arith, other, ids) in
          rw (other, away) refl
    ]

-- The slug that findUniqueSlug settles on is free.
pub is_free-IsFree :
    (p : Platform) (js : Js) (d : Db) (id author : Uuid) (s : String)
    → IsCatalog d
    → is_free p js id (p.orm.find_one (has_slug author s) d.components) ≡ true
    → IsFree id author s d
unfolding is_free
is_free-IsFree p js d id author s v ok_slug =
    elim (Option-cases (p.orm.find_one (has_slug author s) d.components)) [
      | inl e ↦ omega (
        arith,
        p.orm.find_one_none (has_slug author s) d.components e,
        count_mono (λ x. not (component_id id x) && has_slug author s x) (has_slug author s)
            d.components (λ x k. ground (arith, k)),
      )
      | inr (c, e) ↦ omega (
        arith,
        v.slugs author s,
        p.orm.find_one_some (has_slug author s) (component_id id) d.components c e (conflict c e),
        count_split (component_id id) (has_slug author s) d.components,
        count_cong (λ x. has_slug author s x && component_id id x)
            (λ x. component_id id x && has_slug author s x) d.components (λ x. ground arith),
      )
    ]
  where
    conflict :
        (c : Component)
        → p.orm.find_one (has_slug author s) d.components ≡ some c
        → component_id id c ≡ true
    conflict c e = subst (λ o. is_free p js id o ≡ true) e ok_slug

-- Saving the entity again, with other columns that the catalog says nothing of.
pub again-IsSame :
    (o : Orm) (c' c'' : Component) (d : Db)
    → c''.id ≡ c'.id
    → c''.author_id ≡ c'.author_id
    → c''.slug ≡ c'.slug
    → c''.deleted_at ≡ c'.deleted_at
    → IsSame (save_component o c' d) (save_component o c'' (save_component o c' d))
unfolding save_component has_slug
again-IsSame o c' c'' d ids authors slugs deleted = record {
  ids = λ x. saved_twice o c' c'' d (component_id x) ids (rw ids refl);
  slugs = λ a s. saved_twice o c' c'' d (has_slug a s) ids (rw (authors, slugs, deleted) refl);
  live = λ a. saved_twice o c' c'' d (live_by a) ids (rw (authors, deleted) refl);
  users = refl;
}
