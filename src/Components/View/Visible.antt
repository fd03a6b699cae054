-- ===== src/Components/View/Visible.antt =====
-- Who sees a component: `findById`, with the copies of public components that it caches.
use Prim.Native.String.{len}
use text.Mathlib.Text.{◌==◌ as str_eq}
use componi_back_nest.Prelude.{
  ℕ, ◌+◌, ◌*◌, ◌≡◌, ◌⊎◌, refl, sym, ◌∙◌, String, Bool, true, false, not, ◌&&◌, ◌||◌, Option, none,
  some, List, [], ◌∷◌, arith, Bool-cases, Option-cases, inl, inr, ltb,
}
use componi_back_nest.Entities.Accounts.{Uuid}
use componi_back_nest.Entities.Content.{Component}
use componi_back_nest.Database.{live_component}
use componi_back_nest.Platform.Redis.{Keyspace, Redis, string_at, set_ex}
use componi_back_nest.Messages.{CacheTag, CacheKey, CacheName, k, same_name, component_public}
use componi_back_nest.Cache.{Json, get, set, store, tag_commands, max_payload_bytes}
use componi_back_nest.Cache.Freshness.{string-exec}
use componi_back_nest.Versions.{is_author}
use componi_back_nest.Exec.{World, Platform, pure, require_keeps, bind_keeps}
use componi_back_nest.Exec.Outcomes.{Post, require-Post, present-Post, bind-Post}
use componi_back_nest.Components.View.{
  is_hidden, keep_public, view_row, view_cached, view_hit, find_by_id,
}

-- What is read after a value was stored: that value or what was there.
string-store :
    (r : Redis CacheName same_name) (now : ℕ) (key other : CacheKey) (payload : String) (ttl : ℕ)
    (tags : List CacheTag) (ks : Keyspace CacheName) (raw : String)
    → string_at now (k other) (store r now key payload ttl tags ks) ≡ some raw
    → (raw ≡ payload) ⊎ (string_at now (k other) ks ≡ some raw)
unfolding store
string-store r now key other payload ttl tags ks raw =
    elim (Bool-cases (ltb max_payload_bytes (len payload))) [
      | inl big ↦ rw big (λ h. inr h)
      | inr small ↦
          elim (Option-cases
            (r.exec now (set_ex (k key) payload ttl ∷ tag_commands key ttl tags) ks)) [
              | inl e ↦ rw (small, e, store) (λ h. inr h)
              | inr (ks', e) ↦
                  rw (small, e, store)
                    (λ h. written ks' h (
                      string-exec r now now key other ttl tags
                        (r.apply now (set_ex (k key) payload ttl) ks) ks'
                        (r.exec_cons now _ _ _ _ e)))
            ]
    ]
  where
    written :
        (ks' : Keyspace CacheName)
        → string_at now (k other) ks' ≡ some raw
        → string_at now (k other) ks'
          ≡ string_at now (k other) (r.apply now (set_ex (k key) payload ttl) ks)
        → (raw ≡ payload) ⊎ (string_at now (k other) ks ≡ some raw)
    written ks' h e = elim (Bool-cases (same_name (k key) (k other))) [
      | inl own ↦ elim (Bool-cases (ltb now (now + ttl * 1000))) [
        | inl live ↦ inl (
            ground
              (arith, h, e, own, live, r.string-set_ex now now (k key) (k other) payload ttl ks))
        | inr dead ↦
            ground
              (arith, h, e, own, dead, r.string-set_ex now now (k key) (k other) payload ttl ks)
      ]
      | inr apart ↦
          inr
            (ground (arith, h, e, apart, r.string-set_ex now now (k key) (k other) payload ttl ks))
    ]

-- May a user (`none` for a guest) see a component of its author?
abbrev pub may_see : Option Uuid → Component → Bool
may_see user c = (c.is_public && not c.is_draft) || is_author user c

module _ (p : Platform) (json : Json Component) where
  -- Every copy that the cache holds is of a published, public component.
  abbrev pub IsPublicCache : World → Type 0
  IsPublicCache w =
      (id : Uuid) (raw : String) (c : Component)
      → string_at w.clock (k (component_public id)) w.redis ≡ some raw
      → json.parse raw ≡ some c
      → c.is_public && not c.is_draft ≡ true

  -- The cache after a view, and what the viewer got.
  abbrev pub Seen : Option Uuid → Component → World → Type 0
  Seen user c w = (may_see user c ≡ true) × (is_hidden p json user c w ≡ false)

  hit :
      (id : Uuid) (w : World) (c : Component)
      → IsPublicCache w
      → get p json (component_public id) w ≡ some c
      → c.is_public && not c.is_draft ≡ true
  unfolding get
  hit id w c cached = elim (Option-cases (p.redis.get w.clock (k (component_public id)) w.redis)) [
    | inl e ↦ rw (e, get) (λ h. ground arith)
    | inr (none, e) ↦ rw (e, get) (λ h. ground arith)
    | inr (some raw, e) ↦ elim (Bool-cases (str_eq raw "")) [
      | inl empty ↦ rw (e, get, empty) (λ h. ground arith)
      | inr full ↦
          rw (e, get, full)
            (λ h.
              cached id raw c
                (sym (p.redis.get_lem w.clock (k (component_public id)) w.redis (some raw) e)) h)
    ]
  ]

  keep_public-IsPublicCache :
      (id : Uuid) (c : Component) (w : World)
      → json.parse (json.stringify c) ≡ some c
      → IsPublicCache w
      → IsPublicCache (keep_public p json id c w).1
  unfolding keep_public set
  keep_public-IsPublicCache id c w parses cached =
      elim (Bool-cases (c.is_public && not c.is_draft)) [
        | inr kept_out ↦ rw kept_out cached
        | inl public ↦ rw public (λ id' raw x at parsed.
            elim (string-store p.redis w.clock (component_public id) (component_public id')
              (json.stringify c) 120 (CacheTag.component id ∷ []) w.redis raw at) [
                | inl same ↦ cc (public, parsed, same, parses)
                | inr old ↦ cached id' raw x old parsed
              ])
      ]

  hidden-set :
      (user : Option Uuid) (c : Component) (key : CacheKey) (x : Component) (ttl : ℕ)
      (tags : List CacheTag) (w : World)
      → is_hidden p json user c (set p json key x ttl tags w).1 ≡ is_hidden p json user c w
  unfolding is_hidden set
  hidden-set none c key x ttl tags w = refl
  hidden-set (some u) c key x ttl tags w = refl

  kept_hidden :
      (user : Option Uuid) (c : Component) (id : Uuid) (w : World)
      → is_hidden p json user c w ≡ false
      → Post (λ _ v. is_hidden p json user c v ≡ false) (keep_public p json id c w)
  unfolding keep_public set
  kept_hidden user c id w h = elim (Bool-cases (c.is_public && not c.is_draft)) [
    | inl e ↦
        rw e (hidden-set user c (component_public id) c 120 (CacheTag.component id ∷ []) w ∙ h)
    | inr e ↦ rw e h
  ]

  view_row-Seen :
      (id : Uuid) (user : Option Uuid) (w : World) → Post (Seen user) (view_row p json id user w)
  unfolding view_row
  view_row-Seen id user w =
      present-Post (Seen user) (p.orm.find_one (live_component id) w.db.components) _ _ w (λ c e.
        require-Post (Seen user) (c.is_public || is_author user c) _ _ w (λ reachable.
          require-Post (Seen user) (not c.is_draft || is_author user c) _ _ w (λ published.
            require-Post (Seen user) (not (is_hidden p json user c w)) _ _ w (λ unblocked.
              bind-Post (λ _ v. is_hidden p json user c v ≡ false) (Seen user)
                (keep_public p json id c) (λ _. pure c) w
                (kept_hidden user c id w (ground (arith, unblocked)))
                (λ _ v shown. (ground (arith, reachable, published), shown))))))

  view_row-IsPublicCache :
      (id : Uuid) (user : Option Uuid) (w : World)
      → ((c : Component)
          → p.orm.find_one (live_component id) w.db.components ≡ some c
          → json.parse (json.stringify c) ≡ some c)
      → IsPublicCache w
      → IsPublicCache (view_row p json id user w).1
  unfolding view_row
  view_row-IsPublicCache id user w parses cached =
      elim (Option-cases (p.orm.find_one (live_component id) w.db.components)) [
        | inl e ↦ rw e cached
        | inr (c, e) ↦ rw e (
            require_keeps IsPublicCache (c.is_public || is_author user c) _ _ w cached (
              require_keeps IsPublicCache (not c.is_draft || is_author user c) _ _ w cached (
                require_keeps IsPublicCache (not (is_hidden p json user c w)) _ _ w cached (
                  bind_keeps IsPublicCache (keep_public p json id c) (λ _. pure c) w
                    (keep_public-IsPublicCache id c w (parses c e) cached) (λ _ v h. h)))))
      ]

  -- From a cache in which every copy of a component is of a published, public one, `findById`
  -- returns a component only to a viewer who may see it, whether the cache has it or not: it is
  -- public and published or the viewer's own, and there is no block between the viewer and its
  -- author. The cache again holds only published, public components. JSON.parse is assumed to undo
  -- JSON.stringify on the component that the database has under the id.
  pub find_by_id-Seen :
      (id : Uuid) (user : Option Uuid) (w : World)
      → ((c : Component)
          → p.orm.find_one (live_component id) w.db.components ≡ some c
          → json.parse (json.stringify c) ≡ some c)
      → IsPublicCache w
      → Post (Seen user) (find_by_id p json id user w)
        × IsPublicCache (find_by_id p json id user w).1
  unfolding find_by_id view_hit view_cached
  find_by_id-Seen id user w parses cached =
      elim (Option-cases (get p json (component_public id) w)) [
        | inl e ↦ rw e (view_row-Seen id user w, view_row-IsPublicCache id user w parses cached)
        | inr (c, e) ↦ rw e (
          require-Post (Seen user) (not (is_hidden p json user c w)) _ _ w
              (λ unblocked. (ground (arith, hit id w c cached e), ground (arith, unblocked))),
          require_keeps IsPublicCache (not (is_hidden p json user c w)) _ _ w cached cached,
        )
      ]
