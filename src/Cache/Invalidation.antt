-- ===== src/Cache/Invalidation.antt =====
-- What `invalidateTags` removes, and what a read through the cache gives after it.
use Prim.Native.String.{len}
use componi_back_nest.Prelude.{
  ℕ, ◌*◌, ◌≤◌, ◌≡◌, refl, ◌∙◌, String, Bool, true, false, none, some, List, [], ◌∷◌, arith,
  Bool-cases, Option-cases, inl, inr, ltb,
}
use componi_back_nest.Entities.Accounts.{Date}
use componi_back_nest.Platform.Redis.{
  Keyspace, Redis, member, contains, string_at, sadd, expire, set_ex,
}
use componi_back_nest.Messages.{CacheKey, CacheTag, CacheName, k, tag_key, same_name}
use componi_back_nest.Cache.{tag_commands, store, drop_members, drop_tag, purge, max_payload_bytes}

-- The sets of the tags hold keys of values, never keys of tags.
abbrev pub OnlyKeys : Date → Keyspace CacheName → Type 0
OnlyKeys now ks =
    (at : Date) (s t : CacheTag) → now ≤ at → member same_name at (tag_key s) (tag_key t) ks ≡ false

module _ (r : Redis CacheName same_name) (now : Date) where
  drop_members-gone :
      (at : Date) (ms : List CacheName) (x : CacheName) (ks : Keyspace CacheName)
      → (drop_members r now ms ks).0 ≡ true
      → contains same_name ms x ≡ true
      → string_at at x (drop_members r now ms ks).1 ≡ none
  unfolding drop_members contains
  drop_members-gone at [] x ks done h = cc
  drop_members-gone at (m ∷ ms) x ks done h = elim (Option-cases (r.del now (m ∷ ms) ks)) [
    | inl e ↦ ground arith
    | inr (ks', e) ↦ rw (e, drop_members) (ground (arith, r.string-del now at (m ∷ ms) x ks ks' e))
  ]

  drop_members-none :
      (at : Date) (ms : List CacheName) (x : CacheName) (ks : Keyspace CacheName)
      → string_at at x ks ≡ none
      → string_at at x (drop_members r now ms ks).1 ≡ none
  unfolding drop_members
  drop_members-none at [] x ks h = h
  drop_members-none at (m ∷ ms) x ks h = elim (Option-cases (r.del now (m ∷ ms) ks)) [
    | inl e ↦ rw (e, drop_members) h
    | inr (ks', e) ↦ rw (e, drop_members) (ground (arith, r.string-del now at (m ∷ ms) x ks ks' e))
  ]

  drop_tag-none :
      (at : Date) (t : CacheTag) (x : CacheName) (s : Bool × Keyspace CacheName)
      → string_at at x s.1 ≡ none
      → string_at at x (drop_tag r now t s).1 ≡ none
  unfolding drop_tag
  drop_tag-none at t x (false, ks) h = h
  drop_tag-none at t x (true, ks) h = elim (Option-cases (r.del now (tag_key t ∷ []) ks)) [
    | inl e ↦ rw (e, drop_tag) h
    | inr (ks', e) ↦
        rw (e, drop_tag) (ground (arith, r.string-del now at (tag_key t ∷ []) x ks ks' e))
  ]

  drop_tag-done :
      (t : CacheTag) (s : Bool × Keyspace CacheName) → (drop_tag r now t s).0 ≡ true → s.0 ≡ true
  unfolding drop_tag
  drop_tag-done t (false, ks) h = h
  drop_tag-done t (true, ks) h = refl

  pub purge-none :
      (at : Date) (t : CacheTag) (x : CacheName) (ks : Keyspace CacheName)
      → string_at at x ks ≡ none
      → string_at at x (purge r now t ks).1 ≡ none
  unfolding purge
  purge-none at t x ks h = elim (Option-cases (r.smembers now (tag_key t) ks)) [
    | inl e ↦ rw (e, purge) h
    | inr (ms, e) ↦
        rw (e, purge)
          (drop_tag-none at t x (drop_members r now ms ks) (drop_members-none at ms x ks h))
  ]

  pub purge-gone :
      (at : Date) (t : CacheTag) (x : CacheName) (ks : Keyspace CacheName)
      → (purge r now t ks).0 ≡ true
      → member same_name now (tag_key t) x ks ≡ true
      → string_at at x (purge r now t ks).1 ≡ none
  unfolding purge
  purge-gone at t x ks done h = elim (Option-cases (r.smembers now (tag_key t) ks)) [
    | inl e ↦ ground arith
    | inr (ms, e) ↦
        rw (e, purge)
          (drop_tag-none at t x (drop_members r now ms ks) (
            drop_members-gone at ms x ks
              (drop_tag-done t (drop_members r now ms ks) (rw (e, purge) at done))
              (r.smembers_lem now (tag_key t) ks ms e x ∙ h)))
  ]

  drop_members-member :
      (at : Date) (ms : List CacheName) (j x : CacheName) (ks : Keyspace CacheName)
      → contains same_name ms j ≡ false
      → member same_name at j x (drop_members r now ms ks).1 ≡ member same_name at j x ks
  unfolding drop_members
  drop_members-member at [] j x ks h = refl
  drop_members-member at (m ∷ ms) j x ks h = elim (Option-cases (r.del now (m ∷ ms) ks)) [
    | inl e ↦ rw (e, drop_members)
    | inr (ks', e) ↦ rw (e, drop_members) (r.member-del now at (m ∷ ms) j x ks ks' e ∙ rw h)
  ]

  drop_tag-member :
      (at : Date) (s : CacheTag) (j x : CacheName) (c : Bool × Keyspace CacheName)
      → same_name (tag_key s) j ≡ false
      → member same_name at j x (drop_tag r now s c).1 ≡ member same_name at j x c.1
  unfolding drop_tag contains
  drop_tag-member at s j x (false, ks) h = refl
  drop_tag-member at s j x (true, ks) h = elim (Option-cases (r.del now (tag_key s ∷ []) ks)) [
    | inl e ↦ rw (e, drop_tag)
    | inr (ks', e) ↦ rw (e, drop_tag) (r.member-del now at (tag_key s ∷ []) j x ks ks' e ∙ rw h)
  ]

  -- Dropping one tag leaves the sets of the others as they are.
  pub purge-member :
      (at : Date) (s t : CacheTag) (x : CacheName) (ks : Keyspace CacheName)
      → OnlyKeys now ks
      → same_name (tag_key s) (tag_key t) ≡ false
      → member same_name at (tag_key t) x (purge r now s ks).1
        ≡ member same_name at (tag_key t) x ks
  unfolding purge
  purge-member at s t x ks only other = elim (Option-cases (r.smembers now (tag_key s) ks)) [
    | inl e ↦ rw (e, purge)
    | inr (ms, e) ↦
        rw (e, purge)
          (drop_tag-member at s (tag_key t) x (drop_members r now ms ks) other
            ∙ drop_members-member at ms (tag_key t) x ks
                (r.smembers_lem now (tag_key s) ks ms e (tag_key t) ∙ only now s t (omega arith)))
  ]

  drop_members-fewer :
      (at : Date) (ms : List CacheName) (j x : CacheName) (ks : Keyspace CacheName)
      → member same_name at j x ks ≡ false
      → member same_name at j x (drop_members r now ms ks).1 ≡ false
  unfolding drop_members
  drop_members-fewer at [] j x ks h = h
  drop_members-fewer at (m ∷ ms) j x ks h = elim (Option-cases (r.del now (m ∷ ms) ks)) [
    | inl e ↦ rw (e, drop_members) h
    | inr (ks', e) ↦
        rw (e, drop_members) (ground (arith, r.member-del now at (m ∷ ms) j x ks ks' e))
  ]

  drop_tag-fewer :
      (at : Date) (s : CacheTag) (j x : CacheName) (c : Bool × Keyspace CacheName)
      → member same_name at j x c.1 ≡ false
      → member same_name at j x (drop_tag r now s c).1 ≡ false
  unfolding drop_tag
  drop_tag-fewer at s j x (false, ks) h = h
  drop_tag-fewer at s j x (true, ks) h = elim (Option-cases (r.del now (tag_key s ∷ []) ks)) [
    | inl e ↦ rw (e, drop_tag) h
    | inr (ks', e) ↦
        rw (e, drop_tag) (ground (arith, r.member-del now at (tag_key s ∷ []) j x ks ks' e))
  ]

  pub purge-OnlyKeys :
      (s : CacheTag) (ks : Keyspace CacheName) → OnlyKeys now ks → OnlyKeys now (purge r now s ks).1
  unfolding purge
  purge-OnlyKeys s ks only at u t later = elim (Option-cases (r.smembers now (tag_key s) ks)) [
    | inl e ↦ rw (e, purge) (only at u t later)
    | inr (ms, e) ↦
        rw (e, purge)
          (drop_tag-fewer at s (tag_key u) (tag_key t) (drop_members r now ms ks)
            (drop_members-fewer at ms (tag_key u) (tag_key t) ks (only at u t later)))
  ]

module _ (r : Redis CacheName same_name) (now : Date) (key : CacheKey) (ttl : ℕ) where
  tagging-OnlyKeys :
      (s : CacheTag) (ks : Keyspace CacheName)
      → OnlyKeys now ks
      → OnlyKeys now
          (r.apply now (expire (tag_key s) (ttl * 2)) (r.apply now (sadd (tag_key s) (k key)) ks))
  tagging-OnlyKeys s ks only at u t later = ground (
    arith,
    r.member-expire now at (tag_key s) (tag_key u) (tag_key t) (ttl * 2)
        (r.apply now (sadd (tag_key s) (k key)) ks) later,
    r.member-sadd now at (tag_key s) (tag_key u) (k key) (tag_key t) ks later,
    r.member-sadd now now (tag_key s) (tag_key u) (k key) (tag_key t) ks,
    only at u t later,
    only now u t,
  )

  exec-OnlyKeys :
      (tags : List CacheTag) (ks ks' : Keyspace CacheName)
      → OnlyKeys now ks
      → r.exec now (tag_commands key ttl tags) ks ≡ some ks'
      → OnlyKeys now ks'
  unfolding tag_commands
  exec-OnlyKeys [] ks ks' only e = rw (r.exec_nil now ks ks' e) only
  exec-OnlyKeys (s ∷ ss) ks ks' only e =
      exec-OnlyKeys ss _ ks' (tagging-OnlyKeys s ks only)
        (r.exec_cons now _ _ _ _ (r.exec_cons now _ _ _ _ e))

  pub store-OnlyKeys :
      (payload : String) (tags : List CacheTag) (ks : Keyspace CacheName)
      → OnlyKeys now ks
      → OnlyKeys now (store r now key payload ttl tags ks)
  unfolding store
  store-OnlyKeys payload tags ks only = elim (Bool-cases (ltb max_payload_bytes (len payload))) [
    | inl big ↦ rw big only
    | inr small ↦
        elim (Option-cases
          (r.exec now (set_ex (k key) payload ttl ∷ tag_commands key ttl tags) ks)) [
            | inl e ↦ rw (small, e, store) only
            | inr (ks', e) ↦
                rw (small, e, store)
                  (exec-OnlyKeys tags (r.apply now (set_ex (k key) payload ttl) ks) ks'
                    (λ at s t later.
                      r.member-set_ex now at (k key) (tag_key s) (tag_key t) payload ttl ks refl
                      ∙ only at s t later)
                    (r.exec_cons now _ _ _ _ e))
          ]
  ]
