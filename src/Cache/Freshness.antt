-- ===== src/Cache/Freshness.antt =====
-- No cached value outlives the invalidation of one of its tags.
use Prim.Native.String.{len}
use componi_back_nest.Prelude.{
  ◌≢◌, ℕ, ◌+◌, ◌*◌, ◌≤◌, ◌≡◌, ◌⊎◌, refl, ◌∙◌, String, true, none, some, List, [], ◌∷◌, arith,
  Bool-cases, Option-cases, inl, inr, ltb,
}
use componi_back_nest.Entities.Accounts.{Date}
use componi_back_nest.Platform.Redis.{Keyspace, Redis, member, string_at, sadd, expire, set_ex}
use componi_back_nest.Messages.{CacheKey, CacheTag, CacheName, k, tag_key, same_name}
use componi_back_nest.Cache.{tag_commands, store, max_payload_bytes}
use componi_back_nest.Cache.Tags.{Tagged, one_tag-Tagged, own_tag-Tagged, same_name-refl_key}

abbrev pub Among : CacheTag → List CacheTag → Type 0
Among t [] = ⊥
Among t (s ∷ ss) = (t ≡ s) ⊎ Among t ss

-- Whenever the value can be read, its key is in the set of the tag.
abbrev pub Covered : Date → CacheKey → CacheTag → Keyspace CacheName → Type 0
Covered from key t ks =
    (at : Date)
    → from ≤ at
    → string_at at (k key) ks ≢ none
    → member same_name at (tag_key t) (k key) ks ≡ true

module _ (r : Redis CacheName same_name) where
  -- What is gone stays gone, and expires at the latest when it would have.
  pub gone_later :
      (now at : Date) (x : CacheName) (ks : Keyspace CacheName)
      → now ≤ at
      → string_at now x ks ≡ none
      → string_at at x ks ≡ none
  gone_later now at x ks later h = ground arith

  exec-Tagged :
      (now until : Date) (key : CacheKey) (t : CacheTag) (ttl : ℕ) (tags : List CacheTag)
      (ks ks' : Keyspace CacheName)
      → until ≤ now + ttl * 2 * 1000
      → r.exec now (tag_commands key ttl tags) ks ≡ some ks'
      → Among t tags ⊎ Tagged r now until key t ks
      → Tagged r now until key t ks'
  unfolding tag_commands
  exec-Tagged now until key t ttl [] ks ks' bound e (inl a) = absurd a
  exec-Tagged now until key t ttl [] ks ks' bound e (inr h) = rw (r.exec_nil now ks ks' e) h
  exec-Tagged now until key t ttl (s ∷ ss) ks ks' bound e why =
      let ks1 = r.apply now (sadd (tag_key s) (k key)) ks in
      exec-Tagged now until key t ttl ss (r.apply now (expire (tag_key s) (ttl * 2)) ks1) ks' bound
        (r.exec_cons now _ _ _ _ (r.exec_cons now _ _ _ _ e))
        (elim why [
          | inl (inl own) ↦ inr (rw own (own_tag-Tagged r now until key s ttl ks bound))
          | inl (inr other) ↦ inl other
          | inr h ↦ inr (one_tag-Tagged r now until key t s ttl ks bound h)
        ])

  -- The tag commands leave the value alone.
  pub string-exec :
      (now at : Date) (key other : CacheKey) (ttl : ℕ) (tags : List CacheTag)
      (ks ks' : Keyspace CacheName)
      → r.exec now (tag_commands key ttl tags) ks ≡ some ks'
      → string_at at (k other) ks' ≡ string_at at (k other) ks
  unfolding tag_commands
  string-exec now at key other ttl [] ks ks' e = rw (r.exec_nil now ks ks' e)
  string-exec now at key other ttl (s ∷ ss) ks ks' e =
      string-exec now at key other ttl ss _ ks'
        (r.exec_cons now _ _ _ _ (r.exec_cons now _ _ _ _ e))
      ∙ r.string-expire now at (tag_key s) (k other) (ttl * 2) _ refl
      ∙ r.string-sadd now at (tag_key s) (k other) (k key) ks refl

  exec-Covered :
      (now : Date) (key : CacheKey) (t : CacheTag) (payload : String) (ttl : ℕ)
      (tags : List CacheTag) (ks ks' : Keyspace CacheName)
      → Among t tags
      → r.exec now (set_ex (k key) payload ttl ∷ tag_commands key ttl tags) ks ≡ some ks'
      → Covered now key t ks'
  exec-Covered now key t payload ttl tags ks ks' among e at later readable =
      let ks1 = r.apply now (set_ex (k key) payload ttl) ks in
      let rest = r.exec_cons now _ _ _ _ e in
      exec-Tagged now (now + ttl * 2 * 1000) key t ttl tags ks1 ks' (omega arith) rest (inl among)
        at later
        (ground (
          arith,
          readable,
          string-exec now at key key ttl tags ks1 ks' rest,
          r.string-set_ex now at (k key) (k key) payload ttl ks,
          same_name-refl_key key,
        ))

  -- A value that is stored after a miss can be found through each of its tags.
  pub store-Covered :
      (now : Date) (key : CacheKey) (t : CacheTag) (payload : String) (ttl : ℕ)
      (tags : List CacheTag) (ks : Keyspace CacheName)
      → Among t tags
      → string_at now (k key) ks ≡ none
      → Covered now key t (store r now key payload ttl tags ks)
  unfolding store
  store-Covered now key t payload ttl tags ks among miss =
      elim (Bool-cases (ltb max_payload_bytes (len payload))) [
        | inl big ↦
            rw big
              (λ at later readable. absurd (readable (gone_later now at (k key) ks later miss)))
        | inr small ↦
            elim (Option-cases
              (r.exec now (set_ex (k key) payload ttl ∷ tag_commands key ttl tags) ks)) [
                | inl e ↦
                    rw (small, e, store)
                      (λ at later readable.
                        absurd (readable (gone_later now at (k key) ks later miss)))
                | inr (ks', e) ↦
                    rw (small, e, store) (exec-Covered now key t payload ttl tags ks ks' among e)
              ]
      ]
