-- ===== src/Cache/Reading.antt =====
-- A read after a write of the same key.
use Prim.Native.String.{len}
use text.Mathlib.Text.{◌==◌ as str_eq}
use componi_back_nest.Prelude.{
  ℕ, ◌+◌, ◌*◌, ◌≡◌, refl, ◌∙◌, String, false, Option, none, some, List, ◌∷◌, arith, Bool-cases, inl,
  inr, ltb, if◌then◌else◌,
}
use componi_back_nest.Platform.Redis.{Keyspace, set_ex, string_at}
use componi_back_nest.Messages.{CacheKey, CacheTag, CacheName, k, same_name}
use componi_back_nest.Exec.{Platform, World, wait}
use componi_back_nest.Cache.{Json, get, set, store, tag_commands, max_payload_bytes}
use componi_back_nest.Cache.Tags.{same_name-refl_key}
use componi_back_nest.Cache.Freshness.{string-exec}

module _ (p : Platform) {A : Type 0} (json : Json A) where
  get_of_string :
      (key : CacheKey) (raw : String) (r : Option String) (w : World)
      → str_eq raw "" ≡ false
      → p.redis.get w.clock (k key) w.redis ≡ some r
      → string_at w.clock (k key) w.redis ≡ some raw
      → get p json key w ≡ json.parse raw
  unfolding get
  get_of_string key raw r w full reached e =
      rw (reached, get, p.redis.get_lem w.clock (k key) w.redis r reached, e, get, full) refl

  get_of_nothing :
      (key : CacheKey) (r : Option String) (w : World)
      → p.redis.get w.clock (k key) w.redis ≡ some r
      → string_at w.clock (k key) w.redis ≡ none
      → get p json key w ≡ none
  unfolding get
  get_of_nothing key r w reached e =
      rw (reached, get, p.redis.get_lem w.clock (k key) w.redis r reached, e, get) refl

  -- If Redis can be reached when a value is stored and when it is read again, and its JSON is
  -- neither empty nor over the limit of `set`, then a read within the time to live gives the value
  -- that JSON.parse makes of it, which is the value, and a later read is a miss.
  pub get-set :
      (key : CacheKey) (value : A) (ttl ms : ℕ) (tags : List CacheTag) (w : World)
      (ks : Keyspace CacheName) (r : Option String)
      → json.parse (json.stringify value) ≡ some value
      → str_eq (json.stringify value) "" ≡ false
      → ltb max_payload_bytes (len (json.stringify value)) ≡ false
      → p.redis.exec w.clock
          (set_ex (k key) (json.stringify value) ttl ∷ tag_commands key ttl tags)
          w.redis
        ≡ some ks
      → p.redis.get (w.clock + ms) (k key) ks ≡ some r
      → get p json key (wait ms (set p json key value ttl tags w).1)
        ≡ (if ltb ms (ttl * 1000) then some value else none)
  unfolding set store
  get-set key value ttl ms tags w ks r parses full small stored reached =
      rw (small, stored, store)
        (elim (Bool-cases (ltb ms (ttl * 1000))) [
          | inl live ↦ rw live (
              get_of_string key (json.stringify value) r
                (record w { redis = ks; clock = w.clock + ms }) full reached
                (ground (arith, live, at, same_name-refl_key key))
              ∙ parses)
          | inr late ↦ rw late (
              get_of_nothing key r (record w { redis = ks; clock = w.clock + ms }) reached
                (ground (arith, late, at, same_name-refl_key key)))
        ])
    where
      at : string_at (w.clock + ms) (k key) ks ≡ (
          if same_name (k key) (k key)
          then (if ltb (w.clock + ms) (w.clock + ttl * 1000)
              then some (json.stringify value)
              else none)
          else string_at (w.clock + ms) (k key) w.redis)
      at =
          string-exec p.redis w.clock (w.clock + ms) key key ttl tags _ ks
            (p.redis.exec_cons w.clock _ _ _ _ stored)
          ∙ p.redis.string-set_ex w.clock (w.clock + ms) (k key) (k key) (json.stringify value) ttl
              w.redis
