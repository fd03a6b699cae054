-- ===== src/Platform/Redis.antt =====
-- The commands of ioredis that the services use, over a keyspace with expiry. `none` is a command
-- that fails because Redis cannot be reached. Time is in milliseconds.
use componi_back_nest.Prelude.{
  ℕ, ◌+◌, ◌*◌, ◌≡◌, ◌≤◌, Bool, true, false, ◌&&◌, ◌||◌, Option, none, some, List, [], ◌∷◌, String,
  ltb, if◌then◌else◌,
}
use componi_back_nest.Entities.Accounts.{Date}

-- A string under a key, with the time at which it expires; a set under a key, with the time at
-- which it expires if it does.
pub record Keyspace (K : Type 0) : Type 0 where
  pub strings : K → Option (String × Date)
  pub sets : K → Option (List K × Option Date)

-- The commands of a MULTI block: SET key value EX seconds, SADD key member, EXPIRE key seconds.
pub data Command (K : Type 0) : Type 0 where
  set_ex : K → String → ℕ → Command K
  sadd : K → K → Command K
  expire : K → ℕ → Command K

-- What a client reads at a time, if nothing is written before.
abbrev pub live_string : Date → Option (String × Date) → Option String
live_string now none = none
live_string now (some (v, e)) = if ltb now e then some v else none

abbrev pub before : Date → Option Date → Bool
before now none = true
before now (some e) = ltb now e

module _ {K : Type 0} where
  unfoldable pub contains : (K → K → Bool) → List K → K → Bool
  contains same [] k = false
  contains same (j ∷ js) k = same j k || contains same js k

  abbrev pub string_at : Date → K → Keyspace K → Option String
  string_at now k ks = live_string now (ks.strings k)

  abbrev pub live_set : Date → Option (List K × Option Date) → List K
  live_set now none = []
  live_set now (some (l, e)) = if before now e then l else []

  abbrev pub exists_at : Date → Option (List K × Option Date) → Bool
  exists_at now none = false
  exists_at now (some (l, e)) = before now e

  -- Does the set under `k` exist at a time; does it hold `x` then?
  abbrev pub lives : Date → K → Keyspace K → Bool
  lives now k ks = exists_at now (ks.sets k)

  abbrev pub member : (K → K → Bool) → Date → K → K → Keyspace K → Bool
  member same now k x ks = contains same (live_set now (ks.sets k)) x

-- The keys are compared by `same`.
pub record Redis (K : Type 0) (same : K → K → Bool) : Type 0 where
  pub get : Date → K → Keyspace K → Option (Option String)
  pub smembers : Date → K → Keyspace K → Option (List K)
  pub del : Date → List K → Keyspace K → Option (Keyspace K)
  pub apply : Date → Command K → Keyspace K → Keyspace K
  -- MULTI, the commands, EXEC.
  pub exec : Date → List (Command K) → Keyspace K → Option (Keyspace K)
  pub get_lem :
      (now : Date) (k : K) (ks : Keyspace K) (r : Option String)
      → get now k ks ≡ some r
      → r ≡ string_at now k ks
  pub smembers_lem :
      (now : Date) (k : K) (ks : Keyspace K) (l : List K)
      → smembers now k ks ≡ some l
      → (x : K) → contains same l x ≡ member same now k x ks
  pub string-del :
      (now t : Date) (js : List K) (k : K) (ks ks' : Keyspace K)
      → del now js ks ≡ some ks'
      → string_at t k ks' ≡ (if contains same js k then none else string_at t k ks)
  pub member-del :
      (now t : Date) (js : List K) (k x : K) (ks ks' : Keyspace K)
      → del now js ks ≡ some ks'
      → member same t k x ks' ≡ (if contains same js k then false else member same t k x ks)
  pub exec_nil : (now : Date) (ks ks' : Keyspace K) → exec now [] ks ≡ some ks' → ks' ≡ ks
  pub exec_cons :
      (now : Date) (c : Command K) (cs : List (Command K)) (ks ks' : Keyspace K)
      → exec now (c ∷ cs) ks ≡ some ks'
      → exec now cs (apply now c ks) ≡ some ks'
  pub string-set_ex :
      (now t : Date) (j k : K) (v : String) (s : ℕ) (ks : Keyspace K)
      → string_at t k (apply now (set_ex j v s) ks)
        ≡ (if same j k then (if ltb t (now + s * 1000) then some v else none) else string_at t k ks)
  pub string-sadd :
      (now t : Date) (j k m : K) (ks : Keyspace K)
      → same j k ≡ false
      → string_at t k (apply now (sadd j m) ks) ≡ string_at t k ks
  pub string-expire :
      (now t : Date) (j k : K) (s : ℕ) (ks : Keyspace K)
      → same j k ≡ false
      → string_at t k (apply now (expire j s) ks) ≡ string_at t k ks
  pub member-set_ex :
      (now t : Date) (j k x : K) (v : String) (s : ℕ) (ks : Keyspace K)
      → same j k ≡ false
      → member same t k x (apply now (set_ex j v s) ks) ≡ member same t k x ks
  pub member-sadd :
      (now t : Date) (j k m x : K) (ks : Keyspace K)
      → now ≤ t
      → member same t k x (apply now (sadd j m) ks) ≡ (
          if same j k
          then (if lives now j ks then lives t j ks else true) && (same m x || member same t k x ks)
          else member same t k x ks)
  pub lives-sadd :
      (now t : Date) (j k m : K) (ks : Keyspace K)
      → now ≤ t
      → lives t k (apply now (sadd j m) ks)
        ≡ (if same j k then (if lives now j ks then lives t j ks else true) else lives t k ks)
  pub member-expire :
      (now t : Date) (j k x : K) (s : ℕ) (ks : Keyspace K)
      → now ≤ t
      → member same t k x (apply now (expire j s) ks) ≡ (
          if same j k
          then ltb t (now + s * 1000) && member same now k x ks
          else member same t k x ks)
