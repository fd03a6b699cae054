-- ===== src/Instances/Keys.antt =====
-- A keyspace in memory: Redis with keys that are compared by a test.
use text.Mathlib.TextEquality.{eq_iff}
use componi_back_nest.Prelude.{
  ℕ, ◌+◌, ◌*◌, ◌≡◌, ◌≤◌, refl, sym, ap, subst, true, false, ◌&&◌, ◌||◌, Option, none, some, List,
  [], ◌∷◌, String, ltb, if◌then◌else◌, arith, or_else, Bool-cases, inl, inr,
}
use componi_back_nest.Entities.Accounts.{Date}
use componi_back_nest.Platform.Redis.{
  Keyspace, Command, set_ex, sadd, expire, Redis, contains, string_at, live_set, lives, member,
  exists_at, before,
}
use componi_back_nest.Messages.{
  CacheName, k, tag_key, component_public, feed_trending_page, feed_following_page, session,
  component, author, feed_trending, user_feed, user_session, search_page, search_semantic,
  same_name,
}

abbrev pub Keys : Type 0
Keys = Keyspace CacheName

unfoldable pub added :
    Date → CacheName → Option (List CacheName × Option Date) → Option (List CacheName × Option Date)
added now m none = some (m ∷ [], none)
added now m (some (l, e)) = if before now e then some (m ∷ l, e) else some (m ∷ [], none)

unfoldable pub kept :
    Date → Date → Option (List CacheName × Option Date) → Option (List CacheName × Option Date)
kept now until none = none
kept now until (some (l, e)) = if before now e then some (l, some until) else none

unfoldable pub kept_string : Date → Date → Option (String × Date) → Option (String × Date)
kept_string now until none = none
kept_string now until (some (v, e)) = if ltb now e then some (v, until) else none

unfoldable pub apply : Date → Command CacheName → Keys → Keys
unfolding added kept kept_string
apply now (set_ex j v s) ks = record {
  strings = λ x. if same_name j x then some (v, now + s * 1000) else ks.strings x;
  sets = λ x. if same_name j x then none else ks.sets x;
}
apply now (sadd j m) ks = record {
  strings = ks.strings;
  sets = λ x. if same_name j x then added now m (ks.sets j) else ks.sets x;
}
apply now (expire j s) ks = record {
  strings =
      λ x. if same_name j x then kept_string now (now + s * 1000) (ks.strings x) else ks.strings x;
  sets = λ x. if same_name j x then kept now (now + s * 1000) (ks.sets x) else ks.sets x;
}

unfoldable pub apply_all : Date → List (Command CacheName) → Keys → Keys
unfolding apply
apply_all now [] ks = ks
apply_all now (c ∷ cs) ks = apply_all now cs (apply now c ks)

unfoldable pub without : List CacheName → Keys → Keys
unfolding contains
without js ks = record {
  strings = λ x. if contains same_name js x then none else ks.strings x;
  sets = λ x. if contains same_name js x then none else ks.sets x;
}

pub some-inj : {A : Type 0} (a b : A) → ◌≡◌ {A = Option A} (some a) (some b) → a ≡ b
some-inj a b e = ap (λ o. or_else o a) e

pub string-without :
    (t : Date) (js : List CacheName) (x : CacheName) (ks : Keys)
    → string_at t x (without js ks) ≡ (if contains same_name js x then none else string_at t x ks)
unfolding without
string-without t js x ks = elim (Bool-cases (contains same_name js x)) [
  | inl e ↦ rw e refl
  | inr e ↦ rw e refl
]

pub member-without :
    (t : Date) (js : List CacheName) (y x : CacheName) (ks : Keys)
    → member same_name t y x (without js ks)
      ≡ (if contains same_name js y then false else member same_name t y x ks)
unfolding without contains
member-without t js y x ks = elim (Bool-cases (contains same_name js y)) [
  | inl e ↦ rw e refl
  | inr e ↦ rw e refl
]

pub string_set :
    (now t : Date) (j x : CacheName) (v : String) (s : ℕ) (ks : Keys)
    → string_at t x (apply now (set_ex j v s) ks) ≡ (
        if same_name j x
        then (if ltb t (now + s * 1000) then some v else none)
        else string_at t x ks)
unfolding apply
string_set now t j x v s ks = elim (Bool-cases (same_name j x)) [
  | inl e ↦ rw e refl
  | inr e ↦ rw e refl
]

pub string_kept :
    (now t : Date) (j x : CacheName) (s : ℕ) (ks : Keys)
    → same_name j x ≡ false
    → string_at t x (apply now (expire j s) ks) ≡ string_at t x ks
unfolding apply
string_kept now t j x s ks e = rw e refl

pub member_set :
    (now t : Date) (j y x : CacheName) (v : String) (s : ℕ) (ks : Keys)
    → same_name j y ≡ false
    → member same_name t y x (apply now (set_ex j v s) ks) ≡ member same_name t y x ks
unfolding apply
member_set now t j y x v s ks e = rw e refl

-- The names are compared as they should be.
search_eq :
    (u : Option ℕ) (s : String) (n : ℕ) (x : CacheName)
    → same_name (k (search_page u s n)) x ≡ true
    → k (search_page u s n) ≡ x
search_eq none s n (k (search_page none t m)) h = ground (arith, h, eq_iff s t)
search_eq (some a) s n (k (search_page (some b) t m)) h = ground (arith, h, eq_iff s t)
search_eq none s n (k (search_page (some b) t m)) h = ground arith
search_eq (some a) s n (k (search_page none t m)) h = ground arith
search_eq u s n (k (component_public b)) h = ground arith
search_eq u s n (k (feed_trending_page m)) h = ground arith
search_eq u s n (k (feed_following_page b m)) h = ground arith
search_eq u s n (k (session b)) h = ground arith
search_eq u s n (tag_key t) h = ground arith

name_eq : (j x : CacheName) → same_name j x ≡ true → j ≡ x
name_eq (k (component_public a)) x h = ground arith
name_eq (k (feed_trending_page n)) x h = ground arith
name_eq (k (feed_following_page a n)) x h = ground arith
name_eq (k (session a)) x h = ground arith
name_eq (k (search_page u s n)) x h = search_eq u s n x h
name_eq (tag_key (component a)) x h = ground arith
name_eq (tag_key (author a)) x h = ground arith
name_eq (tag_key feed_trending) x h = ground arith
name_eq (tag_key (user_feed a)) x h = ground arith
name_eq (tag_key (user_session a)) x h = ground arith
name_eq (tag_key search_semantic) x h = ground arith

in_added :
    (now t : Date) (m x : CacheName) (o : Option (List CacheName × Option Date))
    → now ≤ t
    → contains same_name (live_set t (added now m o)) x
      ≡ (if exists_at now o then exists_at t o else true)
        && (same_name m x || contains same_name (live_set t o) x)
unfolding added contains
in_added now t m x none later = ground arith
in_added now t m x (some (l, none)) later = ground arith
in_added now t m x (some (l, some e)) later = ground arith

added_exists :
    (now t : Date) (m : CacheName) (o : Option (List CacheName × Option Date))
    → now ≤ t
    → exists_at t (added now m o) ≡ (if exists_at now o then exists_at t o else true)
unfolding added
added_exists now t m none later = ground arith
added_exists now t m (some (l, none)) later = ground arith
added_exists now t m (some (l, some e)) later = ground arith

in_kept :
    (now t until : Date) (x : CacheName) (o : Option (List CacheName × Option Date))
    → now ≤ t
    → contains same_name (live_set t (kept now until o)) x
      ≡ ltb t until && contains same_name (live_set now o) x
unfolding kept contains
in_kept now t until x none later = ground arith
in_kept now t until x (some (l, none)) later = ground arith
in_kept now t until x (some (l, some e)) later = ground arith

pub member_add :
    (now t : Date) (j y m x : CacheName) (ks : Keys)
    → now ≤ t
    → member same_name t y x (apply now (sadd j m) ks) ≡ (
        if same_name j y
        then (if lives now j ks then lives t j ks else true)
          && (same_name m x || member same_name t y x ks)
        else member same_name t y x ks)
unfolding apply
member_add now t j y m x ks later = elim (Bool-cases (same_name j y)) [
  | inl e ↦
      subst
        (λ z. member same_name t z x (apply now (sadd j m) ks) ≡ (
          if same_name j z
          then (if lives now j ks then lives t j ks else true)
            && (same_name m x || member same_name t z x ks)
          else member same_name t z x ks))
        (name_eq j y e)
        (rw (subst (λ z. same_name j z ≡ true) (sym (name_eq j y e)) e)
          (in_added now t m x (ks.sets j) later))
  | inr e ↦ rw e refl
]

pub lives_add :
    (now t : Date) (j y m : CacheName) (ks : Keys)
    → now ≤ t
    → lives t y (apply now (sadd j m) ks)
      ≡ (if same_name j y then (if lives now j ks then lives t j ks else true) else lives t y ks)
unfolding apply
lives_add now t j y m ks later = elim (Bool-cases (same_name j y)) [
  | inl e ↦ rw e (added_exists now t m (ks.sets j) later)
  | inr e ↦ rw e refl
]

pub member_expire :
    (now t : Date) (j y x : CacheName) (s : ℕ) (ks : Keys)
    → now ≤ t
    → member same_name t y x (apply now (expire j s) ks) ≡ (
        if same_name j y
        then ltb t (now + s * 1000) && member same_name now y x ks
        else member same_name t y x ks)
unfolding apply
member_expire now t j y x s ks later = elim (Bool-cases (same_name j y)) [
  | inl e ↦ rw e (in_kept now t (now + s * 1000) x (ks.sets y) later)
  | inr e ↦ rw e refl
]

pub string_add :
    (now t : Date) (j x m : CacheName) (ks : Keys)
    → string_at t x (apply now (sadd j m) ks) ≡ string_at t x ks
unfolding apply
string_add now t j x m ks = refl

pub exec_done :
    (now : Date) (ks ks' : Keys)
    → ◌≡◌ {A = Option Keys} (some (apply_all now [] ks)) (some ks')
    → ks' ≡ ks
unfolding apply_all
exec_done now ks ks' e = sym (some-inj ks ks' e)

pub exec_next :
    (now : Date) (c : Command CacheName) (cs : List (Command CacheName)) (ks ks' : Keys)
    → ◌≡◌ {A = Option Keys} (some (apply_all now (c ∷ cs) ks)) (some ks')
    → ◌≡◌ {A = Option Keys} (some (apply_all now cs (apply now c ks))) (some ks')
unfolding apply_all
exec_next now c cs ks ks' e = e

unfoldable pub redis_in_memory : Redis CacheName same_name
redis_in_memory = record {
  get = λ now x ks. some (string_at now x ks);
  smembers = λ now x ks. some (live_set now (ks.sets x));
  del = λ now js ks. some (without js ks);
  apply = apply;
  exec = λ now cs ks. some (apply_all now cs ks);
  get_lem = λ now x ks r e. sym (some-inj _ r e);
  smembers_lem = λ now x ks l e y. ap (λ m. contains same_name m y) (sym (some-inj _ l e));
  string-del = λ now t js x ks ks' e.
      subst (λ z. string_at t x z ≡ (if contains same_name js x then none else string_at t x ks))
        (some-inj _ ks' e) (string-without t js x ks);
  member-del = λ now t js y x ks ks' e.
      subst
        (λ z.
          member same_name t y x z
          ≡ (if contains same_name js y then false else member same_name t y x ks))
        (some-inj _ ks' e) (member-without t js y x ks);
  exec_nil = exec_done;
  exec_cons = exec_next;
  string-set_ex = string_set;
  string-sadd = λ now t j x m ks e. string_add now t j x m ks;
  string-expire = λ now t j x s ks e. string_kept now t j x s ks e;
  member-set_ex = λ now t j y x v s ks e. member_set now t j y x v s ks e;
  member-sadd = member_add;
  lives-sadd = lives_add;
  member-expire = member_expire;
}
