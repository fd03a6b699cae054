-- ===== src/Examples/Reading.antt =====
-- Reads through the cache, searches, feeds, collections and consents.
use text.Mathlib.Text.{◌==◌ as str_eq}
use componi_back_nest.Prelude.{
  ◌≡◌, ◌<◌, inl, ◌||◌, refl, pos, String, Bool, true, false, not, none, some, List, [], ◌∷◌, arith,
  count, ltb, if◌then◌else◌, ◌*◌,
}
use componi_back_nest.Entities.Accounts.{UserRole}
use componi_back_nest.Entities.Content.{Component}
use componi_back_nest.Database.{live_user}
use componi_back_nest.Messages.{component_public, component, session, user_session}
use componi_back_nest.Platform.Js.{Js}
use componi_back_nest.Cache.{
  Json, get, set, store, wrap, serve, keep, invalidate_tags, purge_all, purge,
}
use componi_back_nest.Cache.Freshness.{store-Covered}
use componi_back_nest.Cache.Invalidation.{OnlyKeys, store-OnlyKeys}
use componi_back_nest.Cache.Reading.{get-set}
use componi_back_nest.Collections.{
  CreateCollectionDto, create, add_component, remove_component, add_trx, owned, insert_item,
  insert_collection, new_collection, new_item, set_collection,
}
use componi_back_nest.Collections.Refinement.{Gains, Loses, collection_refines_set}
use componi_back_nest.Collections.Counted.{ItemsCounted}
use componi_back_nest.Collections.History.{
  CollectionRequest, creates, adds, removes_item, removes, serve_all, serve_all-ItemsCounted,
}
use componi_back_nest.Accounts.Consent.{ConsentStatus, accept}
use componi_back_nest.Accounts.Consent.Accepted.{both, accept-passes}
use componi_back_nest.Search.{Sql, search_all}
use componi_back_nest.Search.Bounds.{IsAnswer, search_all-IsAnswer}
use componi_back_nest.Feed.{trending, load_trending, shown_to}
use componi_back_nest.Feed.Hidden.{filter, is_shown, trending-filter}
use componi_back_nest.Session.{SessionState, hydrate}
use componi_back_nest.Guards.{SupabaseClaims, Method, check_consent, to_auth_user}
use componi_back_nest.Exec.{World, ok, wait, returned}
use componi_back_nest.Exec.Outcomes.{Post}
use componi_back_nest.Instances.Keys.{redis_in_memory, apply_all, without}
use componi_back_nest.Platform.Redis.{contains}
use componi_back_nest.Instances.Deployment.{deployment}
use componi_back_nest.Instances.Tables.{
  find_one, insert, settle, update, find, find_page, sort, place, take,
}
use componi_back_nest.Examples.Start.{start, tables, button}

abbrev texts : Json String
texts = record { stringify = λ s. s; parse = λ s. some s }

get-set_example :
    get deployment texts (component_public 10) (
      wait 500
        (set deployment texts (component_public 10) "button" 120 (component 10 ∷ []) start).1)
    ≡ (if ltb 500 (120 * 1000) then some "button" else none)
unfolding deployment redis_in_memory
get-set_example =
    get-set deployment texts (component_public 10) "button" 120 500 (component 10 ∷ []) start _ _
      refl refl refl refl refl

-- Two values under one tag, of which the second shortens the life of the tag's set: an invalidation
-- after that leaves the first value in the cache.
abbrev shortened : World
shortened =
    wait 101000
      (set deployment texts (component_public 11) "knob" 30 (component 10 ∷ [])
        (set deployment texts (component_public 10) "button" 300 (component 10 ∷ []) start).1).1

still_read :
    get deployment texts
      (component_public 10)
      (invalidate_tags deployment (component 10 ∷ []) shortened).1
    ≡ some "button"
unfolding deployment set store redis_in_memory invalidate_tags purge_all purge apply_all get without
still_read = refl

abbrev favourites : CreateCollectionDto
favourites = record { name = "favourites"; description = none; is_public = none }

tables-ItemsCounted : ItemsCounted tables
unfolding count
tables-ItemsCounted = record { once = λ a b. omega arith; counted = refl; housed = λ id e. refl }

abbrev collecting : List CollectionRequest
collecting =
    creates 1 favourites
    ∷ adds 1 100 10
    ∷ adds 1 100 10
    ∷ adds 2 100 10
    ∷ removes_item 1 100 10
    ∷ removes 1 100
    ∷ []

serve_all-ItemsCounted_example : ItemsCounted (serve_all deployment collecting start).db
serve_all-ItemsCounted_example =
    serve_all-ItemsCounted deployment collecting start tables-ItemsCounted

-- User 1 has an empty collection.
abbrev collected : World
collected = (create deployment 1 favourites start).1

collection_refines_set_example :
    Post (λ _ v. Gains 100 10 collected.db v.db) (add_component deployment 100 10 1 collected)
    × Post (λ _ v. Loses 100 10 collected.db v.db) (remove_component deployment 100 10 1 collected)
collection_refines_set_example = collection_refines_set deployment 100 10 1 collected

-- It returns.
added : returned (add_component deployment 100 10 1 collected).0 ≡ true
unfolding create add_component add_trx owned insert_item insert_collection new_collection new_item
    deployment find_one insert set_collection settle update
added = refl

user_1_lives : 0 < count (live_user 1) start.db.users
unfolding count
user_1_lives = omega arith

abbrev claims : SupabaseClaims
claims = record {
  sub = some 1;
  email = none;
  user_name = none;
  preferred_username = none;
  provider = none;
}

-- A session without consents, cached before the acceptance.
abbrev no_consent : SessionState
no_consent = record {
  role = UserRole.admin;
  suspended_until = none;
  privacy_accepted_version = none;
  terms_accepted_version = none;
}

abbrev sessions : Json SessionState
sessions = record { stringify = λ s. "session"; parse = λ s. some no_consent }

abbrev stale : World
stale = (set deployment sessions (session 1) no_consent 30 (user_session 1 ∷ []) start).1

no_keys-OnlyKeys : OnlyKeys 1000000 start.redis
unfolding contains
no_keys-OnlyKeys at s t later = refl

accept-passes_example :
    ((s : ConsentStatus) × ((accept deployment 1 both stale).0 ≡ ok s)
      × (s.privacy.needs_acceptance || s.terms.needs_acceptance ≡ false))
    × ((s : SessionState) × ((hydrate deployment sessions 1 (accept deployment 1 both stale).1).0
          ≡ ok (some s))
        × (check_consent deployment.config false Method.post (some (to_auth_user claims 1 s))
            ≡ ok tt))
unfolding deployment set store redis_in_memory purge_all purge apply_all
accept-passes_example =
    accept-passes deployment 1 stale user_1_lives sessions claims false Method.post
      (store-OnlyKeys deployment.redis 1000000 (session 1) 30 "session" (user_session 1 ∷ [])
        start.redis no_keys-OnlyKeys)
      (store-Covered deployment.redis 1000000 (session 1) (user_session 1) "session" 30
        (user_session 1 ∷ []) start.redis (inl refl) refl)
      refl

abbrev anything : Sql
anything = record { ilike = λ text q. true; by_likes = λ a b. true; by_followers = λ a b. true }

abbrev js : Js
js = record {
  trim = λ s. s;
  lower = λ s. s;
  show = λ n. "2";
  slug_chars = λ s. s;
  parse_url = λ s. none;
  length = λ s. if str_eq s "but" then 3 else 0;
  squeeze = λ s. s;
  starts_with = λ s t. false;
  left = λ n s. s;
}

search_all-IsAnswer_example :
    Post
      (λ f _. IsAnswer deployment js anything (pos 80) f)
      (search_all deployment js anything "but" (pos 80) start)
    × (returned (search_all deployment js anything "but" (pos 80) start).0
        ≡ not (ltb (js.length (js.trim "but")) 2 || ltb 60 (js.length (js.trim "but"))))
search_all-IsAnswer_example = search_all-IsAnswer deployment js anything "but" (pos 80) start

abbrev pages : Json (List Component)
pages = record { stringify = λ cs. "page"; parse = λ s. some (button ∷ []) }

-- User 2, the author of the component, has blocked user 1.
abbrev apart : World
apart = record start {
  db = record tables {
    blocks = record { id = 7; blocker_id = 2; blocked_id = 1; reason = none; created_at = 0 } ∷ [];
  };
}

abbrev first_come : Component → Component → Bool
first_come c d = true

guest_page : (trending deployment pages first_come first_come 20 none apart).0 ≡ ok (button ∷ [])
unfolding trending shown_to load_trending wrap get serve keep set deployment redis_in_memory
    find_page find sort place take
guest_page = refl

trending-filter_example :
    (trending deployment pages first_come first_come 20 (some 1) apart).0
    ≡ ok (filter (is_shown 1 apart.db) (button ∷ []))
trending-filter_example =
    trending-filter deployment pages first_come first_come 20 1 (button ∷ []) apart guest_page

-- The only component is hidden from user 1.
hidden : filter (is_shown 1 apart.db) (button ∷ []) ≡ []
unfolding filter count
hidden = refl
