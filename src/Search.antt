-- ===== src/Search.antt =====
-- src/modules/search: the search by text and the search by the distance of embeddings. ILIKE, the
-- orders of the results, the operator <=> and SHA-256 are parameters.
pub mod Bounds
use mathlib.Core.Option
use componi_back_nest.Prelude.{
  ℕ, ℤ, pos, negsuc, String, Bool, true, false, not, ◌&&◌, ◌||◌, Option, none, some, List, map,
  ◌==◌, ltb, is_none, is_some, or_else, length, if◌then◌else◌, [], ◌∷◌,
}
use componi_back_nest.Entities.Accounts.{Uuid, Date, User}
use componi_back_nest.Entities.Content.{Component, ComponentFramework, Tag}
use componi_back_nest.Platform.Js.{Js, Embedder}
use componi_back_nest.Database.{Db}
use componi_back_nest.Messages.{search_page, search_semantic}
use componi_back_nest.Cache.{Json, wrap}
use componi_back_nest.Embeddings.{embed_query, to_pg_vector}
use componi_back_nest.Moderation.Blocks.{has_id, either_way}
use componi_back_nest.Exec.{
  Exec, Result, ok, err, bad_request, service_unavailable, Platform, World, pure, raise, require,
  present, gets, ◌>>=◌, ◌>>◌,
}

-- MIN_QUERY, MAX_QUERY
abbrev pub min_query : ℕ
min_query = 2

abbrev pub max_query : ℕ
max_query = 60

-- Math.min(Math.max(limit, 1), 50)
unfoldable pub safe_limit : ℤ → ℕ
safe_limit (pos n) = if ltb n 1 then 1 else (if ltb 50 n then 50 else n)
safe_limit (negsuc n) = 1

-- The order and the match of a query in SQL.
pub record Sql : Type 0 where
  -- column ILIKE `%${q}%`
  pub ilike : String → String → Bool
  pub by_likes : Component → Component → Bool
  pub by_followers : User → User → Bool

pub record Found : Type 0 where
  pub components : List Component
  pub users : List User

unfoldable pub like_some : Sql → String → Option String → Bool
like_some s q none = false
like_some s q (some text) = s.ilike text q

module _ (p : Platform) (js : Js) (s : Sql) where
  unfoldable pub matches_component : String → Component → Bool
  unfolding like_some
  matches_component q c =
      c.is_public && (is_none c.deleted_at && (s.ilike c.name q || like_some s q c.description))

  unfoldable pub matches_user : String → User → Bool
  unfolding like_some
  matches_user q u = is_none u.deleted_at && (s.ilike u.username q || like_some s q u.display_name)

  unfoldable pub search_all : String → ℤ → Exec Found
  search_all query limit = do
    require (not (ltb (js.length (js.trim query)) min_query))
        (bad_request "Query must be at least 2 characters")
    require (not (ltb max_query (js.length (js.trim query))))
        (bad_request "Query must be at most 60 characters")
    gets (λ w. record {
      components =
          p.orm.find_page (matches_component (js.trim query)) s.by_likes (safe_limit limit)
            w.db.components;
      users =
          p.orm.find_page (matches_user (js.trim query)) s.by_followers (safe_limit limit)
            w.db.users;
    })

-- A row of the result, but for `distance`, which the order stands for.
pub record SemanticHit : Type 0 where
  pub id : Uuid
  pub slug : String
  pub name : String
  pub description : Option String
  pub framework : ComponentFramework
  pub author_id : Uuid
  pub author_username : Option String
  pub author_display_name : Option String
  pub thumbnail_url : Option String
  pub likes_count : ℤ
  pub created_at : Date

-- LEFT JOIN users
unfoldable pub hit_of : Component → Option User → SemanticHit
hit_of c author = record {
  id = c.id;
  slug = c.slug;
  name = c.name;
  description = c.description;
  framework = c.framework;
  author_id = c.author_id;
  author_username = Option.map (λ (u : User). u.username) author;
  author_display_name = elim author [ none ↦ none | some u ↦ u.display_name ];
  thumbnail_url = c.thumbnail_url;
  likes_count = c.likes_count;
  created_at = c.created_at;
}

-- $2::uuid IS NULL OR NOT EXISTS (SELECT 1 FROM blocks ...)
unfoldable pub unblocked : Platform → Option Uuid → Db → Component → Bool
unblocked p none d c = true
unblocked p (some viewer) d c = is_none (p.orm.find_one (either_way viewer c.author_id) d.blocks)

module _ (p : Platform) (js : Js) (e : Embedder) (by_slug : Tag → Tag → Bool)
    (nearer : String → Component → Component → Bool) (hash : String → String)
    (json : Json (List SemanticHit)) where
  unfoldable pub is_candidate : Option Uuid → Db → Component → Bool
  unfolding unblocked
  is_candidate viewer d c =
      is_none c.deleted_at && (c.is_public && (is_some c.embedding && unblocked p viewer d c))

  unfoldable pub run_query : String → ℕ → Option Uuid → Exec (List SemanticHit)
  unfolding is_candidate hit_of
  run_query query limit viewer = do
    vector ← embed_query p js e by_slug query
    require (length vector == p.config.embedding_dimensions)
        (service_unavailable "Embedding dimension mismatch")
    gets (λ w.
        map (λ (c : Component). hit_of c (p.orm.find_one (has_id c.author_id) w.db.users))
          (p.orm.find_page (is_candidate viewer w.db) (nearer (to_pg_vector e vector)) limit
            w.db.components))

  -- The loader that `search` passes to the cache.
  unfoldable pub load_hits : String → ℕ → Option Uuid → Exec (Option (List SemanticHit))
  load_hits query limit viewer = do hits ← run_query query limit viewer; pure (some hits)

  unfoldable pub search : String → Option ℤ → Option Uuid → Exec (List SemanticHit)
  search raw raw_limit viewer = do
    require p.config.embeddings_enabled
        (service_unavailable "Semantic search is disabled on this deployment")
    let query = js.trim raw
    require (not (ltb (js.length query) 2)) (bad_request "Query must be at least 2 characters")
    require (not (ltb p.config.max_query_chars (js.length query))) (bad_request "Query is too long")
    let limit = safe_limit (or_else raw_limit (pos 20))
    found ←
        wrap p json (search_page viewer (hash query) limit) (load_hits query limit viewer)
          p.config.search_cache_ttl_seconds (search_semantic ∷ [])
    pure (or_else found [])
