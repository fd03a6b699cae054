-- ===== src/Platform/Js.antt =====
-- The functions on texts of JavaScript and of SQL that the services call, and the provider of
-- embeddings.
use componi_back_nest.Prelude.{ℕ, Bool, String, Option, List}

pub record Js : Type 0 where
  pub trim : String → String
  pub lower : String → String
  -- A number in a template string.
  pub show : ℕ → String
  -- The chain of `slugify` from toLowerCase to slice(0, 80).
  pub slug_chars : String → String
  pub parse_url : String → Option (String × String)
  -- The number of UTF-16 units of a text.
  pub length : String → ℕ
  -- replace(/\s+/g, ' ')
  pub squeeze : String → String
  pub starts_with : String → String → Bool
  -- LEFT(text, n) of Postgres.
  pub left : ℕ → String → String

-- The model that computes embeddings, in this process or behind HTTP. `none` is an exception.
pub record Embedder : Type 1 where
  pub Float : Type 0
  pub embed_passage : String → Option (List Float)
  pub embed_query : String → Option (List Float)
  -- toFixed(6)
  pub to_fixed : Float → String
