-- ===== src/Examples/Start.antt =====
-- The world in which the examples begin.
use componi_back_nest.Prelude.{pos, String, true, false, none, [], ◌∷◌}
use componi_back_nest.Entities.Accounts.{Uuid, User, UserRole}
use componi_back_nest.Entities.Content.{Component, ComponentFramework}
use componi_back_nest.Database.{Db}
use componi_back_nest.Platform.Redis.{Keyspace}
use componi_back_nest.Messages.{CacheName}
use componi_back_nest.Exec.{World}

abbrev pub person : Uuid → UserRole → User
person id role = record {
  id = id;
  email = "user@componi.dev";
  username = "user";
  github_username = none;
  display_name = none;
  avatar_url = none;
  bio = none;
  website_url = none;
  followers_count = pos 0;
  following_count = pos 0;
  components_count = pos 0;
  role = role;
  suspended_until = none;
  suspension_reason = none;
  privacy_accepted_at = none;
  privacy_accepted_version = none;
  terms_accepted_at = none;
  terms_accepted_version = none;
  created_at = 0;
  updated_at = 0;
  deleted_at = none;
}

abbrev pub button : Component
button = record {
  id = 10;
  author_id = 2;
  slug = "button";
  name = "Button";
  description = none;
  framework = ComponentFramework.react;
  category = none;
  thumbnail_url = none;
  is_public = true;
  is_draft = false;
  current_version_id = none;
  forked_from_id = none;
  forks_count = pos 0;
  likes_count = pos 0;
  favorites_count = pos 0;
  comments_count = pos 0;
  views_count = pos 0;
  shares_count = pos 0;
  embedding = none;
  embedding_generated_at = none;
  created_at = 0;
  updated_at = 0;
  deleted_at = none;
}

-- User 1 is an admin, and user 2 the author of component 10.
abbrev pub tables : Db
tables = record {
  users = person 1 UserRole.admin ∷ person 2 UserRole.user ∷ [];
  follows = [];
  components = button ∷ [];
  versions = [];
  likes = [];
  favorites = [];
  comments = [];
  collections = [];
  collection_components = [];
  blocks = [];
  mutes = [];
  reports = [];
  tags = [];
  component_tags = [];
  shares = [];
}

abbrev pub no_keys : Keyspace CacheName
no_keys = record { strings = λ x. none; sets = λ x. none }

abbrev pub start : World
start = record {
  db = tables;
  aborted = false;
  notifications = [];
  audit_logs = [];
  jobs = [];
  emitted = [];
  redis = no_keys;
  clock = 1000000;
  uuids = λ n. n;
  drawn = 100;
}

abbrev pub same_text : String → String
same_text s = s
