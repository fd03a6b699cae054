-- ===== src/Examples/Shop.antt =====
-- Components, collections and accounts.
use componi_back_nest.Prelude.{
  ◌≡◌, ◌<◌, ◌≤◌, ◌+◌, bit, ◌&&◌, is_none, refl, pos, ℕ, Bool, true, false, none, some, List, [],
  ◌∷◌, ◌==◌, arith, count, is_nat, if◌then◌else◌,
}
use componi_back_nest.Entities.Accounts.{UserRole}
use componi_back_nest.Entities.Content.{Component, ComponentFramework, Tag}
use componi_back_nest.Platform.Js.{Js, Embedder}
use componi_back_nest.Cache.{Json}
use componi_back_nest.Audit.{AuditContext}
use componi_back_nest.Components.{CreateComponentDto, MetadataDto, has_slug}
use componi_back_nest.Components.Slugs.{slugify}
use componi_back_nest.Components.Create.{create}
use componi_back_nest.Components.Create.Clash.{create_clash}
use componi_back_nest.Components.Catalog.{IsCatalog}
use componi_back_nest.Components.Catalog.History.{
  ComponentRequest, creates, forks, updates, publishes, removes, serve_all, serve_all-IsCatalog,
}
use componi_back_nest.Components.View.{find_by_id}
use componi_back_nest.Components.View.Visible.{IsPublicCache, Seen, find_by_id-Seen}
use componi_back_nest.Accounts.Privacy.{delete_account, notifications_of}
use componi_back_nest.Accounts.Privacy.Erased.{IsErased, delete_account-IsErased}
use componi_back_nest.Exec.{World, err, query_failed, in_failed_sql_transaction}
use componi_back_nest.Exec.Outcomes.{Post}
use componi_back_nest.Instances.Tables.{find_one}
use componi_back_nest.Instances.Deployment.{deployment}
use componi_back_nest.Examples.Start.{start, tables, person, button}

-- Texts that are their own slugs.
abbrev js : Js
js = record {
  trim = λ s. s;
  lower = λ s. s;
  show = λ n. if n == 2 then "2" else "10";
  slug_chars = λ s. s;
  parse_url = λ s. none;
  length = λ s. 3;
  squeeze = λ s. s;
  starts_with = λ s t. false;
  left = λ n s. s;
}

-- A provider that is down.
abbrev embedder : Embedder
embedder = record {
  Float = ℕ;
  embed_passage = λ s. none;
  embed_query = λ s. none;
  to_fixed = λ n. "0";
}

abbrev in_any_order : Tag → Tag → Bool
in_any_order s t = true

-- User 2 has the component `button`.
abbrev shop : World
shop = record start {
  db = record tables {
    users =
        person 1 UserRole.admin ∷ record (person 2 UserRole.user) { components_count = pos 1 } ∷ [];
  };
}

abbrev another_button : CreateComponentDto
another_button = record {
  name = "button";
  description = none;
  framework = ComponentFramework.vue;
  category = none;
  code = "<button/>";
  dependencies = none;
  is_public = none;
  tag_slugs = some ("ui" ∷ []);
  is_draft = some true;
}

clashing : 0 < count (has_slug 2 (slugify js "button")) shop.db.components
unfolding has_slug slugify count
clashing = omega arith

create_clash_example :
    ((create deployment js embedder in_any_order 2 another_button shop).0
      ≡ err (query_failed in_failed_sql_transaction))
    × ((create deployment js embedder in_any_order 2 another_button shop).1.db ≡ shop.db)
create_clash_example =
    create_clash deployment js embedder in_any_order 2 another_button shop clashing

one_bit : (b : Bool) → bit b + 0 ≤ 1
one_bit true = omega arith
one_bit false = omega arith

shop-IsCatalog : IsCatalog shop.db
unfolding count is_nat has_slug
shop-IsCatalog = record {
  key = λ id. one_bit (10 == id);
  slugs = λ a s. one_bit (has_slug a s button);
  counted = refl;
}

-- User 1 makes a draft and publishes it, user 2 renames the button, and removes it.
abbrev renamed : MetadataDto
renamed = record {
  name = some "knob";
  description = some none;
  framework = none;
  category = none;
  is_public = some false;
}

abbrev requests : List ComponentRequest
requests =
    creates 1 another_button
    ∷ publishes 1 100
    ∷ forks 1 10 (record { name = none; is_public = none })
    ∷ updates 2 10 renamed
    ∷ removes 2 10
    ∷ []

serve_all-IsCatalog_example :
    IsCatalog (serve_all deployment js js.trim embedder in_any_order requests shop).db
serve_all-IsCatalog_example =
    serve_all-IsCatalog deployment js js.trim embedder in_any_order requests shop shop-IsCatalog

abbrev buttons : Json Component
buttons = record { stringify = λ c. "button"; parse = λ s. some button }

no_copies : IsPublicCache deployment buttons shop
no_copies id raw c there parsed = ground (arith, there)

parsed_back :
    (c : Component)
    → find_one (λ (r : Component). r.id == 10 && is_none r.deleted_at) shop.db.components ≡ some c
    → some button ≡ some c
unfolding find_one
parsed_back c e = e

find_by_id-Seen_example :
    Post (Seen deployment buttons (some 1)) (find_by_id deployment buttons 10 (some 1) shop)
    × IsPublicCache deployment buttons (find_by_id deployment buttons 10 (some 1) shop).1
unfolding deployment
find_by_id-Seen_example = find_by_id-Seen deployment buttons 10 (some 1) shop parsed_back no_copies

abbrev user_2 : AuditContext
user_2 = record { actor_id = 2; ip_address = none; user_agent = none }

delete_account-IsErased_example :
    Post
      (λ _ v.
        IsErased deployment.orm js (λ s. s) 2 shop.db v.db
        × (count (notifications_of 2) v.notifications ≡ 0))
      (delete_account deployment js (λ s. s) user_2 shop)
delete_account-IsErased_example = delete_account-IsErased deployment js (λ s. s) user_2 shop
