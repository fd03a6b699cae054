-- ===== src/Components/Tagging.antt =====
-- attachTags and replaceTags.
use mathlib.Core.Option
use text.Mathlib.Text.{◌==◌ as str_eq}
use componi_back_nest.Prelude.{
  pos, inc, String, Bool, true, false, ◌&&◌, ◌||◌, Option, none, some, List, [], ◌∷◌, ◌++◌, ◌==◌,
  if◌then◌else◌, length,
}
use componi_back_nest.Entities.Accounts.{Uuid, Date}
use componi_back_nest.Entities.Content.{Tag, ComponentTag}
use componi_back_nest.Platform.Js.{Js}
use componi_back_nest.Platform.Orm.{Orm}
use componi_back_nest.Database.{Db}
use componi_back_nest.Exec.{
  Exec, Platform, pure, now, new_uuid, trx_read, trx_write, trx_insert, if_new, transaction, ◌>>=◌,
  ◌>>◌,
}

unfoldable pub contains : String → List String → Bool
contains s [] = false
contains s (t ∷ rest) = str_eq t s || contains s rest

-- Array.from(new Set(slugs.map(lower, trim).filter(Boolean))), after the slugs that were seen.
unfoldable pub normalized_after : Js → List String → List String → List String
unfolding contains
normalized_after js seen [] = []
normalized_after js seen (s ∷ rest) =
    let t = js.trim (js.lower s) in
    elim (str_eq t "" || contains t seen) [
      | true ↦ normalized_after js seen rest
      | false ↦ t ∷ normalized_after js (t ∷ seen) rest
    ]

unfoldable pub normalized : Js → List String → List String
normalized js slugs = normalized_after js [] slugs

unfoldable pub new_tag : String → Uuid → Date → Tag
new_tag s id at = record { id = id; slug = s; name = s; usage_count = pos 0; created_at = at }

unfoldable pub holds_slug : List String → Tag → Bool
holds_slug slugs t = contains t.slug slugs

-- normalized.filter((s) => !existingSlugs.has(s))
unfoldable pub missing : List Tag → List String → List String
missing existing [] = []
missing existing (s ∷ rest) =
    let others = missing existing rest in if has_tag s existing then others else s ∷ others
  where
    has_tag : String → List Tag → Bool
    has_tag s [] = false
    has_tag s (t ∷ ts) = str_eq t.slug s || has_tag s ts

unfoldable pub one_of : List Tag → Tag → Bool
one_of [] t = false
one_of (x ∷ xs) t = x.id == t.id || one_of xs t

abbrev pub usage_inc : Tag → Tag
usage_inc t = record t { usage_count = inc t.usage_count }

abbrev pub tagged : Uuid → Uuid → ComponentTag → Bool
tagged component tag r = r.component_id == component && r.tag_id == tag

module _ (o : Orm) where
  unfoldable pub insert_tag : Tag → Db → Option Db
  insert_tag t d =
      Option.map (λ rows. record d { tags = rows }) (o.insert (λ r. str_eq r.slug t.slug) t d.tags)

  -- insert([...]) is one statement: the first row that clashes fails it.
  unfoldable pub insert_links :
      Uuid → Date → List Tag → List ComponentTag → Option (List ComponentTag)
  insert_links component at [] rows = some rows
  insert_links component at (t ∷ ts) rows =
      elim (o.insert (tagged component t.id)
        (record { component_id = component; tag_id = t.id; created_at = at }) rows) [
          | none ↦ none
          | some more ↦ insert_links component at ts more
        ]

module _ (p : Platform) (js : Js) where
  unfoldable pub create_tags : List String → Exec (List Tag)
  create_tags [] = pure []
  create_tags (s ∷ rest) = do
    id ← new_uuid
    at ← now
    trx_insert (insert_tag p.orm (new_tag s id at))
    others ← create_tags rest
    pure (new_tag s id at ∷ others)

  unfoldable pub link_tags : Uuid → List Tag → Exec Unit
  link_tags component all = do
    at ← now
    _ ← if_new (
        trx_insert (λ d.
          Option.map (λ rows. record d { component_tags = rows })
            (insert_links p.orm component at all d.component_tags)))
    trx_write (λ d. record d { tags = p.orm.update (one_of all) usage_inc d.tags })

  unfoldable pub attach_tags : Uuid → List String → Exec Unit
  unfolding create_tags link_tags new_tag
  attach_tags component slugs =
      let wanted = normalized js slugs in
      if length wanted == 0 then pure tt else do
        existing ← trx_read (λ d. p.orm.find (holds_slug wanted) d.tags)
        created ← create_tags (missing existing wanted)
        link_tags component (existing ++ created)

  unfoldable pub replace_trx : Uuid → List String → Exec Unit
  replace_trx component slugs = do
    trx_write (λ d. record d {
      component_tags = p.orm.delete (λ r. r.component_id == component) d.component_tags;
    })
    if length slugs == 0 then pure tt else attach_tags component slugs

  unfoldable pub replace_tags : Uuid → List String → Exec Unit
  replace_tags component slugs = transaction p.orm (replace_trx component slugs)
