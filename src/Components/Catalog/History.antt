-- ===== src/Components/Catalog/History.antt =====
-- The life of components: made, forked, drafted, changed, published, removed by their authors and
-- taken down by moderators.
use componi_back_nest.Prelude.{Bool, String, List, [], ◌∷◌, Option}
use componi_back_nest.Entities.Accounts.{Uuid}
use componi_back_nest.Entities.Content.{Tag}
use componi_back_nest.Platform.Js.{Js, Embedder}
use componi_back_nest.Audit.{AuditContext}
use componi_back_nest.Admin.Content.{delete_component}
use componi_back_nest.Exec.{Platform, World}
use componi_back_nest.Components.{CreateComponentDto, ForkComponentDto, MetadataDto, SaveDraftDto}
use componi_back_nest.Components.Create.{create, fork}
use componi_back_nest.Components.Owner.{save_draft, publish, update, remove, set_thumbnail}
use componi_back_nest.Components.Catalog.{IsCatalog}
use componi_back_nest.Components.Catalog.Entering.{create-IsCatalog, fork-IsCatalog}
use componi_back_nest.Components.Catalog.Handlers.{
  save_draft-IsCatalog, publish-IsCatalog, update-IsCatalog, remove-IsCatalog,
  set_thumbnail-IsCatalog, delete_component-IsCatalog,
}

-- A request to the service: the user comes first, then the component.
pub data ComponentRequest : Type 0 where
  creates : Uuid → CreateComponentDto → ComponentRequest
  forks : Uuid → Uuid → ForkComponentDto → ComponentRequest
  saves : Uuid → Uuid → SaveDraftDto → ComponentRequest
  publishes : Uuid → Uuid → ComponentRequest
  updates : Uuid → Uuid → MetadataDto → ComponentRequest
  illustrates : Uuid → Uuid → String → ComponentRequest
  removes : Uuid → Uuid → ComponentRequest
  -- AdminContentService.deleteComponent.
  takes_down : AuditContext → Uuid → String → Option Uuid → ComponentRequest

module _ (p : Platform) (js : Js) (trim : String → String) (e : Embedder)
    (by_slug : Tag → Tag → Bool) where
  -- The world after a request, whether it returned or threw.
  unfoldable pub serve : ComponentRequest → World → World
  serve (creates user dto) w = (create p js e by_slug user dto w).1
  serve (forks user id dto) w = (fork p js e by_slug id user dto w).1
  serve (saves user id dto) w = (save_draft p js id user dto w).1
  serve (publishes user id) w = (publish p js e by_slug id user w).1
  serve (updates user id dto) w = (update p js e by_slug id user dto w).1
  serve (illustrates user id url) w = (set_thumbnail p js id user url w).1
  serve (removes user id) w = (remove p js id user w).1
  serve (takes_down ctx id reason report) w = (delete_component p trim ctx id reason report w).1

  unfoldable pub serve_all : List ComponentRequest → World → World
  serve_all [] w = w
  serve_all (r ∷ rest) w = serve_all rest (serve r w)

  serve-IsCatalog : (r : ComponentRequest) (w : World) → IsCatalog w.db → IsCatalog (serve r w).db
  unfolding serve
  serve-IsCatalog (creates user dto) w h = create-IsCatalog p js e by_slug user dto w h
  serve-IsCatalog (forks user id dto) w h = fork-IsCatalog p js e by_slug id user dto w h
  serve-IsCatalog (saves user id dto) w h = save_draft-IsCatalog p js id user w h dto
  serve-IsCatalog (publishes user id) w h = publish-IsCatalog p js e by_slug id user w h
  serve-IsCatalog (updates user id dto) w h = update-IsCatalog p js e by_slug id user w h dto
  serve-IsCatalog (illustrates user id url) w h = set_thumbnail-IsCatalog p js id user w h url
  serve-IsCatalog (removes user id) w h = remove-IsCatalog p js id user w h
  serve-IsCatalog (takes_down ctx id reason report) w h =
      delete_component-IsCatalog p trim ctx id reason report w h

  -- If components have different ids, the live ones of each author have different slugs, and every
  -- `componentsCount` is the number of the user's components that are not deleted, then this is so
  -- after any sequence of requests that create, fork, save drafts of, publish, update, illustrate
  -- and remove components or take them down, whether each succeeds or throws. So the slug that a renamed component is
  -- saved with never clashes with another one of its author.
  pub serve_all-IsCatalog :
      (list : List ComponentRequest) (w : World) → IsCatalog w.db → IsCatalog (serve_all list w).db
  unfolding serve_all
  serve_all-IsCatalog [] w h = h
  serve_all-IsCatalog (r ∷ rest) w h = serve_all-IsCatalog rest (serve r w) (serve-IsCatalog r w h)
