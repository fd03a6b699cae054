-- ===== src/Thumbnails.antt =====
-- src/modules/thumbnails/thumbnails.service.ts: the check of an uploaded image. `fetch` is a
-- parameter; the inline check runs on after the request, and its result is only logged.
use componi_back_nest.Prelude.{String, Bool, Option, some, or_else, if◌then◌else◌}
use componi_back_nest.Entities.Accounts.{Uuid}
use componi_back_nest.Platform.Js.{Js}
use componi_back_nest.Messages.{verify, verify_id}
use componi_back_nest.Notifications.{add_job}
use componi_back_nest.Exec.{Exec, failure, Platform, pure, present, require, ◌>>=◌, ◌>>◌}

-- What a HEAD request answers.
pub record Response : Type 0 where
  pub ok : Bool
  pub content_type : Option String

module _ (p : Platform) where
  unfoldable pub enqueue : Uuid → String → Exec Unit
  enqueue component url =
      if p.config.workers_enabled
      then add_job p (record { body = verify component url; job_id = some (verify_id component) })
      else pure tt

-- `verify`: an upload that is no image is an error.
unfoldable pub verify_upload : Js → (String → Option Response) → String → Exec Unit
verify_upload js fetch url = do
  res ← present (fetch url) (failure "fetch")
  require res.ok (failure "HEAD failed")
  require (js.starts_with (js.lower (or_else res.content_type "")) "image/")
      (failure "unexpected content-type")
