-- ===== src/Platform/Bull.antt =====
-- BullMQ's `queue.add`: a job with the id of one that the queue still holds, waiting or kept after
-- its completion, is ignored.
use componi_back_nest.Prelude.{
  ◌+◌, ◌<◌, ◌≡◌, Bool, Option, none, some, List, count, bit, ◌==◌, false, ◌&&◌,
}
use componi_back_nest.Messages.{Job, JobId, notify_id, embed_id, verify_id, same_dedupe_key}
use componi_back_nest.Entities.Accounts.{same_type}

abbrev pub same_job_id : JobId → JobId → Bool
same_job_id (notify_id s u d) (notify_id t v e) = same_type s t && u == v && same_dedupe_key d e
same_job_id (embed_id a) (embed_id b) = a == b
same_job_id (verify_id a) (verify_id b) = a == b
same_job_id _ _ = false

abbrev pub has_job_id : JobId → Option JobId → Bool
has_job_id id none = false
has_job_id id (some j) = same_job_id j id

-- `none` is an error of the connection.
pub record Bull : Type 0 where
  pub add : Job → List Job → Option (List Job)
  pub add_plain :
      (j : Job) (js js' : List Job) (q : Job → Bool)
      → j.job_id ≡ none
      → add j js ≡ some js'
      → count q js' ≡ bit (q j) + count q js
  pub add_new :
      (j : Job) (id : JobId) (js js' : List Job) (q : Job → Bool)
      → j.job_id ≡ some id
      → count (λ i. has_job_id id i.job_id) js ≡ 0
      → add j js ≡ some js'
      → count q js' ≡ bit (q j) + count q js
  pub add_held :
      (j : Job) (id : JobId) (js js' : List Job)
      → j.job_id ≡ some id
      → 0 < count (λ i. has_job_id id i.job_id) js
      → add j js ≡ some js'
      → js' ≡ js
