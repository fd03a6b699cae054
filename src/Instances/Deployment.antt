-- ===== src/Instances/Deployment.antt =====
-- A BullMQ in memory, and a deployment.
use componi_back_nest.Prelude.{
  ◌+◌, ◌<◌, ◌≡◌, sym, ap, Bool, true, false, Option, none, some, List, [], ◌∷◌, count, bit, arith,
  ltb, if◌then◌else◌, or_else,
}
use componi_back_nest.Messages.{Job, JobId}
use componi_back_nest.Platform.Bull.{Bull, has_job_id}
use componi_back_nest.Exec.{Config, Platform}
use componi_back_nest.Instances.Tables.{memory}
use componi_back_nest.Instances.Keys.{redis_in_memory}

unfoldable pub add : Job → List Job → Option (List Job)
add j js = elim j.job_id [
  | none ↦ some (j ∷ js)
  | some id ↦ if ltb 0 (count (λ i. has_job_id id i.job_id) js) then some js else some (j ∷ js)
]

pub added_plain :
    (j : Job) (js js' : List Job) (q : Job → Bool)
    → j.job_id ≡ none
    → add j js ≡ some js'
    → count q js' ≡ bit (q j) + count q js
unfolding add count
added_plain j js js' q e done = ap (λ o. count q (or_else o [])) (sym (rw (e, add) at done))

pub added_new :
    (j : Job) (id : JobId) (js js' : List Job) (q : Job → Bool)
    → j.job_id ≡ some id
    → count (λ i. has_job_id id i.job_id) js ≡ 0
    → add j js ≡ some js'
    → count q js' ≡ bit (q j) + count q js
unfolding add count
added_new j id js js' q e free done =
    ap (λ o. count q (or_else o [])) (sym (rw (e, add, free) at done))

pub held :
    (j : Job) (id : JobId) (js js' : List Job)
    → j.job_id ≡ some id
    → 0 < count (λ i. has_job_id id i.job_id) js
    → add j js ≡ some js'
    → js' ≡ js
unfolding add
held j id js js' e there done =
    let found : ltb 0 (count (λ i. has_job_id id i.job_id) js) ≡ true = ground (arith, there) in
    ap (λ o. or_else o []) (sym (rw (e, add, found) at done))

unfoldable pub bull_in_memory : Bull
bull_in_memory = record { add = add; add_plain = added_plain; add_new = added_new; add_held = held }

-- A development deployment: jobs run inline, at most two subscriptions.
abbrev pub inline : Config
inline = record {
  workers_enabled = false;
  realtime_enabled = true;
  max_component_subscriptions = 2;
  default_ttl_seconds = 60;
  privacy_version = "2";
  terms_version = "1";
  embeddings_enabled = true;
  embedding_dimensions = 2;
  max_query_chars = 200;
  search_cache_ttl_seconds = 300;
  feed_ttl_seconds = 30;
  retention_days = 30;
  supabase_url = some "https://componi.supabase.co";
}

unfoldable pub deployment : Platform
deployment = record {
  orm = memory;
  redis = redis_in_memory;
  bull = bull_in_memory;
  config = inline;
}
