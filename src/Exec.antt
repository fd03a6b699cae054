-- ===== src/Exec.antt =====
-- What a request handler works on and how it runs: the state outside the process, the exceptions
-- of @nestjs/common, and handlers as actions that return or throw and change that state.
pub mod Outcomes
pub mod Keeps
use componi_back_nest.Prelude.{
  ℕ, suc, ◌+◌, String, Bool, true, false, ◌≡◌, refl, sym, subst, Option, none, some, List,
  if◌then◌else◌, arith,
}
use componi_back_nest.Entities.Accounts.{Uuid, Date, Notification}
use componi_back_nest.Entities.Moderation.{AuditLog}
use componi_back_nest.Database.{Db}
use componi_back_nest.Platform.Orm.{Orm}
use componi_back_nest.Platform.Redis.{Keyspace, Redis}
use componi_back_nest.Platform.Bull.{Bull}
use componi_back_nest.Messages.{Emit, Job, CacheName, same_name}

-- The SQLSTATE codes of Postgres: 23505, and 25P02 for a statement in a failed transaction.
pub data SqlState : Type 0 where
  unique_violation in_failed_sql_transaction : SqlState

pub data Error : Type 0 where
  bad_request not_found forbidden conflict unauthorized service_unavailable internal :
      String → Error
  -- A QueryFailedError of the driver.
  query_failed : SqlState → Error
  -- Another failure, of a queue or of a client library.
  failure : String → Error

pub data Result (A : Type 0) : Type 0 where
  ok : A → Result A
  err : Error → Result A

-- What the configuration service returns (config/*.config.ts).
pub record Config : Type 0 where
  pub workers_enabled : Bool
  pub realtime_enabled : Bool
  pub max_component_subscriptions : ℕ
  pub default_ttl_seconds : ℕ
  pub privacy_version : String
  pub terms_version : String
  pub embeddings_enabled : Bool
  pub embedding_dimensions : ℕ
  pub max_query_chars : ℕ
  pub search_cache_ttl_seconds : ℕ
  pub feed_ttl_seconds : ℕ
  pub retention_days : ℕ
  pub supabase_url : Option String

-- The platform of a deployment.
pub record Platform : Type 1 where
  pub orm : Orm
  pub redis : Redis CacheName same_name
  pub bull : Bull
  pub config : Config

pub record World : Type 0 where
  pub db : Db
  -- A statement of the transaction that runs has failed.
  pub aborted : Bool
  pub notifications : List Notification
  pub audit_logs : List AuditLog
  pub jobs : List Job
  -- The realtime events so far, the last one first.
  pub emitted : List Emit
  pub redis : Keyspace CacheName
  pub clock : Date
  -- The UUIDs that the database will generate.
  pub uuids : ℕ → Uuid
  pub drawn : ℕ

-- An async method: it returns or throws, and what it changed stays changed.
abbrev pub Exec : Type 0 → Type 0
Exec A = World → Result A × World

module _ {A : Type 0} where
  abbrev pub pure : A → Exec A
  pure a w = (ok a, w)

  abbrev pub raise : Error → Exec A
  raise e w = (err e, w)

  abbrev pub gets : (World → A) → Exec A
  gets f w = (ok (f w), w)

abbrev pub modify : (World → World) → Exec Unit
modify f w = (ok tt, f w)

module _ {A B : Type 0} where
  abbrev pub continue : Result A → (A → Exec B) → Exec B
  continue (ok a) f w = f a w
  continue (err e) f w = (err e, w)

  infixl 10 ◌>>=◌
  abbrev pub ◌>>=◌ : Exec A → (A → Exec B) → Exec B
  ◌>>=◌ m f w = let (r, w') = m w in continue r f w'

module _ {B : Type 0} where
  infixl 10 ◌>>◌
  abbrev pub ◌>>◌ : Exec Unit → Exec B → Exec B
  m >> n = m >>= λ _. n

-- `if (!test) throw`, `if (x == null) throw`.
abbrev pub require : Bool → Error → Exec Unit
require true e w = (ok tt, w)
require false e w = (err e, w)

module _ {A : Type 0} where
  abbrev pub present : Option A → Error → Exec A
  present none e w = (err e, w)
  present (some a) e w = (ok a, w)

  abbrev pub returned : Result A → Bool
  returned (ok a) = true
  returned (err e) = false

-- `new Date()` and NOW().
abbrev pub now : Exec Date
now w = (ok w.clock, w)

-- A UUID that the database generates.
abbrev pub new_uuid : Exec Uuid
new_uuid w = (ok (w.uuids w.drawn), record w { drawn = suc w.drawn })

-- A statement outside a transaction commits by itself.
abbrev pub write : (Db → Db) → Exec Unit
write f w = (ok tt, record w { db = f w.db })

-- In a transaction in which a statement has failed, Postgres refuses every statement until the end
-- of the transaction (25P02).
module _ {A : Type 0} where
  abbrev pub in_trx : Exec A → Exec A
  in_trx m w = if w.aborted then (err (query_failed in_failed_sql_transaction), w) else m w

  -- `find*` in a transaction.
  abbrev pub trx_read : (Db → A) → Exec A
  trx_read f = in_trx (gets (λ w. f w.db))

-- An update or a delete in a transaction.
abbrev pub trx_write : (Db → Db) → Exec Unit
trx_write f = in_trx (write f)

-- An insert in a transaction. A row that clashes fails (23505), and with it the transaction.
abbrev pub trx_insert : (Db → Option Db) → Exec Unit
trx_insert f = in_trx λ w. elim (f w.db) [
  | none ↦ (err (query_failed unique_violation), record w { aborted = true })
  | some d ↦ (ok tt, record w { db = d })
]

-- A delete in a transaction, with its `affected`.
abbrev pub trx_delete : (Db → ℕ) → (Db → Db) → Exec ℕ
trx_delete affected f = in_trx λ w. (ok (affected w.db), record w { db = f w.db })

-- An update in a transaction, with its `affected`.
abbrev pub trx_update : (Db → ℕ) → (Db → Db) → Exec ℕ
trx_update = trx_delete

-- An insert outside a transaction.
abbrev pub insert_alone : (Db → Option Db) → Exec Unit
insert_alone f w = elim (f w.db) [
  | none ↦ (err (query_failed unique_violation), w)
  | some d ↦ (ok tt, record w { db = d })
]

-- `try { await insert } catch (err) { if (err.code === '23505') return; throw err }`: false stands
-- for the early return.
abbrev pub caught : Result Unit × World → Result Bool × World
caught (ok _, w) = (ok true, w)
caught (err (query_failed unique_violation), w) = (ok false, w)
caught (err e, w) = (err e, w)

abbrev pub if_new : Exec Unit → Exec Bool
if_new m w = caught (m w)

-- `dataSource.transaction(cb)`.
module _ {A : Type 0} where
  abbrev pub transaction : Orm → Exec A → Exec A
  transaction o body w =
      let (r, w') = body (record w { aborted = false }) in
      (r, record w' { db = o.settle w.db w'.db (returned r) w'.aborted; aborted = false })

-- What both branches of a test keep, the test keeps.
pub if_keeps :
    {A : Type 0} (P : World → Type 0) (b : Bool) (m n : Exec A) (w : World)
    → P (m w).1
    → P (n w).1
    → P ((if b then m else n) w).1
if_keeps P true m n w h k = h
if_keeps P false m n w h k = k

-- The same state some milliseconds later.
abbrev pub wait : ℕ → World → World
wait ms w = record w { clock = w.clock + ms }

settle_keeps :
    (o : Orm) (P : Db → Type 0) (begun work : Db) (done aborted : Bool)
    → P begun
    → (done ≡ true → aborted ≡ false → P work)
    → P (o.settle begun work done aborted)
settle_keeps o P begun work true false h k = rw (o.settle_commit begun work) (k refl refl)
settle_keeps o P begun work true true h k = rw (o.settle_aborted begun work true) h
settle_keeps o P begun work false b h k = rw (o.settle_rollback begun work b) h

-- After a transaction the database is what the callback left, if it returned and no statement had
-- failed, and else what it was.
pub transaction_db :
    (o : Orm) {A : Type 0} (P : Db → Type 0) (body : Exec A) (w : World)
    → P w.db
    → (returned (body (record w { aborted = false })).0 ≡ true
        → (body (record w { aborted = false })).1.aborted ≡ false
        → P (body (record w { aborted = false })).1.db)
    → P (transaction o body w).1.db
transaction_db o P body w = settle_keeps o P w.db _ _ _

continue_keeps :
    {A B : Type 0} (P : World → Type 0) (r : Result A) (f : A → Exec B) (w : World)
    → P w
    → ((a : A) → P (f a w).1)
    → P (continue r f w).1
continue_keeps P (ok a) f w h k = k a
continue_keeps P (err e) f w h k = h

-- An action that begins by reading: what holds now and after every continuation.
pub bind_reads :
    {A B : Type 0} (P : World → Type 0) (m : Exec A) (f : A → Exec B) (w : World)
    → (m w).1 ≡ w
    → P w
    → ((a : A) → P (f a w).1)
    → P ((m >>= f) w).1
bind_reads P m f w e h k =
    subst (λ v. P (continue (m w).0 f v).1) (sym e) (continue_keeps P (m w).0 f w h k)

-- What comes after an action, whether it threw or not.
pub bind_keeps :
    {A B : Type 0} (P : World → Type 0) (m : Exec A) (f : A → Exec B) (w : World)
    → P (m w).1
    → ((a : A) (v : World) → P v → P (f a v).1)
    → P ((m >>= f) w).1
bind_keeps P m f w h k = continue_keeps P (m w).0 f (m w).1 h (λ a. k a (m w).1 h)

-- A test that throws or lets the rest run.
pub require_keeps :
    {B : Type 0} (P : World → Type 0) (t : Bool) (e : Error) (m : Exec B) (w : World)
    → P w
    → P (m w).1
    → P ((require t e >> m) w).1
require_keeps P true e m w h k = k
require_keeps P false e m w h k = h

-- A handler that returns has passed its first test.
pub require_ok :
    {B : Type 0} (t : Bool) (e : Error) (m : Exec B) (w : World) {b : B}
    → ((require t e >> m) w).0 ≡ ok b
    → (t ≡ true) × ((m w).0 ≡ ok b)
require_ok true e m w h = (refl, h)
require_ok false e m w h = ground arith

pub returned_ok : (r : Result Unit) → returned r ≡ true → r ≡ ok tt
returned_ok (ok u) h = refl
returned_ok (err e) h = ground arith
