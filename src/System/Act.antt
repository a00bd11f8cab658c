-- ===== src/System/Act.antt =====
-- Go code that may call the outside: it reads the environment and threads the world.
use tark.Common.{ℕ, suc, String, Option, none, some, List, ◌∷◌, Error, Result, ok, err, take}
use tark.Models.{Time}
use tark.Store.{Database}
use tark.Queue.{Task, EnqueueOptions}
use tark.Kube.Objects.{KubeKind, KubeObject}
use tark.System.Env.{Env, Url}

-- What was asked of the outside, apart from the database.
pub data Event : Type 0 where
  redis_del : List String → Event
  redis_set : String → String → ℕ → Event
  redis_get redis_incr : String → Event
  redis_ping : Event
  enqueue : Task → EnqueueOptions → Event
  kube_get kube_delete : KubeKind → String → String → Event
  kube_create : KubeObject → Event
  stack_up stack_destroy : String → Event
  ssh_output : String → String → Event
  dial : String → Event
  sleep : ℕ → Event

-- A reverse proxy to one URL, as the API server keeps it.
pub record ReverseProxy : Type 0 where
  pub url : Url

-- The API server's table `proxyByTarget`, the newest entry first.
abbrev pub ProxyTable : Type 0
ProxyTable = List (String × ReverseProxy)

-- `moment` counts the calls so far; `trace` is the events, the latest first.
pub record World : Type 0 where
  pub db : Database
  pub trace : List Event
  pub proxies : ProxyTable
  pub moment : ℕ

abbrev pub Act : Type 0 → Type 0
Act A = Env → World → A × World

module _ {A B : Type 0} where
  infixl 5 ◌>>=◌ ◌>>◌
  unfoldable pub ◌>>=◌ : Act A → (A → Act B) → Act B
  ◌>>=◌ m f e w = let (a, w') = m e w in f a e w'

  unfoldable pub ◌>>◌ : Act A → Act B → Act B
  ◌>>◌ m n e w = n e (m e w).1

module _ {A : Type 0} where
  unfoldable pub pure : A → Act A
  pure a e w = (a, w)

  -- A function of the outside with no effect and always the same answer.
  unfoldable pub asks : (Env → A) → Act A
  asks f e w = (f e, w)

  -- A call of the outside: the answer is the environment's at this moment.
  unfoldable pub call : (Env → ℕ → A) → Act A
  call f e w = (f e w.moment, record w { moment = suc w.moment })

  -- The same, with the event on record.
  unfoldable pub request : Event → (Env → ℕ → A) → Act A
  request ev f e w = (f e w.moment, record w { moment = suc w.moment; trace = ev ∷ w.trace })

-- A critical section on the table of proxies.
unfoldable pub section : {A : Type 0} → (ProxyTable → A × ProxyTable) → Act A
section f e w = let (a, table) = f w.proxies in (a, record w { proxies = table })

-- A call that returns only an error, nil where there is none.
abbrev pub from_fault : Option Error → Result (Unit {0})
from_fault none = ok tt
from_fault (some x) = err x

-- `x, err := m; if err != nil { fail }; k`
module _ {A B : Type 0} where
  unfoldable pub branch : Result A → (Error → Act B) → (A → Act B) → Act B
  branch (ok a) fail k = k a
  branch (err x) fail k = fail x

  unfoldable pub check : Act (Result A) → (Error → Act B) → (A → Act B) → Act B
  unfolding branch ◌>>=◌
  check m fail k = m >>= λ r. branch r fail k

-- A statement that changes the tables: it fails with the connection, or is refused by the server,
-- and then changes nothing.
unfoldable pub commit : World → Result Database → Result (Unit {0}) × World
commit w (ok db) = (ok tt, record w { db = db; moment = suc w.moment })
commit w (err x) = (err x, record w { moment = suc w.moment })

unfoldable pub attempt {ℓ} : {A : Type ℓ} → Option Error → Result A → Result A
attempt none r = r
attempt (some x) r = err x

unfoldable pub first_error : Option Error → Option Error → Option Error
first_error none fault = fault
first_error (some x) fault = some x

-- Why a statement cannot be made: pgx refuses it under a context that has ended.
unfoldable pub store_fault : Env → ℕ → Option Error
unfolding first_error
store_fault e n = first_error (e.cancelled n) (e.db_fault n)

unfoldable pub exec : (Env → Time → Database → Result Database) → Act (Result (Unit {0}))
unfolding commit attempt store_fault
exec statement e w = commit w (attempt (store_fault e w.moment) (statement e (e.now w.moment) w.db))

-- A statement that reads.
unfoldable pub query : {A : Type 0} → (Database → Result A) → Act (Result A)
unfolding attempt store_fault
query read e w = (attempt (store_fault e w.moment) (read w.db), record w { moment = suc w.moment })

unfoldable pub cut : {A : Type 0} → Option ℕ → List A → List A
cut none rows = rows
cut (some n) rows = take n rows

-- A statement that lists rows, where the caller does not look at `rows.Err`: if the connection breaks off, the
-- rows so far are the answer.
unfoldable pub query_rows : {A : Type 0} → (Database → List A) → Act (Result (List A))
unfolding attempt store_fault cut
query_rows read e w = (
  attempt (store_fault e w.moment) (ok (cut (e.rows_cut w.moment) (read w.db))),
  record w { moment = suc w.moment },
)
