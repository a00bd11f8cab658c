-- ===== src/Http/Ready/Reports.antt =====
-- What handleReadyz answers, in every order of its pings and of their answers.
use tark.Common.{
  ℕ, suc, Option, none, some, List, [], ◌∷◌, Bool, true, false, not, ◌&&◌, Error, if◌then◌else◌,
  ◌≡◌, refl,
}
use tark.Http.Ready.{
  Backends, Schedule, Check, ReadyResponse, find_error, put_error, check_postgres, check_redis,
  run_checks, arrivals, expected_checks, note_error, receive, ready_response, respond_ready,
  handle_readyz,
}
use tark.System.Env.{Env}
use tark.System.Act.{World, ◌>>=◌, pure, call, request}

-- The moment of each ping.
pub postgres_moment : Backends → Schedule → ℕ → ℕ
postgres_moment b s n = if b.has_cache && s.redis_first then suc n else n

pub redis_moment : Backends → Schedule → ℕ → ℕ
redis_moment b s n = if b.has_store && not s.redis_first then suc n else n

-- The error of a service that there is.
abbrev pub if_there : Bool → Option Error → Option Error
if_there true x = x
if_there false x = none

abbrev pub is_none : Option Error → Bool
is_none none = true
is_none (some x) = false

-- The answer is 200 and "ready" where no service has an error, else 503 and "not_ready", and it has each service's error and no other.
pub record Reports (postgres redis : Option Error) (r : ReadyResponse) : Type 0 where
  pub code : r.code ≡ (if is_none postgres && is_none redis then 200 else 503)
  pub status : r.status ≡ (if is_none postgres && is_none redis then "ready" else "not_ready")
  pub of_postgres : find_error "postgres" r.errors ≡ postgres
  pub of_redis : find_error "redis" r.errors ≡ redis

-- What is answered to the arriving checks, where `x` and `y` are the errors of the services there are.
abbrev Answered : ℕ → List Check → Option Error → Option Error → Type 0
Answered expected arriving x y =
    (r : ReadyResponse) × (respond_ready (receive expected arriving []) ≡ some r) × Reports x y r

abbrev from_postgres : Option Error → Check
from_postgres x = record { service = "postgres"; error = x }

abbrev from_redis : Option Error → Check
from_redis y = record { service = "redis"; error = y }

postgres_alone : (x : Option Error) → Answered 1 (from_postgres x ∷ []) x none
unfolding receive respond_ready ready_response note_error put_error
postgres_alone none =
    (_, refl, record { code = refl; status = refl; of_postgres = refl; of_redis = refl })
postgres_alone (some x) =
    (_, refl, record { code = refl; status = refl; of_postgres = refl; of_redis = refl })

redis_alone : (y : Option Error) → Answered 1 (from_redis y ∷ []) none y
unfolding receive respond_ready ready_response note_error put_error
redis_alone none =
    (_, refl, record { code = refl; status = refl; of_postgres = refl; of_redis = refl })
redis_alone (some y) =
    (_, refl, record { code = refl; status = refl; of_postgres = refl; of_redis = refl })

postgres_before : (x y : Option Error) → Answered 2 (from_postgres x ∷ from_redis y ∷ []) x y
unfolding receive respond_ready ready_response note_error put_error
postgres_before none none =
    (_, refl, record { code = refl; status = refl; of_postgres = refl; of_redis = refl })
postgres_before none (some y) =
    (_, refl, record { code = refl; status = refl; of_postgres = refl; of_redis = refl })
postgres_before (some x) none =
    (_, refl, record { code = refl; status = refl; of_postgres = refl; of_redis = refl })
postgres_before (some x) (some y) =
    (_, refl, record { code = refl; status = refl; of_postgres = refl; of_redis = refl })

redis_before : (x y : Option Error) → Answered 2 (from_redis y ∷ from_postgres x ∷ []) x y
unfolding receive respond_ready ready_response note_error put_error
redis_before none none =
    (_, refl, record { code = refl; status = refl; of_postgres = refl; of_redis = refl })
redis_before none (some y) =
    (_, refl, record { code = refl; status = refl; of_postgres = refl; of_redis = refl })
redis_before (some x) none =
    (_, refl, record { code = refl; status = refl; of_postgres = refl; of_redis = refl })
redis_before (some x) (some y) =
    (_, refl, record { code = refl; status = refl; of_postgres = refl; of_redis = refl })

abbrev ReadyzReports : Backends → Schedule → Env → World → Type 0
ReadyzReports b s e w =
    (r : ReadyResponse) × ((handle_readyz b s e w).0 ≡ some r)
    × Reports (if_there b.has_store (e.db_fault (postgres_moment b s w.moment)))
        (if_there b.has_cache (e.redis_ping (redis_moment b s w.moment))) r

by_cases :
    (has_store has_cache redis_first swapped : Bool) (e : Env) (w : World)
    → ReadyzReports
        (record { has_store = has_store; has_cache = has_cache })
        (record { redis_first = redis_first; swapped = swapped })
        e
        w
unfolding handle_readyz run_checks arrivals expected_checks check_postgres check_redis ◌>>=◌ pure
    call request postgres_moment redis_moment receive respond_ready ready_response
by_cases false false first true e w =
    (_, refl, record { code = refl; status = refl; of_postgres = refl; of_redis = refl })
by_cases false false first false e w =
    (_, refl, record { code = refl; status = refl; of_postgres = refl; of_redis = refl })
by_cases true false first true e w = postgres_alone (e.db_fault w.moment)
by_cases true false first false e w = postgres_alone (e.db_fault w.moment)
by_cases false true true true e w = redis_alone (e.redis_ping w.moment)
by_cases false true true false e w = redis_alone (e.redis_ping w.moment)
by_cases false true false true e w = redis_alone (e.redis_ping w.moment)
by_cases false true false false e w = redis_alone (e.redis_ping w.moment)
by_cases true true true true e w =
    postgres_before (e.db_fault (suc w.moment)) (e.redis_ping w.moment)
by_cases true true true false e w = redis_before (e.db_fault (suc w.moment)) (e.redis_ping w.moment)
by_cases true true false true e w = redis_before (e.db_fault w.moment) (e.redis_ping (suc w.moment))
by_cases true true false false e w =
    postgres_before (e.db_fault w.moment) (e.redis_ping (suc w.moment))

-- In every order of the calls and of the answers, a readiness request is answered: with 200 and "ready"
-- where each backing service that there is answers its ping, and else with 503, "not_ready"
-- and the error of each service that does not.
pub handle_readyz-Reports :
    (b : Backends) (s : Schedule) (e : Env) (w : World)
    → (r : ReadyResponse) × ((handle_readyz b s e w).0 ≡ some r)
      × Reports
          (if_there b.has_store (e.db_fault (postgres_moment b s w.moment)))
          (if_there b.has_cache (e.redis_ping (redis_moment b s w.moment)))
          r
handle_readyz-Reports b s e w = by_cases b.has_store b.has_cache s.redis_first s.swapped e w
