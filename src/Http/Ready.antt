-- ===== src/Http/Ready.antt =====
-- handleReadyz of internal/http/router.go: each backing service that there is is pinged in a goroutine of
-- its own, and the answers are taken from a channel in the order in which they arrive.
pub mod Reports
use tark.Common.{
  ℕ, zero, suc, String, Option, none, some, List, [], ◌∷◌, Bool, true, false, not, ◌||◌, ◌&&◌, ◌==◌,
  Error, ◌+◌, if◌then◌else◌, ◌≡◌, refl,
}
use tark.System.Env.{Env}
use tark.System.Act.{Act, World, Event, ◌>>=◌, pure, call, request}

-- `store` and `cache` of the server: nil or not.
pub record Backends : Type 0 where
  pub has_store : Bool
  pub has_cache : Bool

-- What a goroutine sends on the channel.
pub record Check : Type 0 where
  pub service : String
  pub error : Option Error

-- Which goroutine makes its call first, and whether the answers arrive in the other order.
pub record Schedule : Type 0 where
  pub redis_first : Bool
  pub swapped : Bool

-- A map from the services to their errors.
abbrev pub Errors : Type 0
Errors = List (String × Error)

-- `errs[service] = text`
unfoldable put_error : String → Error → Errors → Errors
put_error service text [] = (service, text) ∷ []
put_error service text ((key, old) ∷ rest) =
    let others = put_error service text rest in
    if key == service then (key, text) ∷ rest else (key, old) ∷ others

-- `errs[service]`
abbrev pub find_error : String → Errors → Option Error
find_error service [] = none
find_error service ((key, text) ∷ rest) =
    if key == service then some text else find_error service rest

pub record ReadyResponse : Type 0 where
  pub code : ℕ
  pub status : String
  pub errors : Errors

unfoldable check_postgres : Act Check
check_postgres = do
  x ← call (λ e n. e.db_fault n)
  pure (record { service = "postgres"; error = x })

unfoldable check_redis : Act Check
check_redis = do
  x ← request Event.redis_ping (λ e n. e.redis_ping n)
  pure (record { service = "redis"; error = x })

-- The goroutines that are started, and what they send in the order of their calls.
unfoldable run_checks : Bool → Bool → Bool → Act (List Check)
unfolding check_postgres check_redis
run_checks false false redis_first = pure []
run_checks true false redis_first = do p ← check_postgres; pure (p ∷ [])
run_checks false true redis_first = do r ← check_redis; pure (r ∷ [])
run_checks true true false = do p ← check_postgres; r ← check_redis; pure (p ∷ r ∷ [])
run_checks true true true = do r ← check_redis; p ← check_postgres; pure (r ∷ p ∷ [])

-- The channel gives what was sent first, or what was sent last.
unfoldable arrivals : Bool → List Check → List Check
arrivals true (c ∷ c' ∷ []) = c' ∷ c ∷ []
arrivals swapped sent = sent

unfoldable expected_checks : Backends → ℕ
expected_checks b = (if b.has_store then 1 else 0) + (if b.has_cache then 1 else 0)

unfoldable note_error : String → Option Error → Errors → Errors
unfolding put_error
note_error service none errs = errs
note_error service (some x) errs = put_error service x errs

-- As many answers are received as checks are expected; none is a receive that waits for ever.
unfoldable receive : ℕ → List Check → Errors → Option Errors
unfolding note_error
receive zero arriving errs = some errs
receive (suc n) [] errs = none
receive (suc n) (c ∷ arriving) errs = receive n arriving (note_error c.service c.error errs)

unfoldable ready_response : Errors → ReadyResponse
ready_response [] = record { code = 200; status = "ready"; errors = [] }
ready_response (x ∷ errs) = record { code = 503; status = "not_ready"; errors = x ∷ errs }

unfoldable respond_ready : Option Errors → Option ReadyResponse
unfolding ready_response
respond_ready none = none
respond_ready (some errs) = some (ready_response errs)

unfoldable pub handle_readyz : Backends → Schedule → Act (Option ReadyResponse)
unfolding run_checks arrivals expected_checks receive respond_ready
handle_readyz b s = do
  sent ← run_checks b.has_store b.has_cache s.redis_first
  pure (respond_ready (receive (expected_checks b) (arrivals s.swapped sent) []))
