-- ===== src/Http/Proxy/Select.antt =====
-- The choice among the healthy targets of a model.
pub mod Picked
pub mod Kept
use tark.Common.{
  ℕ, zero, suc, ◌-◌, ◌^◌, ◌%◌, String, Option, none, some, List, [], ◌∷◌, Bool, nat_eq, length,
  get_elem?, Error, Result, ok, err, if◌then◌else◌,
}
use tark.Models.{ℤ, pos, negsuc}
use tark.Cache.{model_round_robin_key}
use tark.System.Env.{Env}
use tark.System.Act.{Act, Event, ◌>>=◌, pure, asks, call, request, check}

-- `counter - 1` on an int64
unfoldable pub decrement : ℤ → ℤ
decrement (pos zero) = negsuc 0
decrement (pos (suc n)) = pos n
decrement (negsuc n) = if nat_eq n (2 ^ 63 - 1) then pos (2 ^ 63 - 1) else negsuc (suc n)

negate : ℕ → ℤ
negate zero = pos 0
negate (suc n) = negsuc n

-- Go's `%`: the remainder has the sign of the dividend.
unfoldable pub remainder : ℤ → ℕ → ℤ
unfolding negate
remainder (pos n) m = pos (n % m)
remainder (negsuc n) m = negate (suc n % m)

-- `targets[idx]`; none is the panic of an index out of range.
unfoldable pub at : List String → ℤ → Option String
at targets (pos i) = get_elem? targets i
at targets (negsuc i) = none

-- `if idx < 0 { idx = 0 }`
unfoldable pub clamp : ℤ → ℤ
clamp (pos i) = pos i
clamp (negsuc i) = pos 0

local_fallback : List String → Act (Option String)
local_fallback targets = do
  seed ← call (λ e n. e.unix_nano n)
  pure (at targets (clamp (remainder seed (length targets))))

by_counter : String → List String → Act (Option String)
unfolding local_fallback
by_counter model targets = do
  key ← asks (λ e. model_round_robin_key e.lower_rune model)
  check (request (Event.redis_incr key) (λ e n. e.redis_incr n key)) (λ x. local_fallback targets)
      λ counter. pure (at targets (remainder (decrement counter) (length targets)))

unfoldable pub select_round_robin_target : Bool → String → List String → Act (Option String)
unfolding by_counter local_fallback
select_round_robin_target has_cache model (target ∷ []) = pure (some target)
select_round_robin_target has_cache model targets =
    if has_cache then by_counter model targets else local_fallback targets
