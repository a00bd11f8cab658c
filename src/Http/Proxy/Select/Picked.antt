-- ===== src/Http/Proxy/Select/Picked.antt =====
-- The choice is always one of the targets.
use mathlib.Core.List.{Memᴰ}
use mathlib.Core.List.Memᴰ.{head}
use native.Mathlib.Nat.{mod-lt, mod-add-mod, add-mod_right, mod-eq_of_lt}
use native.Mathlib.Decide.{dec_lt}
use mathlib.Core.Path.{sym, ap, ◌∙◌}
use mathlib.Core.Option.{some-injective}
use tark.Common.{
  ℕ, zero, suc, ◌+◌, ◌-◌, ◌%◌, ◌<◌, ◌≡◌, refl, arith, inl, inr, String, some, List, [], ◌∷◌, Bool,
  true, false, length, get_elem?, ok, Result-cases,
}
use tark.Common.Members.{get_elem?-Mem, get_elem?_of_lt}
use tark.Models.{ℤ, pos, negsuc}
use tark.Cache.{model_round_robin_key}
use tark.Http.Proxy.Select.{
  decrement, negate, remainder, at, clamp, local_fallback, by_counter, select_round_robin_target,
}
use tark.System.Env.{Env}
use tark.System.Act.{World, ◌>>=◌, pure, asks, call, request, check, branch}
use tark.System.Quiet.{Quiet, quiet_rules}

at-Mem : (targets : List String) (i : ℤ) {t : String} → at targets i ≡ some t → Memᴰ t targets
unfolding at
at-Mem targets (pos i) h = get_elem?-Mem targets i h
at-Mem targets (negsuc i) h = cc

local_fallback-Quiet : (targets : List String) → Quiet (local_fallback targets)
unfolding local_fallback
local_fallback-Quiet targets = search quiet_rules

by_counter-Quiet : (model : String) (targets : List String) → Quiet (by_counter model targets)
unfolding by_counter
by_counter-Quiet model targets = search (quiet_rules, local_fallback-Quiet)

pub select_round_robin_target-Quiet :
    (has_cache : Bool) (model : String) (targets : List String)
    → Quiet (select_round_robin_target has_cache model targets)
unfolding select_round_robin_target
select_round_robin_target-Quiet has_cache model (target ∷ []) = search quiet_rules
select_round_robin_target-Quiet has_cache model [] =
    search (quiet_rules, by_counter-Quiet, local_fallback-Quiet)
select_round_robin_target-Quiet has_cache model (target ∷ other ∷ others) =
    search (quiet_rules, by_counter-Quiet, local_fallback-Quiet)

module _ (e : Env) (w : World) where
  local_fallback-Mem :
      (targets : List String) {t : String}
      → (local_fallback targets e w).0 ≡ some t
      → Memᴰ t targets
  unfolding local_fallback ◌>>=◌ call pure
  local_fallback-Mem targets h = at-Mem targets _ h

  by_counter-Mem :
      (model : String) (targets : List String) {t : String}
      → (by_counter model targets e w).0 ≡ some t
      → Memᴰ t targets
  unfolding by_counter local_fallback ◌>>=◌ asks call request check branch pure
  by_counter-Mem model targets h =
      elim (Result-cases (e.redis_incr w.moment (model_round_robin_key e.lower_rune model))) [
        | inl (counter, reply) ↦ at-Mem targets _ (rw reply at h)
        | inr (x, down) ↦ at-Mem targets _ (rw down at h)
      ]

  pub select_round_robin_target-Mem :
      (has_cache : Bool) (model : String) (targets : List String) {t : String}
      → (select_round_robin_target has_cache model targets e w).0 ≡ some t
      → Memᴰ t targets
  unfolding select_round_robin_target pure
  select_round_robin_target-Mem has_cache model (target ∷ []) {t} h =
      head (sym (some-injective target t h))
  select_round_robin_target-Mem true model [] h = by_counter-Mem model [] h
  select_round_robin_target-Mem false model [] h = local_fallback-Mem [] h
  select_round_robin_target-Mem true model (target ∷ other ∷ others) h =
      by_counter-Mem model (target ∷ other ∷ others) h
  select_round_robin_target-Mem false model (target ∷ other ∷ others) h =
      local_fallback-Mem (target ∷ other ∷ others) h

-- An index that Go computes is one of the list.
at-some :
    (targets : List String) (i : ℕ)
    → 0 < length targets
    → (t : String) × (at targets (pos (i % length targets)) ≡ some t)
unfolding at
at-some targets i some_left = get_elem?_of_lt targets (i % length targets) (mod-lt i some_left)

clamp-negate-some :
    (targets : List String) (k : ℕ)
    → 0 < length targets
    → (t : String) × (at targets (clamp (negate k)) ≡ some t)
unfolding negate clamp at
clamp-negate-some targets zero some_left = get_elem?_of_lt targets 0 some_left
clamp-negate-some targets (suc k) some_left = get_elem?_of_lt targets 0 some_left

clamp-remainder-some :
    (targets : List String) (seed : ℤ)
    → 0 < length targets
    → (t : String) × (at targets (clamp (remainder seed (length targets))) ≡ some t)
unfolding remainder clamp negate
clamp-remainder-some targets (pos n) some_left = at-some targets n some_left
clamp-remainder-some targets (negsuc n) some_left =
    clamp-negate-some targets (suc n % length targets) some_left

-- A reply of INCR, if there is one, is positive.
abbrev pub Counts : Env → String → Type 0
Counts e model =
    (moment : ℕ) (counter : ℤ)
    → e.redis_incr moment (model_round_robin_key e.lower_rune model) ≡ ok counter
    → (n : ℕ) × (counter ≡ pos (suc n))

module _ (e : Env) (w : World) (model : String) where
  local_fallback-some :
      (targets : List String)
      → 0 < length targets
      → (t : String) × ((local_fallback targets e w).0 ≡ some t)
  unfolding local_fallback ◌>>=◌ call pure
  local_fallback-some targets some_left = clamp-remainder-some targets _ some_left

  by_counter-some :
      (targets : List String)
      → 0 < length targets
      → Counts e model
      → (t : String) × ((by_counter model targets e w).0 ≡ some t)
  unfolding by_counter ◌>>=◌ asks request check branch pure decrement remainder call local_fallback
  by_counter-some targets some_left counts =
      elim (Result-cases (e.redis_incr w.moment (model_round_robin_key e.lower_rune model))) [
        | inl (counter, reply) ↦
            let (n, positive) = counts w.moment counter reply in
            let (t, found) = at-some targets n some_left in (t, rw (reply, positive) found)
        | inr (x, down) ↦
            let (t, found) = clamp-remainder-some targets (e.unix_nano (suc w.moment)) some_left in
            (t, rw down found)
      ]

  -- An index is never out of range.
  pub select_round_robin_target-some :
      (has_cache : Bool) (targets : List String)
      → 0 < length targets
      → Counts e model
      → (t : String) × ((select_round_robin_target has_cache model targets e w).0 ≡ some t)
  unfolding select_round_robin_target pure
  select_round_robin_target-some has_cache [] some_left counts = elim some_left [ ]
  select_round_robin_target-some has_cache (target ∷ []) some_left counts = (target, refl)
  select_round_robin_target-some true (target ∷ other ∷ others) some_left counts =
      by_counter-some (target ∷ other ∷ others) some_left counts
  select_round_robin_target-some false (target ∷ other ∷ others) some_left counts =
      local_fallback-some (target ∷ other ∷ others) some_left

  -- With several targets, the counter's value gives the turn.
  turn :
      (targets : List String) (c : ℕ)
      → 1 < length targets
      → e.redis_incr w.moment (model_round_robin_key e.lower_rune model) ≡ ok (pos (suc c))
      → (select_round_robin_target true model targets e w).0
        ≡ get_elem? targets (c % length targets)
  unfolding select_round_robin_target by_counter ◌>>=◌ asks request check branch pure decrement
      remainder at
  turn [] c several reply = elim several [ ]
  turn (target ∷ []) c several reply = ground arith
  turn (target ∷ other ∷ others) c several reply = rw reply refl

-- Some count from `c` on, less than `n` later, has the remainder `i`.
turn_of : (n c i : ℕ) → i < n → (j : ℕ) × (j < n) × ((c + j) % n ≡ i)
turn_of n c i h =
    let low : c % n < n = mod-lt c (omega (arith, h)) in
    elim (dec_lt i (c % n)) [
      | yes before ↦
          let sum : c % n + (i + n - c % n) ≡ i + n = omega (arith, h, low, before) in
          (
            i + n - c % n,
            omega (arith, h, low, before),
            sym (mod-add-mod c n (i + n - c % n))
                ∙ ap (λ t. t % n) sum
                ∙ add-mod_right i n
                ∙ mod-eq_of_lt h,
          )
      | no after ↦
          let sum : c % n + (i - c % n) ≡ i = omega (arith, after) in
          (
            i - c % n,
            omega (arith, h),
            sym (mod-add-mod c n (i - c % n)) ∙ ap (λ t. t % n) sum ∙ mod-eq_of_lt h,
          )
    ]

-- In as many choices as a model has targets, two at least, each with the next count of the model's counter
-- as INCR's reply, every target is chosen.
pub select_round_robin_target-fair :
    (e : Env) (model : String) (targets : List String) (c i : ℕ) (w : ℕ → World)
    → 1 < length targets
    → i < length targets
    → ((j : ℕ)
        → e.redis_incr (w j).moment (model_round_robin_key e.lower_rune model)
          ≡ ok (pos (suc (c + j))))
    → (j : ℕ) × (j < length targets)
      × ((select_round_robin_target true model targets e (w j)).0 ≡ get_elem? targets i)
select_round_robin_target-fair e model targets c i w several h replies =
    let (j, soon, same) = turn_of (length targets) c i h in
    (j, soon, turn e (w j) model targets (c + j) several (replies j) ∙ ap (get_elem? targets) same)
