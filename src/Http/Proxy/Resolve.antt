-- ===== src/Http/Proxy/Resolve.antt =====
-- The target of a model: from the cache, from the database, or the default one.
pub mod Quiet
pub mod Within
pub mod Sound
pub mod Total
pub mod Available
pub mod Kept
use tark.Common.{
  ℕ, String, Option, none, some, List, [], ◌∷◌, Bool, true, false, not, ◌==◌, ◌<>◌, nat_eq, length,
  Error, Result, ok, err, if◌then◌else◌,
}
use tark.Text.{trim_space}
use tark.Cache.{model_targets_key, model_round_robin_key}
use tark.Store.Methods.{list_active_deployment_targets}
use tark.Http.Proxy.Probe.{filter_healthy_targets}
use tark.Http.Proxy.Select.{select_round_robin_target}
use tark.System.Env.{Env, RedisReply}
use tark.System.Act.{Act, Event, ◌>>=◌, ◌>>◌, pure, asks, request, from_fault, check}

-- `store` and `cache` are nil or not. The default target is set once, trimmed, by NewProxyHandler.
pub record ProxyHandler : Type 0 where
  pub default_target : String
  pub has_store : Bool
  pub has_cache : Bool

unfoldable pub new_proxy_handler : String → Bool → Bool → ProxyHandler
new_proxy_handler default_target has_store has_cache = record {
  default_target = trim_space default_target;
  has_store = has_store;
  has_cache = has_cache;
}

-- What resolveModelTarget returns, or the panic under it.
pub data Resolution : Type 0 where
  resolved : String → Resolution
  failed : Error → Resolution
  panicked : Resolution

abbrev pub resolution : Option String → Resolution
resolution (some target) = resolved target
resolution none = panicked

-- What readTargetsFromCache returns; redis.Nil apart.
pub data Cached : Type 0 where
  found : List String → Cached
  missing : Cached
  broken : Error → Cached

unfoldable pub decode_reply : RedisReply → Act Cached
decode_reply RedisReply.nil = pure missing
decode_reply (RedisReply.failed x) = pure (broken x)
decode_reply (RedisReply.value raw) =
    check (asks (λ e. e.unmarshal_targets raw)) (λ x. pure (broken x)) λ ts. pure (found ts)

unfoldable pub read_reply : String → Act Cached
unfolding decode_reply
read_reply key = do
  reply ← request (Event.redis_get key) (λ e n. e.redis_get n key)
  decode_reply reply

module _ (h : ProxyHandler) (model : String) where
  unfoldable pub read_targets_from_cache : Act Cached
  unfolding read_reply
  read_targets_from_cache =
      if h.has_cache
      then (do key ← asks (λ e. model_targets_key e.lower_rune model); read_reply key)
      else pure missing

  -- Both keys in one DEL; its error is only logged.
  delete_model_keys : Act (Unit {0})
  delete_model_keys = do
    targets_key ← asks (λ e. model_targets_key e.lower_rune model)
    counter_key ← asks (λ e. model_round_robin_key e.lower_rune model)
    request (Event.redis_del (targets_key ∷ counter_key ∷ [])) (λ e n. e.redis_fault n)
    pure tt

  pub invalidate_model_cache : Act (Unit {0})
  unfolding delete_model_keys
  invalidate_model_cache = if h.has_cache then delete_model_keys else pure tt

  -- SET with a life of thirty seconds; its error is only logged.
  unfoldable pub store_targets : List String → Act (Unit {0})
  store_targets targets =
      check (asks (λ e. e.marshal_targets targets)) (λ x. pure tt)
        λ encoded. do
          key ← asks (λ e. model_targets_key e.lower_rune model)
          request (Event.redis_set key encoded 30) (λ e n. e.redis_fault n)
          pure tt

  unfoldable pub set_targets_in_cache : List String → Act (Unit {0})
  unfolding store_targets
  set_targets_in_cache targets = if h.has_cache then store_targets targets else pure tt

  unfoldable pub select_from : List String → Act Resolution
  select_from healthy = do
    picked ← select_round_robin_target h.has_cache model healthy
    pure (resolution picked)

  unfoldable pub use_discovered : List String → Act Resolution
  unfolding select_from
  use_discovered [] = do
    invalidate_model_cache
    asks λ e. failed ("no healthy deployment target found for model " <> e.quote model)
  use_discovered (target ∷ others) = do
    set_targets_in_cache (target ∷ others)
    select_from (target ∷ others)

  unfoldable pub discovered : List String → Act Resolution
  unfolding use_discovered
  discovered [] = asks λ e. failed ("no active deployment found for model " <> e.quote model)
  discovered (target ∷ others) = do
    healthy ← filter_healthy_targets (target ∷ others)
    use_discovered healthy

  unfoldable pub discover : Act Resolution
  unfolding discovered
  discover =
      if h.has_store
      then (check (list_active_deployment_targets model)
          (λ x.
            asks λ e. failed ("service discovery failed for model " <> e.quote model <> ": " <> x))
          discovered)
      else asks λ e. failed ("no routing target found for model " <> e.quote model)

  use_cached : List String → List String → Act Resolution
  unfolding select_from
  use_cached targets [] = do invalidate_model_cache; discover
  use_cached targets (target ∷ others) = do
    (if nat_eq (length (target ∷ others)) (length targets)
        then pure tt
        else set_targets_in_cache (target ∷ others))
    select_from (target ∷ others)

  unfoldable pub from_cache : Cached → Act Resolution
  unfolding use_cached
  from_cache (found (target ∷ others)) = do
    healthy ← filter_healthy_targets (target ∷ others)
    use_cached (target ∷ others) healthy
  from_cache (found []) = discover
  from_cache missing = discover
  from_cache (broken x) = discover

  unfoldable pub resolve_named : Act Resolution
  unfolding from_cache
  resolve_named = do cached ← read_targets_from_cache; from_cache cached

unfoldable pub resolve_default : ProxyHandler → Act Resolution
resolve_default h =
    if h.default_target == ""
    then pure (failed "inference backend is not configured")
    else pure (resolved h.default_target)

unfoldable pub resolve_model_target : ProxyHandler → String → Act Resolution
unfolding resolve_named resolve_default
resolve_model_target h model =
    if trim_space model == "" then resolve_default h else resolve_named h (trim_space model)
