-- ===== src/Http/Proxy/Resolve/Kept.antt =====
-- The resolution changes the table of proxies by evictions alone.
use tark.Common.{String, List, [], ◌∷◌}
use tark.Store.Methods.{list_active_deployment_targets}
use tark.Http.Proxy.Table.Kept.{Sectioned, sectioned_rules}
use tark.Http.Proxy.Probe.Kept.{filter_healthy_targets-Sectioned}
use tark.Http.Proxy.Select.Kept.{select_round_robin_target-Sectioned}
use tark.Http.Proxy.Resolve.{
  ProxyHandler, Cached, found, missing, broken, decode_reply, read_reply, read_targets_from_cache,
  delete_model_keys, invalidate_model_cache, store_targets, set_targets_in_cache, select_from,
  use_discovered, discovered, discover, use_cached, from_cache, resolve_named, resolve_default,
  resolve_model_target,
}
use tark.System.Env.{RedisReply}

decode_reply-Sectioned : (reply : RedisReply) → Sectioned (decode_reply reply)
unfolding decode_reply
decode_reply-Sectioned RedisReply.nil = search sectioned_rules
decode_reply-Sectioned (RedisReply.value raw) = search sectioned_rules
decode_reply-Sectioned (RedisReply.failed x) = search sectioned_rules

module _ (h : ProxyHandler) (model : String) where
  read-Sectioned : Sectioned (read_targets_from_cache h model)
  unfolding read_targets_from_cache read_reply
  read-Sectioned = search (sectioned_rules, decode_reply-Sectioned) depth 9

  invalidate-Sectioned : Sectioned (invalidate_model_cache h model)
  unfolding invalidate_model_cache delete_model_keys
  invalidate-Sectioned = search sectioned_rules depth 9

  set-Sectioned : (targets : List String) → Sectioned (set_targets_in_cache h model targets)
  unfolding set_targets_in_cache store_targets
  set-Sectioned targets = search sectioned_rules depth 12

  select_from-Sectioned : (targets : List String) → Sectioned (select_from h model targets)
  unfolding select_from
  select_from-Sectioned targets = search (sectioned_rules, select_round_robin_target-Sectioned)

  use_discovered-Sectioned : (targets : List String) → Sectioned (use_discovered h model targets)
  unfolding use_discovered
  use_discovered-Sectioned [] = search (sectioned_rules, invalidate-Sectioned)
  use_discovered-Sectioned (t ∷ ts) = search (sectioned_rules, set-Sectioned, select_from-Sectioned)

  discovered-Sectioned : (targets : List String) → Sectioned (discovered h model targets)
  unfolding discovered
  discovered-Sectioned [] = search sectioned_rules
  discovered-Sectioned (t ∷ ts) =
      search (sectioned_rules, filter_healthy_targets-Sectioned, use_discovered-Sectioned)

  discover-Sectioned : Sectioned (discover h model)
  unfolding discover list_active_deployment_targets
  discover-Sectioned = search (sectioned_rules, discovered-Sectioned)

  use_cached-Sectioned : (cached ts : List String) → Sectioned (use_cached h model cached ts)
  unfolding use_cached
  use_cached-Sectioned cached [] =
      search (sectioned_rules, invalidate-Sectioned, discover-Sectioned)
  use_cached-Sectioned cached (t ∷ ts) =
      search (sectioned_rules, set-Sectioned, select_from-Sectioned)

  from_cache-Sectioned : (cached : Cached) → Sectioned (from_cache h model cached)
  unfolding from_cache
  from_cache-Sectioned missing = discover-Sectioned
  from_cache-Sectioned (broken x) = discover-Sectioned
  from_cache-Sectioned (found []) = discover-Sectioned
  from_cache-Sectioned (found (t ∷ ts)) =
      search (sectioned_rules, filter_healthy_targets-Sectioned, use_cached-Sectioned)

pub resolve_model_target-Sectioned :
    (h : ProxyHandler) (model : String) → Sectioned (resolve_model_target h model)
unfolding resolve_model_target resolve_default resolve_named
resolve_model_target-Sectioned h model =
    search (sectioned_rules, read-Sectioned, from_cache-Sectioned) depth 9
