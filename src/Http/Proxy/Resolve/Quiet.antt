-- ===== src/Http/Proxy/Resolve/Quiet.antt =====
-- The proxy's calls to the cache, and the rows.
use tark.Common.{String, List}
use tark.Http.Proxy.Resolve.{
  ProxyHandler, decode_reply, read_reply, read_targets_from_cache, delete_model_keys,
  invalidate_model_cache, store_targets, set_targets_in_cache,
}
use tark.System.Env.{RedisReply}
use tark.System.Quiet.{Quiet, quiet_rules}

module _ (h : ProxyHandler) (model : String) where
  delete_model_keys-Quiet : Quiet (delete_model_keys h model)
  unfolding delete_model_keys
  delete_model_keys-Quiet = search quiet_rules

  pub invalidate_model_cache-Quiet : Quiet (invalidate_model_cache h model)
  unfolding invalidate_model_cache
  invalidate_model_cache-Quiet = search (quiet_rules, delete_model_keys-Quiet)

  store_targets-Quiet : (targets : List String) → Quiet (store_targets h model targets)
  unfolding store_targets
  store_targets-Quiet targets = search quiet_rules depth 9

  pub set_targets_in_cache-Quiet :
      (targets : List String) → Quiet (set_targets_in_cache h model targets)
  unfolding set_targets_in_cache
  set_targets_in_cache-Quiet targets = search (quiet_rules, store_targets-Quiet)

decode_reply-Quiet : (reply : RedisReply) → Quiet (decode_reply reply)
unfolding decode_reply
decode_reply-Quiet RedisReply.nil = search quiet_rules
decode_reply-Quiet (RedisReply.value raw) = search quiet_rules
decode_reply-Quiet (RedisReply.failed x) = search quiet_rules

pub read_targets_from_cache-Quiet :
    (h : ProxyHandler) (model : String) → Quiet (read_targets_from_cache h model)
unfolding read_targets_from_cache read_reply
read_targets_from_cache-Quiet h model = search (quiet_rules, decode_reply-Quiet) depth 9
