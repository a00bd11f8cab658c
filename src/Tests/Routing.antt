-- ===== src/Tests/Routing.antt =====
-- The theorems on the proxy and the readiness check, each at a concrete input.
use tark.Common.{String, err}
use tark.Common.{ℕ, suc, ◌+◌, ◌<◌, true, false, some, none, [], ◌∷◌, ◌≡◌, ◌≢◌, refl, ok, arith}
use tark.Models.{pos}
use tark.Http.Proxy.Resolve.{
  ProxyHandler, resolved, panicked, resolve_model_target, resolve_named, read_targets_from_cache,
  read_reply, decode_reply, from_cache, discover, discovered, use_discovered, set_targets_in_cache,
  store_targets, select_from,
}
use tark.Http.Proxy.Resolve.Sound.{Listed, resolve_model_target-Probed}
use tark.Http.Proxy.Probe.{
  filter_healthy_targets, is_target_healthy, dial_probe, probe_address, keep_or_evict,
}
use tark.Store.Methods.{list_active_deployment_targets}
use tark.Store.Select.{select_active_targets}
use tark.Common.{select_where, sort_desc, insert_desc, find_first}
use tark.Text.{trim_space}
use tark.Http.Proxy.Probe.Healthy.{Probed}
use tark.Http.Proxy.Resolve.Total.{resolve_model_target-ne-panicked}
use tark.Http.Proxy.Select.{select_round_robin_target}
use tark.Http.Proxy.Select.Picked.{select_round_robin_target-fair}
use tark.Http.Proxy.Table.{add_proxy}
use tark.Http.Proxy.Table.Valid.{add_proxy_once}
use tark.Http.Ready.{ReadyResponse, handle_readyz}
use tark.Http.Ready.Reports.{Reports, handle_readyz-Reports}
use tark.Http.Proxy.Resolve.Available.{resolve_model_target-Resolves}
use mathlib.Core.List.{Memᴰ}
use mathlib.Core.List.Memᴰ.{head}
use tark.System.Env.{Env, Url, RedisReply}
use tark.System.Act.{query, attempt, ◌>>=◌, ◌>>◌, pure, asks, request, check, branch}
use tark.Tests.Fixture.{calm, world, two_clusters}

abbrev front : ProxyHandler
front = record { default_target = ""; has_store = true; has_cache = true }

resolve_model_target-ne-panicked_example :
    (resolve_model_target front "vllm" calm two_clusters).0 ≢ panicked
resolve_model_target-ne-panicked_example =
    resolve_model_target-ne-panicked front "vllm" calm two_clusters λ n counter same. (0, cc)

abbrev url : Url
url = record { scheme = "http"; host = "10.0.0.6:30000"; path = ""; raw_query = "" }

add_proxy_once_example :
    add_proxy "http://10.0.0.6:30000"
      (record { url = url })
      (add_proxy "http://10.0.0.6:30000" (record { url = record url { path = "/v1" } }) []).1
    ≡ (
      (add_proxy "http://10.0.0.6:30000" (record { url = record url { path = "/v1" } }) []).0,
      (add_proxy "http://10.0.0.6:30000" (record { url = record url { path = "/v1" } }) []).1,
    )
add_proxy_once_example =
    add_proxy_once "http://10.0.0.6:30000" (record { url = record url { path = "/v1" } })
      (record { url = url }) []

-- INCR counts the calls.
abbrev counting : Env
counting = record calm { redis_incr = λ n key. ok (pos (suc n)) }

select_round_robin_target-fair_example :
    (j : ℕ) × (j < 2)
    × ((select_round_robin_target true "vllm"
          ("a" ∷ "b" ∷ [])
          counting
          (record world { moment = 0 + j })).0
        ≡ some "b")
select_round_robin_target-fair_example =
    select_round_robin_target-fair counting "vllm" ("a" ∷ "b" ∷ []) 0 1
      (λ j. record world { moment = 0 + j }) (omega arith) (omega arith) λ j. refl

resolved_there :
    (resolve_model_target front "vllm" calm two_clusters).0 ≡ resolved "http://10.0.0.6:30000"
unfolding resolve_model_target resolve_named read_targets_from_cache read_reply decode_reply
    from_cache discover discovered use_discovered set_targets_in_cache store_targets select_from
    filter_healthy_targets is_target_healthy dial_probe probe_address keep_or_evict
    select_round_robin_target list_active_deployment_targets select_active_targets select_where
    sort_desc insert_desc find_first query attempt ◌>>=◌ ◌>>◌ pure asks request check branch
    trim_space
resolved_there = refl

resolve_model_target-Probed_example :
    Probed calm two_clusters.moment
      (resolve_model_target front "vllm" calm two_clusters).1.moment
      "http://10.0.0.6:30000"
    × Listed calm two_clusters "vllm" "http://10.0.0.6:30000"
unfolding trim_space
resolve_model_target-Probed_example =
    resolve_model_target-Probed front "vllm" calm two_clusters "http://10.0.0.6:30000" refl
      resolved_there

-- Redis is slow, its answer comes first, and PostgreSQL refuses.
abbrev refusing : Env
refusing = record calm { db_fault = λ n. some "connection refused" }

handle_readyz-Reports_example :
    (r : ReadyResponse) × ((handle_readyz
        (record { has_store = true; has_cache = true })
        (record { redis_first = false; swapped = true })
        refusing
        world).0
      ≡ some r)
    × Reports (some "connection refused") none r
handle_readyz-Reports_example =
    handle_readyz-Reports (record { has_store = true; has_cache = true })
      (record { redis_first = false; swapped = true }) refusing world

-- Redis refuses every call.
abbrev cacheless : Env
cacheless = record calm {
  redis_fault = λ n. some "down";
  redis_get = λ n key. RedisReply.failed "down";
  redis_incr = λ n key. err "down";
}

served : Memᴰ "http://10.0.0.6:30000" (select_active_targets "vllm" two_clusters.db)
unfolding select_active_targets select_where sort_desc insert_desc find_first
served = head refl

resolve_model_target-Resolves_example :
    (target : String) × ((resolve_model_target front "vllm" cacheless two_clusters).0
      ≡ resolved target)
unfolding trim_space
resolve_model_target-Resolves_example =
    resolve_model_target-Resolves cacheless front "vllm" "http://10.0.0.6:30000" two_clusters
      (record { reachable = λ n. refl; live = λ n. refl }) refl (λ n counter replied. cc) refl
      served
      (record {
        url = record { scheme = "http"; host = "http://10.0.0.6:30000"; path = ""; raw_query = "" };
        parsed = refl;
        has_host = refl;
        answers = λ n. refl;
      })
