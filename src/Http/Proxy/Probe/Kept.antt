-- ===== src/Http/Proxy/Probe/Kept.antt =====
-- The probes change the table of proxies by evictions alone.
use tark.Common.{String, List, [], ◌∷◌, Bool, true, false}
use tark.Http.Proxy.Table.Kept.{
  Sectioned, Sectioned-pure, Sectioned-bind, Sectioned-then, sectioned_rules,
  evict_proxy_target-Sectioned,
}
use tark.Http.Proxy.Probe.{dial_probe, is_target_healthy, keep_or_evict, filter_healthy_targets}

is_target_healthy-Sectioned : (target : String) → Sectioned (is_target_healthy target)
unfolding is_target_healthy dial_probe
is_target_healthy-Sectioned target = search sectioned_rules depth 9

keep_or_evict-Sectioned :
    (target : String) (healthy : Bool) → Sectioned (keep_or_evict target healthy)
unfolding keep_or_evict
keep_or_evict-Sectioned target true = Sectioned-pure tt
keep_or_evict-Sectioned target false = evict_proxy_target-Sectioned target

pub filter_healthy_targets-Sectioned :
    (targets : List String) → Sectioned (filter_healthy_targets targets)
unfolding filter_healthy_targets
filter_healthy_targets-Sectioned [] = Sectioned-pure []
filter_healthy_targets-Sectioned (target ∷ targets) =
    Sectioned-bind _ _ (is_target_healthy-Sectioned target) λ healthy.
      Sectioned-then _ _ (keep_or_evict-Sectioned target healthy)
        (Sectioned-bind _ _ (filter_healthy_targets-Sectioned targets) λ rest. Sectioned-pure _)
