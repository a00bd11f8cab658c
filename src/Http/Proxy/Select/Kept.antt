-- ===== src/Http/Proxy/Select/Kept.antt =====
-- The choice leaves the table of proxies alone.
use tark.Common.{String, List, [], ◌∷◌, Bool}
use tark.Http.Proxy.Table.Kept.{Sectioned, sectioned_rules}
use tark.Http.Proxy.Select.{local_fallback, by_counter, select_round_robin_target}

pub select_round_robin_target-Sectioned :
    (has_cache : Bool) (model : String) (targets : List String)
    → Sectioned (select_round_robin_target has_cache model targets)
unfolding select_round_robin_target by_counter local_fallback
select_round_robin_target-Sectioned has_cache model (target ∷ []) = search sectioned_rules
select_round_robin_target-Sectioned has_cache model [] = search sectioned_rules depth 12
select_round_robin_target-Sectioned has_cache model (target ∷ other ∷ others) =
    search sectioned_rules depth 12
