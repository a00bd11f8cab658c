-- ===== src/Http/Proxy/Table.antt =====
-- The table of reverse proxies: a map under a lock, one critical section for each use.
pub mod Valid
pub mod Kept
use tark.Common.{
  String, Option, none, some, List, [], ◌∷◌, Bool, ◌||◌, ◌==◌, Error, Result, ok, err,
  if◌then◌else◌,
}
use tark.Text.{trim_space}
use tark.System.Env.{Env, Url}
use tark.System.Act.{Act, ReverseProxy, ProxyTable, ◌>>=◌, pure, asks, section, check}

-- `proxyByTarget[target]`
unfoldable pub find_proxy : String → ProxyTable → Option ReverseProxy
find_proxy target [] = none
find_proxy target ((key, p) ∷ rest) = if key == target then some p else find_proxy target rest

-- `delete(proxyByTarget, target)`
unfoldable pub remove_proxy : String → ProxyTable → ProxyTable
remove_proxy target [] = []
remove_proxy target ((key, p) ∷ rest) =
    let kept = remove_proxy target rest in if key == target then kept else (key, p) ∷ kept

keep_or_add : String → ReverseProxy → ProxyTable → Option ReverseProxy → ReverseProxy × ProxyTable
keep_or_add target p table (some existing) = (existing, table)
keep_or_add target p table none = (p, (target, p) ∷ table)

-- The section under the write lock: an entry that another request made in between stays.
unfoldable pub add_proxy : String → ReverseProxy → ProxyTable → ReverseProxy × ProxyTable
unfolding keep_or_add
add_proxy target p table = keep_or_add target p table (find_proxy target table)

unfoldable pub has_no_target : Url → Bool
has_no_target url = url.scheme == "" || url.host == ""

create_proxy : String → Act (Option ReverseProxy)
unfolding has_no_target
create_proxy target =
    check (asks (λ e. e.parse_url target)) (λ x. pure none)
      λ url.
        if has_no_target url
        then pure none
        else do p ← section (add_proxy target (record { url = url })); pure (some p)

existing_or_created : String → Option ReverseProxy → Act (Option ReverseProxy)
unfolding create_proxy
existing_or_created target (some existing) = pure (some existing)
existing_or_created target none = create_proxy target

proxy_for_trimmed : String → Act (Option ReverseProxy)
unfolding existing_or_created
proxy_for_trimmed target = if target == "" then pure none else do
  existing ← section (λ table. (find_proxy target table, table))
  existing_or_created target existing

pub proxy_for_target : String → Act (Option ReverseProxy)
unfolding proxy_for_trimmed
proxy_for_target target = proxy_for_trimmed (trim_space target)

-- The key is the target as it is given.
unfoldable pub evict_proxy_target : String → Act (Unit {0})
evict_proxy_target target = section λ table. (tt, remove_proxy target table)
