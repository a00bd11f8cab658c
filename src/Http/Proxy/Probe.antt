-- ===== src/Http/Proxy/Probe.antt =====
-- Which targets answer a dial.
pub mod Healthy
pub mod Kept
use tark.Common.{
  String, Option, none, some, List, [], ◌∷◌, Bool, true, false, ◌==◌, Error, Result, ok, err,
  if◌then◌else◌,
}
use tark.Text.{trim_space, contains, join_host_port}
use tark.Http.Proxy.Table.{evict_proxy_target}
use tark.System.Env.{Env, Url}
use tark.System.Act.{Act, Event, ◌>>=◌, ◌>>◌, pure, asks, request, from_fault, check}

-- The port is that of the scheme where the URL names none.
unfoldable pub probe_address : Url → String
probe_address url =
    if contains url.host ":"
    then url.host
    else join_host_port url.host (if url.scheme == "https" then "443" else "80")

unfoldable pub dial_probe : String → Act Bool
dial_probe host_port =
    check (request (Event.dial host_port) (λ e n. from_fault (e.dial n host_port)))
      (λ x. pure false) λ _. pure true

unfoldable pub is_target_healthy : String → Act Bool
unfolding dial_probe
is_target_healthy target =
    check (asks (λ e. e.parse_url (trim_space target))) (λ x. pure false)
      λ url. if url.host == "" then pure false else dial_probe (probe_address url)

-- A target that is not healthy loses its proxy.
unfoldable pub keep_or_evict : String → Bool → Act (Unit {0})
keep_or_evict target true = pure tt
keep_or_evict target false = evict_proxy_target target

abbrev pub prepend_if : Bool → String → List String → List String
prepend_if true x xs = x ∷ xs
prepend_if false x xs = xs

unfoldable pub filter_healthy_targets : List String → Act (List String)
unfolding keep_or_evict
filter_healthy_targets [] = pure []
filter_healthy_targets (target ∷ targets) = do
  healthy ← is_target_healthy target
  keep_or_evict target healthy
  rest ← filter_healthy_targets targets
  pure (prepend_if healthy target rest)
