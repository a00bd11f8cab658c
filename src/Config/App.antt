-- ===== src/Config/App.antt =====
-- internal/app/app.go: the default target of the proxy, the address, and how the server ends.
use Prim.Native.String.{String}
use tark.Common.{Bool, Option, none, some, ◌==◌, ◌<>◌, Error, Result, ok, wrap, if◌then◌else◌}
use tark.Config.{Config}
use tark.Http.Proxy.Resolve.{ProxyHandler, new_proxy_handler}
use tark.System.Env.{Env}

unfoldable pub default_target : Env → Config → String
default_target e cfg =
    if e.getenv "VLLM_URL" == ""
    then "http://vllm." <> cfg.namespace <> ".svc.cluster.local:8000"
    else e.getenv "VLLM_URL"

unfoldable pub new_handler : Env → Config → Bool → Bool → ProxyHandler
unfolding default_target
new_handler e cfg has_store has_cache = new_proxy_handler (default_target e cfg) has_store has_cache

unfoldable pub address : Config → String
address cfg = ":" <> cfg.port

-- What Start has returned before a signal, if it was an error, and what Shutdown returns after one.
unfoldable pub run_with_graceful_shutdown : Option Error → Option Error → Result (Unit {0})
run_with_graceful_shutdown (some x) shutdown = wrap "HTTP server failed" x
run_with_graceful_shutdown none (some x) = wrap "HTTP server shutdown" x
run_with_graceful_shutdown none none = ok tt
