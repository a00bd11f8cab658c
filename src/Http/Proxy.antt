-- ===== src/Http/Proxy.antt =====
-- internal/http/handlers/proxy.go: chat requests are forwarded to a healthy deployment of their model.
pub mod Table
pub mod Probe
pub mod Select
pub mod Resolve
pub mod Forward
use tark.Common.{
  ℕ, String, Option, none, some, Bool, true, false, not, ◌||◌, Error, ◌==◌, ◌<>◌, if◌then◌else◌,
}
use tark.Text.{trim_space}
use tark.Http.Proxy.Table.{proxy_for_target}
use tark.Http.Proxy.Resolve.{
  ProxyHandler, Resolution, resolved, failed, panicked, resolve_model_target,
}
use tark.System.Env.{Env}
use tark.System.Act.{Act, ReverseProxy, ◌>>=◌, pure, asks, check}

-- The body of a chat request, as io.ReadAll gives it.
pub data ChatBody : Type 0 where
  absent : ChatBody
  unreadable : Error → ChatBody
  text : String → ChatBody

-- What the client gets: an error body, the answer of the upstream, or the 500 of middleware.Recover.
pub data Proxied : Type 0 where
  proxy_error : ℕ → String → String → Proxied
  forwarded : ReverseProxy → Proxied
  recovered : Proxied

-- A body with no model has the empty one.
pub parse_chat_model : ChatBody → (Error → Act Proxied) → (String → Act Proxied) → Act Proxied
parse_chat_model absent fail k = k ""
parse_chat_model (unreadable x) fail k = fail x
parse_chat_model (text body) fail k =
    if trim_space body == "" then k "" else check (asks (λ e. e.unmarshal_chat body)) fail k

forward_to : String → Option ReverseProxy → Act Proxied
forward_to target none = asks λ e.
    proxy_error 503 "TARGET_INVALID" ("resolved inference target is invalid: " <> e.quote target)
forward_to target (some p) = pure (forwarded p)

forward : Resolution → Act Proxied
unfolding forward_to
forward (failed x) = pure (proxy_error 503 "MODEL_UNAVAILABLE" x)
forward panicked = pure recovered
forward (resolved target) = do p ← proxy_for_target target; forward_to target p

pub proxy : ProxyHandler → ChatBody → Act Proxied
unfolding forward
proxy h body =
    parse_chat_model body
      (λ x. pure (proxy_error 400 "INVALID_REQUEST_BODY" "invalid chat completion payload"))
      λ model. do r ← resolve_model_target h model; forward r
