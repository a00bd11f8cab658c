-- ===== src/Http/Proxy/Forward.antt =====
-- Chat requests, the table of proxies and the database.
use tark.Common.{String, Error, Option, none, some, ◌≡◌}
use tark.Http.Proxy.Table.Kept.{Sectioned, sectioned_rules, proxy_for_target-Sectioned}
use tark.Http.Proxy.Resolve.{ProxyHandler, Resolution, resolved, failed, panicked}
use tark.Http.Proxy.Resolve.Kept.{resolve_model_target-Sectioned}
use tark.Http.Proxy.{
  ChatBody, absent, unreadable, text, Proxied, parse_chat_model, forward_to, forward, proxy,
}
use tark.System.Env.{Env}
use tark.System.Act.{Act, World, ReverseProxy}

parse_chat_model-Sectioned :
    (body : ChatBody) (fail : Error → Act Proxied) (k : String → Act Proxied)
    → ((x : Error) → Sectioned (fail x))
    → ((model : String) → Sectioned (k model))
    → Sectioned (parse_chat_model body fail k)
unfolding parse_chat_model
parse_chat_model-Sectioned absent fail k sf sk = sk ""
parse_chat_model-Sectioned (unreadable x) fail k sf sk = sf x
parse_chat_model-Sectioned (text body) fail k sf sk = search sectioned_rules

forward_to-Sectioned : (target : String) (p : Option ReverseProxy) → Sectioned (forward_to target p)
unfolding forward_to
forward_to-Sectioned target none = search sectioned_rules
forward_to-Sectioned target (some p) = search sectioned_rules

forward-Sectioned : (r : Resolution) → Sectioned (forward r)
unfolding forward
forward-Sectioned (failed x) = search sectioned_rules
forward-Sectioned panicked = search sectioned_rules
forward-Sectioned (resolved target) =
    search (sectioned_rules, proxy_for_target-Sectioned, forward_to-Sectioned)

pub proxy-Sectioned : (h : ProxyHandler) (body : ChatBody) → Sectioned (proxy h body)
unfolding proxy
proxy-Sectioned h body =
    search
      (
        sectioned_rules, parse_chat_model-Sectioned, resolve_model_target-Sectioned,
        forward-Sectioned,
      )
      depth 9

-- A chat request leaves the database as it is.
pub proxy_unchanged :
    (h : ProxyHandler) (body : ChatBody) (e : Env) (w : World) → (proxy h body e w).1.db ≡ w.db
proxy_unchanged h body = (proxy-Sectioned h body).same_db
