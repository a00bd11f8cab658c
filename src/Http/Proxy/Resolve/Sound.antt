-- ===== src/Http/Proxy/Resolve/Sound.antt =====
-- What is known of a target that resolveModelTarget returns.
use mathlib.Core.List.{Memᴰ}
use tark.Common.{
  ℕ, ◌≡◌, refl, ◌⊎◌, inl, inr, String, List, Bool, true, false, ◌==◌, All, All-map, ok,
  Result-cases,
}
use tark.Common.Members.{All-self}
use tark.Text.{trim_space}
use tark.Cache.{model_targets_key}
use tark.Store.Select.{select_active_targets}
use tark.Http.Proxy.Probe.Healthy.{Probed}
use tark.Http.Proxy.Resolve.{
  ProxyHandler, Resolution, resolved, found, decode_reply, read_reply, read_targets_from_cache,
  resolve_named, resolve_model_target,
}
use tark.System.Env.{Env, RedisReply}
use tark.System.Act.{World, ◌>>=◌, pure, asks, request, check, branch}
use tark.Http.Proxy.Resolve.Quiet.{read_targets_from_cache-Quiet}
use tark.Http.Proxy.Resolve.Within.{IsSound, from_cache-Resolves}

-- The target is in the list that the cache gave for the model, or among the model's active targets.
abbrev pub Listed : Env → World → String → String → Type 0
Listed e w model t =
    ((raw : String) × (ts : List String) × (e.redis_get w.moment
          (model_targets_key e.lower_rune model)
        ≡ RedisReply.value raw)
      × (e.unmarshal_targets raw ≡ ok ts)
      × Memᴰ t ts)
    ⊎ Memᴰ t (select_active_targets model w.db)

found-injective : {xs ys : List String} → found xs ≡ found ys → xs ≡ ys
found-injective h = cc

decode_reply-found :
    (e : Env) (w : World) (reply : RedisReply) (ts : List String)
    → (decode_reply reply e w).0 ≡ found ts
    → (raw : String) × (reply ≡ RedisReply.value raw) × (e.unmarshal_targets raw ≡ ok ts)
unfolding decode_reply check asks branch pure ◌>>=◌
decode_reply-found e w RedisReply.nil ts h = cc
decode_reply-found e w (RedisReply.failed x) ts h = cc
decode_reply-found e w (RedisReply.value raw) ts h = elim (Result-cases (e.unmarshal_targets raw)) [
  | inl (us, read) ↦
      let same : us ≡ ts = found-injective (rw read at h) in (raw, refl, rw same at read)
  | inr (x, bad) ↦ cc (rw bad at h)
]

module _ (h : ProxyHandler) (model : String) (e : Env) (w : World) where
  read-Listed :
      (has_cache : Bool) (ts : List String)
      → (read_targets_from_cache (record h { has_cache = has_cache }) model e w).0 ≡ found ts
      → All (Listed e w model) ts
  unfolding read_targets_from_cache read_reply pure asks request ◌>>=◌
  read-Listed false ts read = cc
  read-Listed true ts read =
      let (raw, reply, decoded) =
        decode_reply-found e _ (e.redis_get w.moment (model_targets_key e.lower_rune model)) ts
          read in
      All-map _ _ ts (λ t m. inl (raw, ts, reply, decoded, m)) (All-self ts)

  named-IsSound :
      IsSound e w.moment
        (Listed e w model)
        (resolve_named h model e w).0
        (resolve_named h model e w).1.moment
  unfolding resolve_named ◌>>=◌
  named-IsSound =
      let (cached, w') = read_targets_from_cache h model e w in
      (from_cache-Resolves e w.moment w.db (Listed e w model) h model
          (All-map _ _ (select_active_targets model w.db) (λ t m. inr m)
            (All-self (select_active_targets model w.db)))
          cached (λ ts same. read-Listed h.has_cache ts same)).at
        w' ((read_targets_from_cache-Quiet h model).forward e w)
        ((read_targets_from_cache-Quiet h model).unchanged e w)

resolved-IsSound :
    (e : Env) (first last : ℕ) (S : String → Type 0) (r : Resolution) (t : String)
    → r ≡ resolved t
    → IsSound e first S r last
    → Probed e first last t × S t
resolved-IsSound e first last S r t same sound = rw same at sound

-- Whatever the outside answers, a target that is resolved for a model that is not blank is in the list that
-- the cache gave for the model, or is the URL of an active deployment of the model on an active
-- cluster; and its address answered a dial during the resolution.
pub resolve_model_target-Probed :
    (h : ProxyHandler) (model : String) (e : Env) (w : World) (target : String)
    → (trim_space model == "") ≡ false
    → (resolve_model_target h model e w).0 ≡ resolved target
    → Probed e w.moment (resolve_model_target h model e w).1.moment target
      × Listed e w (trim_space model) target
unfolding resolve_model_target
resolve_model_target-Probed h model e w target named r = rw named (
    resolved-IsSound e w.moment _ (Listed e w (trim_space model)) _ target (rw named at r)
      (named-IsSound h (trim_space model) e w))
