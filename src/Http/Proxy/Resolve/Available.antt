-- ===== src/Http/Proxy/Resolve/Available.antt =====
-- When a target is found.
use mathlib.Core.List.{Memᴰ}
use mathlib.Core.List.Memᴰ.{head, tail}
use mathlib.Core.Path.{subst, sym}
use tark.Common.{
  ℕ, ◌<◌, ◌≡◌, refl, ap, arith, String, none, List, [], ◌∷◌, Bool, true, false, ◌==◌, length, ok,
  if◌then◌else◌,
}
use tark.Text.{trim_space}
use tark.Store.Methods.{list_active_deployment_targets}
use tark.Store.Select.{select_active_targets}
use tark.Http.Proxy.Probe.{
  probe_address, dial_probe, is_target_healthy, prepend_if, filter_healthy_targets,
}
use tark.Http.Proxy.Probe.Healthy.{filter_healthy_targets-Quiet}
use tark.Http.Proxy.Select.Picked.{Counts, select_round_robin_target-some}
use tark.Http.Proxy.Resolve.{
  ProxyHandler, Resolution, resolved, resolution, Cached, found, missing, broken, select_from,
  use_discovered, discovered, discover, use_cached, from_cache, resolve_named, resolve_model_target,
}
use tark.Http.Proxy.Resolve.Quiet.{invalidate_model_cache-Quiet, read_targets_from_cache-Quiet}
use tark.System.Env.{Env, Url}
use tark.System.Act.{Act, World, ◌>>=◌, ◌>>◌, pure, asks, request, check, branch, query, attempt}
use tark.System.Ensures.{IsUp, store_fault-none}

-- The target has a host, at which every dial is answered.
pub record Answers (e : Env) (target : String) : Type 0 where
  pub url : Url
  pub parsed : e.parse_url (trim_space target) ≡ ok url
  pub has_host : (url.host == "") ≡ false
  pub answers : (n : ℕ) → e.dial n (probe_address url) ≡ none

module _ (e : Env) (t : String) (alive : Answers e t) where
  is_target_healthy-Answers : (w : World) → (is_target_healthy t e w).0 ≡ true
  unfolding is_target_healthy dial_probe check branch asks request pure ◌>>=◌
  is_target_healthy-Answers w =
      rw (alive.parsed, branch, alive.has_host, alive.answers w.moment) refl

  prepend_if-Mem :
      (b : Bool) (x : String) (xs : List String) → Memᴰ t xs → Memᴰ t (prepend_if b x xs)
  prepend_if-Mem true x xs m = tail m
  prepend_if-Mem false x xs m = m

  prepend_if-here :
      (b : Bool) (x : String) (xs : List String) → b ≡ true → t ≡ x → Memᴰ t (prepend_if b x xs)
  prepend_if-here true x xs h same = head same
  prepend_if-here false x xs h same = cc

  filter_healthy_targets-Mem :
      (targets : List String) (w : World)
      → Memᴰ t targets
      → Memᴰ t (filter_healthy_targets targets e w).0
  unfolding filter_healthy_targets ◌>>=◌ ◌>>◌ pure
  filter_healthy_targets-Mem [] w m = elim m [ ]
  filter_healthy_targets-Mem (x ∷ xs) w (head same) =
      prepend_if-here (is_target_healthy x e w).0 x _
        (subst (λ s. (is_target_healthy s e w).0 ≡ true) same (is_target_healthy-Answers w)) same
  filter_healthy_targets-Mem (x ∷ xs) w (tail m) =
      prepend_if-Mem _ x _ (filter_healthy_targets-Mem xs _ m)

abbrev Resolves : Resolution → Type 0
Resolves r = (target : String) × (r ≡ resolved target)

chosen :
    (e : Env) (w : World) (b : Bool) (m n : Act Resolution)
    → b ≡ true
    → Resolves (m e w).0
    → Resolves ((if b then m else n) e w).0
chosen e w true m n yes_ r = r
chosen e w false m n yes_ r = cc

module _ (e : Env) (h : ProxyHandler) (model : String) (counts : Counts e model) where
  select_from-Resolves :
      (ts : List String) (w : World) → 0 < length ts → Resolves (select_from h model ts e w).0
  unfolding select_from ◌>>=◌ pure
  select_from-Resolves ts w some_left =
      let (target, picked) =
        select_round_robin_target-some e w model h.has_cache ts some_left counts in
      (target, ap resolution picked)

  module _ (t : String) (alive : Answers e t) where
    use_discovered-Resolves :
        (ts : List String) (w : World) → Memᴰ t ts → Resolves (use_discovered h model ts e w).0
    unfolding use_discovered ◌>>◌
    use_discovered-Resolves [] w m = elim m [ ]
    use_discovered-Resolves (x ∷ xs) w m = select_from-Resolves (x ∷ xs) _ (omega arith)

    discovered-Resolves :
        (ts : List String) (w : World) → Memᴰ t ts → Resolves (discovered h model ts e w).0
    unfolding discovered ◌>>=◌
    discovered-Resolves [] w m = elim m [ ]
    discovered-Resolves (x ∷ xs) w m =
        use_discovered-Resolves _ _ (filter_healthy_targets-Mem e t alive (x ∷ xs) w m)

    module _ (up : IsUp e) (stored : h.has_store ≡ true) where
      discover-Resolves :
          (w : World)
          → Memᴰ t (select_active_targets model w.db)
          → Resolves (discover h model e w).0
      unfolding discover list_active_deployment_targets query attempt check branch ◌>>=◌
      discover-Resolves w m = chosen e w h.has_store _ _ stored (
          rw (store_fault-none e up w.moment, branch, attempt)
            (discovered-Resolves (select_active_targets model w.db) _ m))

      use_cached-Resolves :
          (cached ts : List String) (w : World)
          → Memᴰ t (select_active_targets model w.db)
          → Resolves (use_cached h model cached ts e w).0
      unfolding use_cached ◌>>◌
      use_cached-Resolves cached [] w m = discover-Resolves _ (
          subst (λ db. Memᴰ t (select_active_targets model db))
            (sym ((invalidate_model_cache-Quiet h model).unchanged e w)) m)
      use_cached-Resolves cached (x ∷ xs) w m = select_from-Resolves (x ∷ xs) _ (omega arith)

      from_cache-Resolves :
          (cached : Cached) (w : World)
          → Memᴰ t (select_active_targets model w.db)
          → Resolves (from_cache h model cached e w).0
      unfolding from_cache ◌>>=◌
      from_cache-Resolves missing w m = discover-Resolves w m
      from_cache-Resolves (broken x) w m = discover-Resolves w m
      from_cache-Resolves (found []) w m = discover-Resolves w m
      from_cache-Resolves (found (x ∷ xs)) w m = use_cached-Resolves (x ∷ xs) _ _ (
          subst (λ db. Memᴰ t (select_active_targets model db))
            (sym ((filter_healthy_targets-Quiet (x ∷ xs)).unchanged e w)) m)

      resolve_named-Resolves :
          (w : World)
          → Memᴰ t (select_active_targets model w.db)
          → Resolves (resolve_named h model e w).0
      unfolding resolve_named ◌>>=◌
      resolve_named-Resolves w m = from_cache-Resolves _ _ (
          subst (λ db. Memᴰ t (select_active_targets model db))
            (sym ((read_targets_from_cache-Quiet h model).unchanged e w)) m)

-- While the database is up, the request's context does not end and INCR's replies for the model are
-- positive, a model with an active deployment on an active cluster whose address answers is
-- resolved to a target, whatever else Redis answers or fails to.
pub resolve_model_target-Resolves :
    (e : Env) (h : ProxyHandler) (model t : String) (w : World)
    → IsUp e
    → h.has_store ≡ true
    → Counts e (trim_space model)
    → (trim_space model == "") ≡ false
    → Memᴰ t (select_active_targets (trim_space model) w.db)
    → Answers e t
    → (target : String) × ((resolve_model_target h model e w).0 ≡ resolved target)
unfolding resolve_model_target
resolve_model_target-Resolves e h model t w up stored counts named m alive =
    rw named (resolve_named-Resolves e h (trim_space model) counts t alive up stored w m)
