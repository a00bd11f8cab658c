-- ===== src/Http/Proxy/Resolve/Total.antt =====
-- The resolution of a model does not panic.
use tark.Common.{
  ◌<◌, ◌≡◌, ◌≢◌, arith, String, Option, none, some, List, [], ◌∷◌, Bool, true, false, length, ◌==◌,
  Error, Result, ok, err, if◌then◌else◌,
}
use tark.Text.{trim_space}
use tark.Http.Proxy.Select.Picked.{Counts, select_round_robin_target-some}
use tark.Http.Proxy.Resolve.{
  ProxyHandler, Resolution, failed, panicked, resolution, Cached, found, missing, broken,
  select_from, use_discovered, discovered, discover, use_cached, from_cache, resolve_named,
  resolve_default, resolve_model_target,
}
use tark.System.Env.{Env}
use tark.System.Act.{Act, World, ◌>>=◌, ◌>>◌, pure, asks, check, branch}

record Returns (e : Env) (m : Act Resolution) : Type 0 where
  at : (w : World) → (m e w).0 ≢ panicked

module _ (e : Env) where
  Returns-asks : (f : Env → Error) → Returns e (asks λ e'. failed (f e'))
  unfolding asks
  Returns-asks f = record { at = λ w h. cc }

  Returns-if :
      (b : Bool) (m n : Act Resolution) → Returns e m → Returns e n → Returns e (if b then m else n)
  Returns-if true m n rm rn = rm
  Returns-if false m n rm rn = rn

  Returns-bind :
      {A : Type 0} (m : Act A) (f : A → Act Resolution)
      → ((a : A) → Returns e (f a))
      → Returns e (m >>= f)
  unfolding ◌>>=◌
  Returns-bind m f r = record { at = λ w h. let (a, w') = m e w in (r a).at w' h }

  Returns-then : {A : Type 0} (m : Act A) (n : Act Resolution) → Returns e n → Returns e (m >> n)
  unfolding ◌>>◌
  Returns-then m n r = record { at = λ w h. r.at (m e w).1 h }

  Returns-branch :
      {A : Type 0} (r : Result A) (fail : Error → Act Resolution) (k : A → Act Resolution)
      → ((x : Error) → Returns e (fail x))
      → ((a : A) → Returns e (k a))
      → Returns e (branch r fail k)
  unfolding branch
  Returns-branch (ok a) fail k rf rk = rk a
  Returns-branch (err x) fail k rf rk = rf x

  Returns-check :
      {A : Type 0} (m : Act (Result A)) (fail : Error → Act Resolution) (k : A → Act Resolution)
      → ((x : Error) → Returns e (fail x))
      → ((a : A) → Returns e (k a))
      → Returns e (check m fail k)
  unfolding check
  Returns-check m fail k rf rk = Returns-bind m _ λ r. Returns-branch r fail k rf rk

ruleset returns_rules = (Returns-asks, Returns-if, Returns-bind, Returns-then, Returns-check)

module _ (e : Env) (h : ProxyHandler) (model : String) (counts : Counts e model) where
  resolution-ne-panicked : (o : Option String) {t : String} → o ≡ some t → resolution o ≢ panicked
  resolution-ne-panicked none picked p = cc
  resolution-ne-panicked (some t) picked p = cc

  select_from-Returns : (ts : List String) → 0 < length ts → Returns e (select_from h model ts)
  unfolding select_from ◌>>=◌ pure
  select_from-Returns ts some_left = record {
    at = λ w.
        let (t, picked) =
          select_round_robin_target-some e w model h.has_cache ts some_left counts in
        resolution-ne-panicked _ picked;
  }

  use_discovered-Returns : (ts : List String) → Returns e (use_discovered h model ts)
  unfolding use_discovered
  use_discovered-Returns [] = search returns_rules
  use_discovered-Returns (t ∷ ts) = Returns-then e _ _ (select_from-Returns (t ∷ ts) (omega arith))

  discovered-Returns : (ts : List String) → Returns e (discovered h model ts)
  unfolding discovered
  discovered-Returns [] = search returns_rules
  discovered-Returns (t ∷ ts) = Returns-bind e _ _ use_discovered-Returns

  discover-Returns : Returns e (discover h model)
  unfolding discover
  discover-Returns = search (returns_rules, discovered-Returns)

  use_cached-Returns : (cached ts : List String) → Returns e (use_cached h model cached ts)
  unfolding use_cached
  use_cached-Returns cached [] = Returns-then e _ _ discover-Returns
  use_cached-Returns cached (t ∷ ts) =
      Returns-then e _ _ (select_from-Returns (t ∷ ts) (omega arith))

  from_cache-Returns : (cached : Cached) → Returns e (from_cache h model cached)
  unfolding from_cache
  from_cache-Returns missing = discover-Returns
  from_cache-Returns (broken x) = discover-Returns
  from_cache-Returns (found []) = discover-Returns
  from_cache-Returns (found (t ∷ ts)) = Returns-bind e _ _ (use_cached-Returns (t ∷ ts))

  named-Returns : Returns e (resolve_named h model)
  unfolding resolve_named
  named-Returns = Returns-bind e _ _ from_cache-Returns

default-Returns : (e : Env) (h : ProxyHandler) → Returns e (resolve_default h)
unfolding resolve_default pure
default-Returns e h =
    Returns-if e (h.default_target == "") _ _ (record { at = λ w p. cc })
      (record { at = λ w p. cc })

-- While INCR's replies for the model are positive, resolving a target never indexes a list out of its
-- range, whatever else the outside answers: it returns a target or an error.
pub resolve_model_target-ne-panicked :
    (h : ProxyHandler) (model : String) (e : Env) (w : World)
    → Counts e (trim_space model)
    → (resolve_model_target h model e w).0 ≢ panicked
unfolding resolve_model_target
resolve_model_target-ne-panicked h model e w counts =
    (Returns-if e (trim_space model == "") _ _ (default-Returns e h)
        (named-Returns e h (trim_space model) counts)).at
      w
