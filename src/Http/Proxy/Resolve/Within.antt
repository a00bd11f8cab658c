-- ===== src/Http/Proxy/Resolve/Within.antt =====
-- Targets that have answered a dial since a moment, through the steps of resolveModelTarget.
use mathlib.Core.List.{Memᴰ}
use mathlib.Core.Path.{subst}
use tark.Common.{
  ℕ, ◌≤◌, ◌≡◌, refl, sym, ◌∙◌, ap, arith, inl, inr, String, Option, none, some, List, [], ◌∷◌, Bool,
  true, false, All, All-map, Error, ok, Result-cases, if◌then◌else◌,
}
use tark.Common.Members.{All-Mem}
use tark.Store.{Database}
use tark.Store.Select.{select_active_targets}
use tark.Store.Methods.{list_active_deployment_targets}
use tark.Http.Proxy.Probe.{filter_healthy_targets}
use tark.Http.Proxy.Probe.Healthy.{
  Probed, Probed-widen, filter_healthy_targets-Quiet, filter_healthy_targets-Probed,
}
use tark.Http.Proxy.Select.{select_round_robin_target}
use tark.Http.Proxy.Select.Picked.{select_round_robin_target-Quiet, select_round_robin_target-Mem}
use tark.Http.Proxy.Resolve.{
  ProxyHandler, Resolution, resolved, failed, panicked, resolution, Cached, found, missing, broken,
  set_targets_in_cache, select_from, use_discovered, discovered, discover, use_cached, from_cache,
}
use tark.System.Env.{Env}
use tark.System.Act.{
  store_fault, Act, World, ◌>>=◌, ◌>>◌, pure, asks, check, branch, query, attempt,
}
use tark.System.Keeps.{attempt-eq-ok}
use tark.Common.Results.{ok-injective}
use tark.System.Quiet.{Quiet, Quiet-pure, Quiet-if}
use tark.Http.Proxy.Resolve.Quiet.{invalidate_model_cache-Quiet, set_targets_in_cache-Quiet}

abbrev pub IsSound : Env → ℕ → (String → Type 0) → Resolution → ℕ → Type 0
IsSound e first S (resolved t) last = Probed e first last t × S t
IsSound e first S (failed x) last = Unit
IsSound e first S panicked last = Unit

-- From a world at `first` or later with these tables, what is resolved is sound.
pub record Resolves (e : Env) (first : ℕ) (db : Database) (S : String → Type 0) (m : Act Resolution)
    : Type 0 where
  pub at : (w : World) → first ≤ w.moment → w.db ≡ db → IsSound e first S (m e w).0 (m e w).1.moment

module _ (e : Env) (first : ℕ) (db : Database) (S : String → Type 0) where
  -- The targets have answered so far.
  abbrev Answered : List String → ℕ → Type 0
  Answered ts now = All (λ t. Probed e first now t × S t) ts

  Resolves-bind :
      {A : Type 0} (m : Act A) (f : A → Act Resolution)
      → Quiet m
      → ((a : A) → Resolves e first db S (f a))
      → Resolves e first db S (m >>= f)
  unfolding ◌>>=◌
  Resolves-bind m f q r = record {
    at = λ w late same.
        let (a, w') = m e w in
        (r a).at w' (omega (arith, late, q.forward e w)) (q.unchanged e w ∙ same);
  }

  Resolves-then :
      {A : Type 0} (m : Act A) (n : Act Resolution)
      → Quiet m
      → Resolves e first db S n
      → Resolves e first db S (m >> n)
  unfolding ◌>>◌
  Resolves-then m n q r = record {
    at =
        λ w late same. r.at (m e w).1 (omega (arith, late, q.forward e w)) (q.unchanged e w ∙ same);
  }

  Resolves-failed : (f : Env → Error) → Resolves e first db S (asks λ e. failed (f e))
  unfolding asks
  Resolves-failed f = record { at = λ w late same. tt }

  resolution-IsSound :
      (o : Option String) (ts : List String) (last : ℕ)
      → Answered ts last
      → ((t : String) → o ≡ some t → Memᴰ t ts)
      → IsSound e first S (resolution o) last
  resolution-IsSound none ts last h mem = tt
  resolution-IsSound (some t) ts last h mem =
      let (y, p, same) = All-Mem _ ts h (mem t refl) in
      subst (λ z. Probed e first last z × S z) (sym same) p

  Answered-later :
      (ts : List String) (now later : ℕ) → now ≤ later → Answered ts now → Answered ts later
  Answered-later ts now later more h =
      All-map _ _ ts (λ t p. (Probed-widen e first now first later t (omega arith) more p.0, p.1)) h

  module _ (h : ProxyHandler) (model : String) where
    select_from-IsSound :
        (ts : List String) (w : World)
        → Answered ts w.moment
        → IsSound e first S (select_from h model ts e w).0 (select_from h model ts e w).1.moment
    unfolding select_from ◌>>=◌ pure
    select_from-IsSound ts w ps =
        resolution-IsSound (select_round_robin_target h.has_cache model ts e w).0 ts
          (select_round_robin_target h.has_cache model ts e w).1.moment
          (Answered-later ts w.moment _
            ((select_round_robin_target-Quiet h.has_cache model ts).forward e w) ps)
          (λ t picked. select_round_robin_target-Mem e w h.has_cache model ts picked)

    filtered :
        (ts : List String) (w : World)
        → first ≤ w.moment
        → All S ts
        → Answered (filter_healthy_targets ts e w).0 (filter_healthy_targets ts e w).1.moment
    filtered ts w late listed =
        All-map _ _ (filter_healthy_targets ts e w).0
          (λ t p.
            let (y, s, same) = All-Mem S ts listed p.1 in
            (
              Probed-widen e w.moment (filter_healthy_targets ts e w).1.moment first _ t late
                  (omega arith) p.0,
              subst S (sym same) s,
            ))
          (filter_healthy_targets-Probed e ts w)

    -- After a quiet step, the choice is still among targets that have answered.
    quiet_select :
        (m : Act (Unit {0})) (ts : List String) (w : World)
        → Quiet m
        → Answered ts w.moment
        → IsSound e first S
            ((m >> select_from h model ts) e w).0
            ((m >> select_from h model ts) e w).1.moment
    unfolding ◌>>◌
    quiet_select m ts w q ps =
        select_from-IsSound ts (m e w).1 (Answered-later ts w.moment _ (q.forward e w) ps)

    use_discovered-IsSound :
        (ts : List String) (w : World)
        → Answered ts w.moment
        → IsSound e first S
            (use_discovered h model ts e w).0
            (use_discovered h model ts e w).1.moment
    unfolding use_discovered ◌>>◌ asks
    use_discovered-IsSound [] w ps = tt
    use_discovered-IsSound (t ∷ ts) w ps =
        quiet_select (set_targets_in_cache h model (t ∷ ts)) (t ∷ ts) w
          (set_targets_in_cache-Quiet h model (t ∷ ts)) ps

    discovered-Resolves :
        (ts : List String) → All S ts → Resolves e first db S (discovered h model ts)
    unfolding discovered ◌>>=◌
    discovered-Resolves [] listed = Resolves-failed _
    discovered-Resolves (t ∷ ts) listed = record {
      at = λ w late same.
          use_discovered-IsSound (filter_healthy_targets (t ∷ ts) e w).0
            (filter_healthy_targets (t ∷ ts) e w).1 (filtered (t ∷ ts) w late listed);
    }

    Resolves-if :
        (b : Bool) (m n : Act Resolution)
        → Resolves e first db S m
        → Resolves e first db S n
        → Resolves e first db S (if b then m else n)
    Resolves-if true m n rm rn = rm
    Resolves-if false m n rm rn = rn

    looked_up :
        All S (select_active_targets model db)
        → (fail : Error → Act Resolution) → ((x : Error) → Resolves e first db S (fail x))
        → Resolves e first db S
            (check (list_active_deployment_targets model) fail (discovered h model))
    unfolding list_active_deployment_targets check branch query ◌>>=◌
    looked_up listed fail failing = record {
      at = λ w late same.
          elim (Result-cases
            (attempt (store_fault e w.moment) (ok (select_active_targets model w.db)))) [
              | inr (x, down) ↦ rw down ((failing x).at _ (omega (arith, late)) same)
              | inl (ts, answer) ↦
                  let stored : ts ≡ select_active_targets model db =
                    ok-injective (sym (attempt-eq-ok _ _ answer))
                    ∙ ap (select_active_targets model) same in
                  rw answer (
                    (discovered-Resolves ts (subst (All S) (sym stored) listed)).at _
                      (omega (arith, late)) same)
            ];
    }

    discover-Resolves :
        All S (select_active_targets model db) → Resolves e first db S (discover h model)
    unfolding discover
    discover-Resolves listed =
        Resolves-if _ _ _ (looked_up listed _ λ x. Resolves-failed _) (Resolves-failed _)

    module _ (stored : All S (select_active_targets model db)) where
      use_cached-IsSound :
          (cached ts : List String) (w : World)
          → first ≤ w.moment
          → w.db ≡ db
          → Answered ts w.moment
          → IsSound e first S
              (use_cached h model cached ts e w).0
              (use_cached h model cached ts e w).1.moment
      unfolding use_cached
      use_cached-IsSound cached [] w late same ps =
          (Resolves-then _ _ (invalidate_model_cache-Quiet h model) (discover-Resolves stored)).at w
            late same
      use_cached-IsSound cached (t ∷ ts) w late same ps =
          quiet_select _ (t ∷ ts) w
            (Quiet-if _ _ _ (Quiet-pure tt) (set_targets_in_cache-Quiet h model (t ∷ ts))) ps

      pub from_cache-Resolves :
          (cached : Cached)
          → ((ts : List String) → cached ≡ found ts → All S ts)
          → Resolves e first db S (from_cache h model cached)
      unfolding from_cache ◌>>=◌
      from_cache-Resolves missing listed = discover-Resolves stored
      from_cache-Resolves (broken x) listed = discover-Resolves stored
      from_cache-Resolves (found []) listed = discover-Resolves stored
      from_cache-Resolves (found (t ∷ ts)) listed = record {
        at = λ w late same.
            use_cached-IsSound (t ∷ ts) (filter_healthy_targets (t ∷ ts) e w).0
              (filter_healthy_targets (t ∷ ts) e w).1
              (omega (arith, late, (filter_healthy_targets-Quiet (t ∷ ts)).forward e w))
              ((filter_healthy_targets-Quiet (t ∷ ts)).unchanged e w ∙ same)
              (filtered (t ∷ ts) w late (listed (t ∷ ts) refl));
      }
