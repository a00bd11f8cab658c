-- ===== src/Http/Proxy/Probe/Healthy.antt =====
-- What is left by the filter of the healthy targets.
use mathlib.Core.List.{Memᴰ}
use mathlib.Core.List.Memᴰ.{head, tail}
use tark.Common.{
  ℕ, ◌≤◌, ◌<◌, ◌≡◌, refl, arith, inl, inr, String, none, Option-cases, List, [], ◌∷◌, Bool, true,
  false, Bool-cases, ◌==◌, All, All-map, ok, Result-cases,
}
use tark.Text.{trim_space}
use tark.Http.Proxy.Table.{evict_proxy_target}
use tark.Http.Proxy.Probe.{
  probe_address, dial_probe, is_target_healthy, keep_or_evict, prepend_if, filter_healthy_targets,
}
use tark.System.Env.{Env, Url}
use tark.System.Act.{World, ◌>>=◌, ◌>>◌, pure, asks, request, check, branch}
use tark.System.Quiet.{Quiet, Quiet-pure, Quiet-bind, Quiet-then, quiet_rules}

-- The address of the target answered a dial, at a moment from `first` on and before `last`.
pub record Probed (e : Env) (first last : ℕ) (target : String) : Type 0 where
  pub url : Url
  pub moment : ℕ
  pub parsed : e.parse_url (trim_space target) ≡ ok url
  pub after : first ≤ moment
  pub before : moment < last
  pub answered : e.dial moment (probe_address url) ≡ none

pub Probed-widen :
    (e : Env) (first last first' last' : ℕ) (target : String)
    → first' ≤ first
    → last ≤ last'
    → Probed e first last target
    → Probed e first' last' target
Probed-widen e first last first' last' target a b p = record {
  url = p.url;
  moment = p.moment;
  parsed = p.parsed;
  after = omega (arith, p.after);
  before = omega (arith, p.before);
  answered = p.answered;
}

dial_probe-Quiet : (address : String) → Quiet (dial_probe address)
unfolding dial_probe
dial_probe-Quiet address = search quiet_rules

is_target_healthy-Quiet : (target : String) → Quiet (is_target_healthy target)
unfolding is_target_healthy
is_target_healthy-Quiet target = search (quiet_rules, dial_probe-Quiet)

keep_or_evict-Quiet : (target : String) (healthy : Bool) → Quiet (keep_or_evict target healthy)
unfolding keep_or_evict evict_proxy_target
keep_or_evict-Quiet target true = search quiet_rules
keep_or_evict-Quiet target false = search quiet_rules

pub filter_healthy_targets-Quiet : (targets : List String) → Quiet (filter_healthy_targets targets)
unfolding filter_healthy_targets
filter_healthy_targets-Quiet [] = Quiet-pure []
filter_healthy_targets-Quiet (target ∷ targets) =
    Quiet-bind _ _ (is_target_healthy-Quiet target) λ healthy.
      Quiet-then _ _ (keep_or_evict-Quiet target healthy)
        (Quiet-bind _ _ (filter_healthy_targets-Quiet targets) λ rest. Quiet-pure _)

module _ (e : Env) where
  dial_probe-answered :
      (w : World) (address : String)
      → (dial_probe address e w).0 ≡ true
      → (e.dial w.moment address ≡ none) × (w.moment < (dial_probe address e w).1.moment)
  unfolding dial_probe check branch request pure ◌>>=◌
  dial_probe-answered w address h = elim (Option-cases (e.dial w.moment address)) [
    | inl answer ↦ (answer, rw answer (omega arith))
    | inr (x, refused) ↦ cc (rw refused at h)
  ]

  healthy-Probed :
      (w : World) (target : String)
      → (is_target_healthy target e w).0 ≡ true
      → Probed e w.moment (is_target_healthy target e w).1.moment target
  unfolding is_target_healthy check branch asks pure ◌>>=◌
  healthy-Probed w target h = elim (Result-cases (e.parse_url (trim_space target))) [
    | inr (x, bad) ↦ cc (rw bad at h)
    | inl (url, parsed) ↦ elim (Bool-cases (url.host == "")) [
      | inl empty ↦ cc (rw (parsed, empty) at h)
      | inr given ↦
          let (answer, later) =
            dial_probe-answered w (probe_address url) (rw (parsed, given) at h) in
          rw (parsed, given)
            (record {
              url = url;
              moment = w.moment;
              parsed = parsed;
              after = omega arith;
              before = later;
              answered = answer;
            })
    ]
  ]

  prepend :
      (healthy : Bool) (targets : List String) (target : String) (w : World) (last : ℕ)
      (rest : List String)
      → (healthy ≡ true → Probed e w.moment last target)
      → All (λ t. Probed e w.moment last t × Memᴰ t (target ∷ targets)) rest
      → All
          (λ t. Probed e w.moment last t × Memᴰ t (target ∷ targets))
          (prepend_if healthy target rest)
  prepend true targets target w last rest p ps = ((p refl, head refl), ps)
  prepend false targets target w last rest p ps = ps

  -- Each target that is left is one that was given, and has answered.
  pub filter_healthy_targets-Probed :
      (targets : List String) (w : World)
      → All
          (λ t. Probed e w.moment (filter_healthy_targets targets e w).1.moment t × Memᴰ t targets)
          (filter_healthy_targets targets e w).0
  unfolding filter_healthy_targets ◌>>=◌ ◌>>◌ pure
  filter_healthy_targets-Probed [] w = tt
  filter_healthy_targets-Probed (target ∷ targets) w =
      let (healthy, w1) = is_target_healthy target e w in
      let w2 : World = (keep_or_evict target healthy e w1).1 in
      let first = (is_target_healthy-Quiet target).forward e w in
      let second = (keep_or_evict-Quiet target healthy).forward e w1 in
      let third = (filter_healthy_targets-Quiet targets).forward e w2 in
      prepend healthy targets target w (filter_healthy_targets targets e w2).1.moment
        (filter_healthy_targets targets e w2).0
        (λ h.
          Probed-widen e w.moment w1.moment w.moment (filter_healthy_targets targets e w2).1.moment
            target (omega arith) (omega (arith, second, third)) (healthy-Probed w target h))
        (All-map _ _ (filter_healthy_targets targets e w2).0
          (λ t p. (
            Probed-widen e w2.moment (filter_healthy_targets targets e w2).1.moment w.moment
                (filter_healthy_targets targets e w2).1.moment t (omega (arith, first, second))
                (omega arith) p.0,
            tail p.1,
          ))
          (filter_healthy_targets-Probed targets w2))
