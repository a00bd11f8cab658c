-- ===== src/Kube/Client/Ensured.antt =====
-- What is there once DeployModel has returned nil, and what is gone once DeleteModel has.
use tark.Common.{
  ℕ, suc, ◌≤◌, ◌≡◌, refl, arith, String, Option, none, some, Error, Result, ok, err, Result-cases,
  inl, inr, ◌⊎◌,
}
use tark.Kube.Objects.{KubeKind, deployments, services, KubeObject, workload, service}
use tark.Kube.Client.{
  ModelConfig, default_name, model_workload, model_service, from_kube, create, unless_found, ensure,
  deploy_model, unless_failed, remove, delete_model,
}
use tark.System.Env.{Env, KubeError, not_found, other}
use tark.System.Quiet.{Quiet, quiet_rules}
use tark.System.Act.{Act, World, ◌>>=◌, pure, request, check, branch}

-- At some moment from `first` on the API server had the object, or had none and took it in.
pub record IsThere (e : Env) (first : ℕ) (kind : KubeKind) (namespace name : String)
    (object : KubeObject) : Type 0 where
  pub moment : ℕ
  pub later : first ≤ moment
  pub outcome :
      (e.kube_get moment kind namespace name ≡ none)
      ⊎ ((x : Error) × (e.kube_get moment kind namespace name ≡ some (not_found x))
          × (e.kube_create (suc moment) object ≡ none))

-- At some moment from `first` on the API server deleted the object, or had none.
pub record IsGone (e : Env) (first : ℕ) (kind : KubeKind) (namespace name : String) : Type 0 where
  pub moment : ℕ
  pub later : first ≤ moment
  pub outcome :
      (e.kube_delete moment kind namespace name ≡ none)
      ⊎ ((x : Error) × (e.kube_delete moment kind namespace name ≡ some (not_found x)))

from_kube-none : (o : Option KubeError) → from_kube o ≡ ok tt → o ≡ none
unfolding from_kube
from_kube-none none h = refl
from_kube-none (some (not_found x)) h = cc
from_kube-none (some (other x)) h = cc

module _ (e : Env) (kind : KubeKind) (namespace name : String) where
  unless_found-IsThere :
      (object : KubeObject) (n : ℕ) (w : World) (o : Option KubeError)
      → e.kube_get n kind namespace name ≡ o
      → w.moment ≡ suc n
      → (unless_found o (create object) e w).0 ≡ ok tt
      → IsThere e n kind namespace name object
  unfolding unless_found create request pure
  unless_found-IsThere object n w none got after h = record {
    moment = n;
    later = omega arith;
    outcome = inl got;
  }
  unless_found-IsThere object n w (some (not_found x)) got after h = record {
    moment = n;
    later = omega arith;
    outcome = inr (x, got, rw after at (from_kube-none _ h));
  }
  unless_found-IsThere object n w (some (other x)) got after h = cc

  ensure-IsThere :
      (object : KubeObject) (w : World)
      → (ensure kind namespace name object e w).0 ≡ ok tt
      → IsThere e w.moment kind namespace name object
  unfolding ensure request ◌>>=◌
  ensure-IsThere object w h = unless_found-IsThere object w.moment _ _ refl refl h

  unless_failed-gone :
      (o : Option KubeError)
      → unless_failed o ≡ ok tt
      → (o ≡ none) ⊎ ((x : Error) × (o ≡ some (not_found x)))
  unfolding unless_failed
  unless_failed-gone none h = inl refl
  unless_failed-gone (some (not_found x)) h = inr (x, refl)
  unless_failed-gone (some (other x)) h = cc

  remove-IsGone :
      (w : World)
      → (remove kind namespace name e w).0 ≡ ok tt
      → IsGone e w.moment kind namespace name
  unfolding remove request
  remove-IsGone w h = record {
    moment = w.moment;
    later = omega arith;
    outcome = unless_failed-gone _ h;
  }

  IsThere-widen :
      (object : KubeObject) (first last : ℕ)
      → first ≤ last
      → IsThere e last kind namespace name object
      → IsThere e first kind namespace name object
  IsThere-widen object first last late h = record {
    moment = h.moment;
    later = omega (arith, late, h.later);
    outcome = h.outcome;
  }

  IsGone-widen :
      (first last : ℕ)
      → first ≤ last
      → IsGone e last kind namespace name
      → IsGone e first kind namespace name
  IsGone-widen first last late h = record {
    moment = h.moment;
    later = omega (arith, late, h.later);
    outcome = h.outcome;
  }

-- Two calls, the second after the first has returned nil.
check-ok :
    (m n : Act (Result (Unit {0}))) (e : Env) (w : World)
    → (check m (λ x. pure (err x)) (λ done. n) e w).0 ≡ ok tt
    → ((m e w).0 ≡ ok tt) × ((n e (m e w).1).0 ≡ ok tt)
unfolding check branch ◌>>=◌ pure
check-ok m n e w h = elim (Result-cases (m e w).0) [
  | inl (done, first) ↦ (first, rw first at h)
  | inr (x, bad) ↦ cc (rw bad at h)
]

unless_found-Quiet :
    (o : Option KubeError) (object : KubeObject) → Quiet (unless_found o (create object))
unfolding unless_found create
unless_found-Quiet none object = search quiet_rules
unless_found-Quiet (some (not_found x)) object = search quiet_rules
unless_found-Quiet (some (other x)) object = search quiet_rules

ensure-Quiet :
    (kind : KubeKind) (namespace name : String) (object : KubeObject)
    → Quiet (ensure kind namespace name object)
unfolding ensure
ensure-Quiet kind namespace name object = search (quiet_rules, unless_found-Quiet)

remove-Quiet : (kind : KubeKind) (namespace name : String) → Quiet (remove kind namespace name)
unfolding remove
remove-Quiet kind namespace name = search quiet_rules

-- What DeployModel has made sure of when it returns nil, whatever the answers: the API server had the model's
-- deployment, or had none and took it in, and so for its service.
pub deploy_model-IsThere :
    (namespace : String) (cfg : ModelConfig) (e : Env) (w : World)
    → (deploy_model namespace cfg e w).0 ≡ ok tt
    → IsThere e w.moment deployments namespace
        (default_name cfg.name)
        (workload (model_workload namespace (default_name cfg.name) cfg))
      × IsThere e w.moment services namespace
          (default_name cfg.name)
          (service (model_service namespace (default_name cfg.name) cfg))
unfolding deploy_model
deploy_model-IsThere namespace cfg e w h =
    let name = default_name cfg.name in
    let made = workload (model_workload namespace name cfg) in
    let exposed = service (model_service namespace name cfg) in
    let (first, second) =
      check-ok (ensure deployments namespace name made) (ensure services namespace name exposed) e w
        h in
    (
      ensure-IsThere e deployments namespace name made w first,
      IsThere-widen e services namespace name exposed w.moment _
          ((ensure-Quiet deployments namespace name made).forward e w)
          (ensure-IsThere e services namespace name exposed _ second),
    )

-- What DeleteModel has removed when it returns nil, whatever the answers: the service and the deployment of
-- the model were deleted, or were not there.
pub delete_model-IsGone :
    (namespace name : String) (e : Env) (w : World)
    → (delete_model namespace name e w).0 ≡ ok tt
    → IsGone e w.moment services namespace (default_name name)
      × IsGone e w.moment deployments namespace (default_name name)
unfolding delete_model
delete_model-IsGone namespace name e w h =
    let target = default_name name in
    let (first, second) =
      check-ok (remove services namespace target) (remove deployments namespace target) e w h in
    (
      remove-IsGone e services namespace target w first,
      IsGone-widen e deployments namespace target w.moment _
          ((remove-Quiet services namespace target).forward e w)
          (remove-IsGone e deployments namespace target _ second),
    )
