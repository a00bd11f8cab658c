-- ===== src/Http/Deploy/Queued.antt =====
-- The 202s of PostDeploy and HandleDeleteDeployment.
use tark.Common.{
  Bool-cases, String, Option, none, some, inl, inr, arith, Error, Result, ◌==◌, Result-cases,
}
use tark.Models.{Uuid, Cluster, Deployment}
use tark.Models.ClusterStatus
use tark.Queue.{task_type_deploy_model, task_type_delete_model, queue_model_deploy}
use tark.Queue.Tasks.{new_deploy_model_task, new_delete_model_task}
use tark.Queue.Client.{enqueue_deploy, enqueue_delete_model}
use tark.Http.ApiError.{Response, respond, bad_request, internal}
use tark.Http.Queued.{
  Accepts, Refuses, Accepts-refusal, Accepts-bind, Accepts-bind_after, Accepts-task, accepts_rules,
}
use tark.Http.Provision.{Incoming}
use tark.Http.Provision.Queued.{accept-Accepts}
use tark.Http.Deploy.{
  DeployRequest, Resolved, resolved, refused, active_or_refused, first_or_refused, resolve_given,
  resolve_default, resolve_cluster_id, deploy_to, deploy_resolved, deploy_model, post_deploy,
  enqueue_delete, delete_found, handle_delete_deployment, handle_list_deployments,
}
use tark.System.Env.{Env}
use tark.System.Act.{Act, World, ◌>>=◌, pure, check, branch}

abbrev Deploys : Act Response → Type 0
Deploys m = Accepts task_type_deploy_model queue_model_deploy m

abbrev Deletes : Act Response → Type 0
Deletes m = Accepts task_type_delete_model queue_model_deploy m

deploy_to-Accepts : (req : DeployRequest) (id : Uuid) → Deploys (deploy_to req id)
unfolding deploy_to new_deploy_model_task enqueue_deploy
deploy_to-Accepts req id = search (accepts_rules, Accepts-task) depth 20

-- An error that a cluster is refused with is none of 202.
abbrev NotAccepted : Resolved → Type 0
NotAccepted (resolved id) = Unit
NotAccepted (refused x) = Refuses x.status

record Yields (m : Act Resolved) : Type 0 where
  at : (e : Env) (w : World) → NotAccepted (m e w).0

Yields-pure : (r : Resolved) → NotAccepted r → Yields (pure r)
unfolding pure
Yields-pure r h = record { at = λ e w. h }

Yields-check :
    {A : Type 0} (m : Act (Result A)) (fail : Error → Act Resolved) (k : A → Act Resolved)
    → ((x : Error) → Yields (fail x))
    → ((a : A) → Yields (k a))
    → Yields (check m fail k)
unfolding check branch ◌>>=◌
Yields-check m fail k yf yk = record {
  at = λ e w. elim (Result-cases (m e w).0) [
    | inl (a, good) ↦ rw good ((yk a).at e _)
    | inr (x, bad) ↦ rw bad ((yf x).at e _)
  ];
}

active-NotAccepted : (id : Uuid) (c : Cluster) → NotAccepted (active_or_refused id c)
unfolding active_or_refused bad_request
active-NotAccepted id c = elim (Bool-cases (c.status == ClusterStatus.active)) [
  | inl active ↦ rw active tt
  | inr other ↦ rw other (inr (omega arith))
]

first-NotAccepted : (o : Option Cluster) → NotAccepted (first_or_refused o)
unfolding first_or_refused bad_request
first-NotAccepted (some c) = tt
first-NotAccepted none = inr (omega arith)

given-Yields : (text : String) → Yields (resolve_given text)
unfolding resolve_given bad_request
given-Yields text =
    Yields-check _ _ _ (λ x. Yields-pure _ (inr (omega arith)))
      λ id.
        Yields-check _ _ _ (λ x. Yields-pure _ (inr (omega arith)))
          λ c. Yields-pure _ (active-NotAccepted id c)

default-Yields : Yields resolve_default
unfolding resolve_default internal
default-Yields =
    Yields-check _ _ _ (λ x. Yields-pure _ (inr (omega arith)))
      λ org.
        Yields-check _ _ _ (λ x. Yields-pure _ (inr (omega arith)))
          λ cs. Yields-pure _ (first-NotAccepted _)

resolve_cluster_id-Yields : (raw : String) → Yields (resolve_cluster_id raw)
unfolding resolve_cluster_id
resolve_cluster_id-Yields raw = elim (Bool-cases (raw == "")) [
  | inl blank ↦ rw blank default-Yields
  | inr text ↦ rw text (given-Yields raw)
]

deploy_resolved-Accepts :
    (req : DeployRequest) (r : Resolved) → NotAccepted r → Deploys (deploy_resolved req r)
unfolding deploy_resolved respond
deploy_resolved-Accepts req (resolved id) h = deploy_to-Accepts req id
deploy_resolved-Accepts req (refused x) h = Accepts-refusal _ h

deploy_model-Accepts : (given : DeployRequest) → Deploys (deploy_model given)
unfolding deploy_model
deploy_model-Accepts given = Accepts-bind _ _ λ req.
    Accepts-bind_after NotAccepted _ _ (resolve_cluster_id-Yields req.cluster_id).at
      (deploy_resolved-Accepts req)

pub post_deploy-Accepts : (incoming : Incoming DeployRequest) → Deploys (post_deploy incoming)
unfolding post_deploy
post_deploy-Accepts incoming = accept-Accepts _ _ incoming deploy_model deploy_model-Accepts

enqueue_delete-Accepts : (id : Uuid) (d : Deployment) → Deletes (enqueue_delete id d)
unfolding enqueue_delete new_delete_model_task enqueue_delete_model
enqueue_delete-Accepts id d = search (accepts_rules, Accepts-task) depth 14

pub handle_delete_deployment-Accepts : (text : String) → Deletes (handle_delete_deployment text)
unfolding handle_delete_deployment delete_found
handle_delete_deployment-Accepts text = search (accepts_rules, enqueue_delete-Accepts) depth 9

pub handle_list_deployments-Accepts : (t q : String) → Accepts t q handle_list_deployments
unfolding handle_list_deployments
handle_list_deployments-Accepts t q = search accepts_rules
