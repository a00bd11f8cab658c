-- ===== src/Http/Deploy/Keep.antt =====
-- The deployment endpoints keep the tables consistent, whatever fails on the way.
use tark.Common.{String}
use tark.Models.{Uuid, Deployment}
use tark.Queue.Tasks.Keep.{task_rules}
use tark.Queue.Client.Keep.{enqueue_rules}
use tark.Store.{Database}
use tark.Store.Consistency.{IsConsistent}
use tark.Store.Methods.Keep.{
  get_organization_by_name-Keeps, get_cluster-Keeps, list_clusters-Keeps, create_deployment-Keeps,
  get_deployment-Keeps, list_deployments-Keeps,
}
use tark.Worker.Shared.Keep.{Keeps-if}
use tark.Http.Jobs.Keep.{create_job_record-Keeps}
use tark.Http.Provision.{Incoming}
use tark.Http.Provision.Keep.{accept-Keeps}
use tark.Http.Deploy.{
  DeployRequest, Resolved, resolved, refused, resolve_given, resolve_default, resolve_cluster_id,
  deploy_to, deploy_resolved, deploy_model, post_deploy, handle_list_deployments, enqueue_delete,
  delete_found, handle_delete_deployment,
}
use tark.System.Keeps.{Keeps, keeps_rules}

module _ {P : Database → Type 0} where
  resolve_cluster_id-Keeps : (raw : String) → Keeps P (resolve_cluster_id raw)
  unfolding resolve_cluster_id resolve_given resolve_default
  resolve_cluster_id-Keeps raw =
      search
        (
          keeps_rules, Keeps-if, get_cluster-Keeps, get_organization_by_name-Keeps,
          list_clusters-Keeps,
        )
        depth 9

  enqueue_delete-Keeps : (id : Uuid) (d : Deployment) → Keeps P (enqueue_delete id d)
  unfolding enqueue_delete
  enqueue_delete-Keeps id d = search (keeps_rules, task_rules, enqueue_rules) depth 12

  delete_found-Keeps : (id : Uuid) (d : Deployment) → Keeps P (delete_found id d)
  unfolding delete_found
  delete_found-Keeps id d = search (keeps_rules, Keeps-if, enqueue_delete-Keeps)

  pub handle_delete_deployment-Keeps : (id : String) → Keeps P (handle_delete_deployment id)
  unfolding handle_delete_deployment
  handle_delete_deployment-Keeps id = search (keeps_rules, get_deployment-Keeps, delete_found-Keeps)

  pub handle_list_deployments-Keeps : Keeps P handle_list_deployments
  unfolding handle_list_deployments
  handle_list_deployments-Keeps = search (keeps_rules, list_deployments-Keeps)

deploy_to-Keeps : (req : DeployRequest) (id : Uuid) → Keeps IsConsistent (deploy_to req id)
unfolding deploy_to
deploy_to-Keeps req id =
    search
      (keeps_rules, task_rules, enqueue_rules, create_deployment-Keeps, create_job_record-Keeps)
      depth 20

deploy_resolved-Keeps :
    (req : DeployRequest) (target : Resolved) → Keeps IsConsistent (deploy_resolved req target)
unfolding deploy_resolved
deploy_resolved-Keeps req (resolved id) = deploy_to-Keeps req id
deploy_resolved-Keeps req (refused x) = search keeps_rules

deploy_model-Keeps : (req : DeployRequest) → Keeps IsConsistent (deploy_model req)
unfolding deploy_model
deploy_model-Keeps req = search (keeps_rules, resolve_cluster_id-Keeps, deploy_resolved-Keeps)

pub post_deploy-Keeps :
    (incoming : Incoming DeployRequest) → Keeps IsConsistent (post_deploy incoming)
unfolding post_deploy
post_deploy-Keeps incoming = accept-Keeps incoming _ deploy_model-Keeps
