-- ===== src/Worker/Deploy/Keep.antt =====
-- Deploying keeps the tables consistent, whatever fails on the way.
use tark.Common.{ℕ, zero, suc, String}
use tark.Models.{Uuid}
use tark.Queue.{Task, DeployModelPayload}
use tark.Queue.Tasks.Keep.{task_rules}
use tark.Kube.Client.Keep.{new_from_kubeconfig-Keeps, deploy_model-Keeps}
use tark.Store.{Database}
use tark.Store.Consistency.{IsConsistent}
use tark.Store.Methods.Keep.{
  get_cluster-Keeps, update_deployment_status-Keeps, update_deployment_service_url-Keeps,
  update_job_status-Keeps,
}
use tark.Worker.Shared.{Server}
use tark.Worker.Shared.Keep.{
  fail_job-Keeps, complete_job-Keeps, invalidate_model_cache-Keeps, decrypt_kubeconfig-Keeps,
}
use tark.Worker.Deploy.{
  Health, healthy, timed_out, cancelled, wait_for_health, finish, deploy, handle_deploy_model_task,
}
use tark.System.Keeps.{
  Keeps, Keeps-check, Keeps-request, Keeps-call, Keeps-then, Keeps-pure, keeps_rules,
}

module _ {P : Database → Type 0} (host_port : String) where
  pub wait_for_health-Keeps : (n : ℕ) → Keeps P (wait_for_health n host_port)
  unfolding wait_for_health
  wait_for_health-Keeps zero = search keeps_rules
  wait_for_health-Keeps (suc n) =
      Keeps-check _ _ _ (Keeps-request _ _)
        (λ _.
          Keeps-check _ _ _ (Keeps-call _) (λ x. Keeps-pure _)
            (λ _. Keeps-then _ _ (Keeps-request _ _) (wait_for_health-Keeps n)))
        (λ _. Keeps-pure _)

ruleset deploy_rules = (
  keeps_rules, get_cluster-Keeps, update_deployment_status-Keeps, update_job_status-Keeps,
  update_deployment_service_url-Keeps, fail_job-Keeps, complete_job-Keeps,
  invalidate_model_cache-Keeps, decrypt_kubeconfig-Keeps, new_from_kubeconfig-Keeps,
  deploy_model-Keeps,
)

finish-Keeps :
    (s : Server) (payload : DeployModelPayload) (id : Uuid) (url : String) (h : Health)
    → Keeps IsConsistent (finish s payload id url h)
unfolding finish
finish-Keeps s payload id url healthy = search deploy_rules depth 7
finish-Keeps s payload id url timed_out = search deploy_rules depth 7
finish-Keeps s payload id url (cancelled x) = search deploy_rules depth 7

deploy-Keeps :
    (s : Server) (payload : DeployModelPayload) (id cluster_id : Uuid)
    → Keeps IsConsistent (deploy s payload id cluster_id)
unfolding deploy
deploy-Keeps s payload id cluster_id =
    search (deploy_rules, wait_for_health-Keeps, finish-Keeps) depth 20

pub handle_deploy_model_task-Keeps :
    (s : Server) (task : Task) → Keeps IsConsistent (handle_deploy_model_task s task)
unfolding handle_deploy_model_task
handle_deploy_model_task-Keeps s task = search (deploy_rules, task_rules, deploy-Keeps) depth 12
