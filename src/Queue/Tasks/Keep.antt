-- ===== src/Queue/Tasks/Keep.antt =====
-- Making and reading a task leaves the tables alone.
use tark.Store.{Database}
use tark.Queue.{
  Task, ProvisionClusterPayload, DeployModelPayload, DeleteModelPayload, DestroyClusterPayload,
}
use tark.Queue.Tasks.{
  new_provision_cluster_task, new_deploy_model_task, new_delete_model_task,
  new_destroy_cluster_task, parse_provision_cluster_payload, parse_deploy_model_payload,
  parse_delete_model_payload, parse_destroy_cluster_payload,
}
use tark.System.Keeps.{Keeps, keeps_rules}

module _ {P : Database → Type 0} where
  pub parse_provision_cluster_payload-Keeps :
      (task : Task) → Keeps P (parse_provision_cluster_payload task)
  unfolding parse_provision_cluster_payload
  parse_provision_cluster_payload-Keeps task = search keeps_rules

  pub parse_deploy_model_payload-Keeps : (task : Task) → Keeps P (parse_deploy_model_payload task)
  unfolding parse_deploy_model_payload
  parse_deploy_model_payload-Keeps task = search keeps_rules

  pub parse_delete_model_payload-Keeps : (task : Task) → Keeps P (parse_delete_model_payload task)
  unfolding parse_delete_model_payload
  parse_delete_model_payload-Keeps task = search keeps_rules

  pub parse_destroy_cluster_payload-Keeps :
      (task : Task) → Keeps P (parse_destroy_cluster_payload task)
  unfolding parse_destroy_cluster_payload
  parse_destroy_cluster_payload-Keeps task = search keeps_rules

  pub new_provision_cluster_task-Keeps :
      (p : ProvisionClusterPayload) → Keeps P (new_provision_cluster_task p)
  unfolding new_provision_cluster_task
  new_provision_cluster_task-Keeps p = search keeps_rules

  pub new_deploy_model_task-Keeps : (p : DeployModelPayload) → Keeps P (new_deploy_model_task p)
  unfolding new_deploy_model_task
  new_deploy_model_task-Keeps p = search keeps_rules

  pub new_delete_model_task-Keeps : (p : DeleteModelPayload) → Keeps P (new_delete_model_task p)
  unfolding new_delete_model_task
  new_delete_model_task-Keeps p = search keeps_rules

  pub new_destroy_cluster_task-Keeps :
      (p : DestroyClusterPayload) → Keeps P (new_destroy_cluster_task p)
  unfolding new_destroy_cluster_task
  new_destroy_cluster_task-Keeps p = search keeps_rules

pub ruleset task_rules = (
  parse_provision_cluster_payload-Keeps, parse_deploy_model_payload-Keeps,
  parse_delete_model_payload-Keeps, parse_destroy_cluster_payload-Keeps,
  new_provision_cluster_task-Keeps, new_deploy_model_task-Keeps, new_delete_model_task-Keeps,
  new_destroy_cluster_task-Keeps,
)
