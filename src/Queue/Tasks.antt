-- ===== src/Queue/Tasks.antt =====
-- internal/worker/tasks/tasks.go: tasks from payloads, and payloads from tasks.
pub mod Keep
pub mod Parse
use tark.Common.{String, Error, Result, ok, wrap}
use tark.Queue.{
  Task, Payload, provision, deploy, delete, destroy, ProvisionClusterPayload, DeployModelPayload,
  DeleteModelPayload, DestroyClusterPayload, task_type_provision_cluster, task_type_deploy_model,
  task_type_delete_model, task_type_destroy_cluster,
}
use tark.System.Env.{Env}
use tark.System.Act.{Act, pure, asks, check}

-- `data, err := json.Marshal(payload)`, and the task that carries the text
unfoldable pub new_task : String → String → Payload → Act (Result Task)
new_task task_type context payload =
    check (asks (λ e. e.marshal payload)) (λ x. pure (wrap context x))
      λ text. pure (ok (record { task_type = task_type; payload = text }))

unfoldable pub new_provision_cluster_task : ProvisionClusterPayload → Act (Result Task)
unfolding new_task
new_provision_cluster_task p =
    new_task task_type_provision_cluster "marshal provision payload" (provision p)

unfoldable pub new_deploy_model_task : DeployModelPayload → Act (Result Task)
unfolding new_task
new_deploy_model_task p = new_task task_type_deploy_model "marshal deploy payload" (deploy p)

unfoldable pub new_delete_model_task : DeleteModelPayload → Act (Result Task)
unfolding new_task
new_delete_model_task p = new_task task_type_delete_model "marshal delete model payload" (delete p)

unfoldable pub new_destroy_cluster_task : DestroyClusterPayload → Act (Result Task)
unfolding new_task
new_destroy_cluster_task p =
    new_task task_type_destroy_cluster "marshal destroy payload" (destroy p)

module _ (task : Task) where
  pub parse_provision_cluster_payload : Act (Result ProvisionClusterPayload)
  parse_provision_cluster_payload =
      check (asks (λ e. e.unmarshal_provision task.payload))
        (λ x. pure (wrap "unmarshal provision payload" x)) (λ p. pure (ok p))

  pub parse_deploy_model_payload : Act (Result DeployModelPayload)
  parse_deploy_model_payload =
      check (asks (λ e. e.unmarshal_deploy task.payload))
        (λ x. pure (wrap "unmarshal deploy payload" x)) (λ p. pure (ok p))

  unfoldable pub parse_destroy_cluster_payload : Act (Result DestroyClusterPayload)
  parse_destroy_cluster_payload =
      check (asks (λ e. e.unmarshal_destroy task.payload))
        (λ x. pure (wrap "unmarshal destroy payload" x)) (λ p. pure (ok p))

  pub parse_delete_model_payload : Act (Result DeleteModelPayload)
  parse_delete_model_payload =
      check (asks (λ e. e.unmarshal_delete task.payload))
        (λ x. pure (wrap "unmarshal delete payload" x)) (λ p. pure (ok p))
