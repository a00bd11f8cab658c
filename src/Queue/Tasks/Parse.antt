-- ===== src/Queue/Tasks/Parse.antt =====
-- What the handlers read of a task that json.Unmarshal accepts.
use tark.Common.{◌≡◌, ok}
use tark.Queue.{
  Task, ProvisionClusterPayload, DeployModelPayload, DeleteModelPayload, DestroyClusterPayload,
}
use tark.Queue.Tasks.{
  parse_provision_cluster_payload, parse_deploy_model_payload, parse_delete_model_payload,
  parse_destroy_cluster_payload,
}
use tark.System.Env.{Env}
use tark.System.Act.{World, check, branch, asks, pure}

module _ (task : Task) (e : Env) (w : World) where
  pub parse_provision_cluster_payload-ok :
      {p : ProvisionClusterPayload}
      → e.unmarshal_provision task.payload ≡ ok p
      → parse_provision_cluster_payload task e w ≡ (ok p, w)
  unfolding parse_provision_cluster_payload check branch asks pure
  parse_provision_cluster_payload-ok h = rw (h, branch)

  pub parse_deploy_model_payload-ok :
      {p : DeployModelPayload}
      → e.unmarshal_deploy task.payload ≡ ok p
      → parse_deploy_model_payload task e w ≡ (ok p, w)
  unfolding parse_deploy_model_payload check branch asks pure
  parse_deploy_model_payload-ok h = rw (h, branch)

  pub parse_delete_model_payload-ok :
      {p : DeleteModelPayload}
      → e.unmarshal_delete task.payload ≡ ok p
      → parse_delete_model_payload task e w ≡ (ok p, w)
  unfolding parse_delete_model_payload check branch asks pure
  parse_delete_model_payload-ok h = rw (h, branch)

  pub parse_destroy_cluster_payload-ok :
      {p : DestroyClusterPayload}
      → e.unmarshal_destroy task.payload ≡ ok p
      → parse_destroy_cluster_payload task e w ≡ (ok p, w)
  unfolding parse_destroy_cluster_payload check branch asks pure
  parse_destroy_cluster_payload-ok h = rw (h, branch)
