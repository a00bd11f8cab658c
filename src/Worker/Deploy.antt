-- ===== src/Worker/Deploy.antt =====
-- handleDeployModelTask of internal/worker/server.go.
pub mod Keep
pub mod Truth
pub mod Outcome
pub mod Wait
pub mod Ended
use tark.Common.{ℕ, zero, suc, String, Option, none, some, Error, Result, ok, err, wrap, ◌<>◌}
use tark.Models.{Uuid, ℤ, Cluster}
use tark.Models.DeploymentStatus
use tark.Models.JobStatus
use tark.Text.{show_int, join_host_port}
use tark.Queue.{Task, DeployModelPayload}
use tark.Queue.Tasks.{parse_deploy_model_payload}
use tark.Kube.Client.{new_from_kubeconfig, deploy_model}
use tark.Store.Methods.{
  get_cluster, update_deployment_status, update_deployment_service_url, update_job_status,
}
use tark.Worker.Shared.{Server, fail_job, complete_job, invalidate_model_cache, decrypt_kubeconfig}
use tark.System.Env.{Env}
use tark.System.Act.{Act, Event, ◌>>=◌, ◌>>◌, pure, asks, call, request, from_fault, branch, check}

-- How the wait for the node port ends.
pub data Health : Type 0 where
  healthy timed_out : Health
  cancelled : Error → Health

-- One dial per round, ten seconds apart, until the port answers or the context ends.
unfoldable pub wait_for_health : ℕ → String → Act Health
wait_for_health zero host_port = pure timed_out
wait_for_health (suc rounds) host_port =
    check (request (Event.dial host_port) (λ e n. from_fault (e.dial n host_port)))
      (λ _.
        check (call (λ e n. from_fault (e.cancelled n))) (λ x. pure (cancelled x))
          λ _. do request (Event.sleep 10) (λ e n. tt); wait_for_health rounds host_port)
      λ _. pure healthy

abbrev pub max_dials : ℕ
max_dials = 90

unfoldable pub node_host_port : String → ℤ → String
node_host_port public_ip node_port = join_host_port public_ip (show_int node_port)

unfoldable pub node_url : String → ℤ → String
unfolding node_host_port
node_url public_ip node_port = "http://" <> node_host_port public_ip node_port

-- The common part of the error branches: the deployment and the job are marked failed, and the
-- model's routing is dropped.
fail_deployment : Server → DeployModelPayload → Uuid → Error → Act (Unit {0})
fail_deployment s payload deployment_id x = do
  update_deployment_status deployment_id DeploymentStatus.failed
  invalidate_model_cache s payload.name
  fail_job payload.job_id x

-- The wait has ended.
pub finish : Server → DeployModelPayload → Uuid → String → Health → Act (Result (Unit {0}))
unfolding fail_deployment
finish s payload deployment_id url (cancelled x) = do
  fail_deployment s payload deployment_id "deployment cancelled while waiting for health"
  pure (wrap "deployment cancelled while waiting for health" x)
finish s payload deployment_id url timed_out = do
  fail_deployment s payload deployment_id "deployment timed out waiting to become healthy"
  pure (wrap "deployment timed out waiting to become healthy" url)
finish s payload deployment_id url healthy =
    check (update_deployment_service_url deployment_id DeploymentStatus.active url)
      (λ x. do
        invalidate_model_cache s payload.name
        fail_job payload.job_id x
        pure (wrap "mark deployment active" x))
      λ _. do complete_job payload.job_id; invalidate_model_cache s payload.name; pure (ok tt)

-- From the parsed ids on.
pub deploy : Server → DeployModelPayload → Uuid → Uuid → Act (Result (Unit {0}))
unfolding fail_deployment finish
deploy s payload deployment_id cluster_id = do
  update_deployment_status deployment_id DeploymentStatus.building
  update_job_status payload.job_id JobStatus.running ""
  check (get_cluster cluster_id)
      (λ x. do fail_deployment s payload deployment_id x; pure (wrap "get cluster" x))
      λ cluster.
        check (decrypt_kubeconfig s cluster.kubeconfig)
          (λ x. do fail_deployment s payload deployment_id x; pure (wrap "decrypt kubeconfig" x))
          λ kubeconfig.
            check (new_from_kubeconfig kubeconfig)
              (λ x. do
                fail_deployment s payload deployment_id x
                pure (wrap "build kube client from cluster kubeconfig" x))
              λ _.
                check
                  (deploy_model payload.namespace (record {
                    name = payload.name;
                    model_url = payload.model_url;
                    node_port = payload.node_port;
                  }))
                  (λ x. do fail_deployment s payload deployment_id x; pure (wrap "deploy model" x))
                  λ _. do
                    update_deployment_status deployment_id DeploymentStatus.deploying
                    health ←
                        wait_for_health max_dials
                          (node_host_port cluster.public_ip payload.node_port)
                    finish s payload deployment_id (node_url cluster.public_ip payload.node_port)
                        health

pub handle_deploy_model_task : Server → Task → Act (Result (Unit {0}))
unfolding fail_deployment
handle_deploy_model_task s task =
    check (parse_deploy_model_payload task) (λ x. pure (wrap "parse deploy task" x))
      λ payload. do
        invalidate_model_cache s payload.name
        check (asks (λ e. e.parse_uuid payload.deployment_id))
            (λ x. do
              fail_job payload.job_id x
              pure (wrap "invalid deployment id in task payload" x))
            λ deployment_id.
              check (asks (λ e. e.parse_uuid payload.cluster_id))
                (λ x. do
                  fail_deployment s payload deployment_id x
                  pure (wrap "invalid cluster id in task payload" x))
                λ cluster_id. deploy s payload deployment_id cluster_id
