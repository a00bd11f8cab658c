-- ===== src/Worker/Deploy/Outcome.antt =====
-- What a deploy task leaves in the deployment's row.
use tark.Common.{String, List, ◌≡◌, refl, ap, Error, Result, ok, err, find_first, nat_eq}
use tark.Common.Results.{or_fail}
use tark.Models.{Uuid, ℤ, Cluster}
use tark.Models.DeploymentStatus
use tark.Queue.{Task, DeployModelPayload}
use tark.Queue.Tasks.Parse.{parse_deploy_model_payload-ok}
use tark.Kube.Client.Keep.{new_from_kubeconfig-Keeps, deploy_model-Keeps}
use tark.Store.{Database}
use tark.Store.Select.{select_cluster}
use tark.Store.Methods.{get_cluster, update_deployment_status}
use tark.Store.Methods.Effect.{
  DeploymentRows, DeploymentIs, ServingRows, DeploymentServes, update_deployment_status-Is,
  update_deployment_service_url-Serves, update_deployment_service_url-nil,
  update_deployment_status-clusters, update_deployment_service_url-clusters,
}
use tark.Worker.Shared.{Server}
use tark.Worker.Shared.Keep.{invalidate_model_cache-Keeps, decrypt_kubeconfig-Keeps}
use tark.Worker.Shared.Outcome.{
  ReadsId, ReadsId-IsUp, fail_job-deployments, complete_job-deployments, complete_job-clusters,
}
use tark.Worker.Deploy.{
  Health, healthy, timed_out, cancelled, max_dials, node_url, fail_deployment, finish, deploy,
  handle_deploy_model_task,
}
use tark.Worker.Deploy.Keep.{wait_for_health-Keeps}
use tark.System.Env.{Env}
use tark.System.Act.{World, ◌>>◌, pure, asks, check}
use tark.System.Ensures.{
  IsUp, Establishes, Establishes-then_kept, Ensures, Ensures-return, Ensures-check_known,
  Ensures-then,
}
use tark.System.Leads.{
  Leads, Leads-anyway, Leads-then, Leads-bind, Leads-check, Leads-check_after, Ensures-check-query,
  Ensures-check_failed,
}
use tark.System.Keeps.{Keeps, Keeps-then}

-- Where the handler returns nil, the id of the cluster was read, the cluster is stored, and the deployment is
-- active at the node port of the cluster's address; where it does not, the deployment is failed.
abbrev pub Deployed : Uuid → Result Uuid → ℤ → Result (Unit {0}) → Database → Type 0
Deployed id cluster port (ok done) db =
    (cluster_id : Uuid) × (c : Cluster) × (cluster ≡ ok cluster_id)
    × (select_cluster cluster_id db ≡ ok c)
    × DeploymentServes id DeploymentStatus.active (node_url c.public_ip port) db
Deployed id cluster port (err x) db = DeploymentIs id DeploymentStatus.failed db

-- The cluster is stored.
abbrev Held : Uuid → Cluster → Database → Type 0
Held cluster_id c db = select_cluster cluster_id db ≡ ok c

abbrev HeldIn : Uuid → Cluster → List Cluster → Type 0
HeldIn cluster_id c clusters =
    or_fail (find_first (λ (k : Cluster). nat_eq k.id cluster_id) clusters) "cluster not found"
    ≡ ok c

module _ {H : Env → Type 0} (up : (e : Env) → H e → IsUp e) (s : Server)
    (payload : DeployModelPayload) (id : Uuid) (cluster : Result Uuid) where
  fail_deployment-Is :
      (x : Error)
      → Establishes H (DeploymentIs id DeploymentStatus.failed) (fail_deployment s payload id x)
  unfolding fail_deployment
  fail_deployment-Is x =
      Establishes-then_kept _ _ (update_deployment_status-Is up id DeploymentStatus.failed) (
        Keeps-then _ _ (invalidate_model_cache-Keeps s payload.name)
          (fail_job-deployments (DeploymentRows id DeploymentStatus.failed) payload.job_id x))

  failing :
      (x y : Error)
      → Ensures H
          (Deployed id cluster payload.node_port)
          (fail_deployment s payload id x >> pure (err y))
  failing x y = Ensures-return _ (err y) (fail_deployment-Is x)

  module _ (cluster_id : Uuid) (read : cluster ≡ ok cluster_id) where
    finish-Deployed :
        (c : Cluster) (h : Health)
        → Leads H
            (Held cluster_id c)
            (Deployed id cluster payload.node_port)
            (finish s payload id (node_url c.public_ip payload.node_port) h)
    unfolding finish ◌>>◌ pure select_cluster
    finish-Deployed c healthy =
        let url : String = node_url c.public_ip payload.node_port in
        Leads-check_after _ _ _ tt (update_deployment_service_url-nil up id _ _)
          (update_deployment_service_url-Serves up id _ url)
          (update_deployment_service_url-clusters (HeldIn cluster_id c) id _ _)
          λ e he w held h. (
            cluster_id,
            c,
            read,
            (invalidate_model_cache-Keeps {P = λ db. HeldIn cluster_id c db.clusters} s
                  payload.name).at
                e _ ((complete_job-clusters (HeldIn cluster_id c) payload.job_id).at e w held),
            (invalidate_model_cache-Keeps {P = DeploymentServes id DeploymentStatus.active url} s
                  payload.name).at
                e _
                ((complete_job-deployments (ServingRows id DeploymentStatus.active url)
                    payload.job_id).at
                  e w h),
          )
    finish-Deployed c timed_out = Leads-anyway _ (failing _ _)
    finish-Deployed c (cancelled x) = Leads-anyway _ (failing _ _)

    marking :
        (c : Cluster) (status : String)
        → Keeps (Held cluster_id c) (update_deployment_status id status)
    unfolding select_cluster
    marking c status = update_deployment_status-clusters (HeldIn cluster_id c) id status

    deploy-Deployed :
        Ensures H (Deployed id cluster payload.node_port) (deploy s payload id cluster_id)
    unfolding deploy get_cluster
    deploy-Deployed = Ensures-then _ _ (
        Ensures-then _ _ (
          Ensures-check-query _ _ _ (λ x. failing x _)
            λ c.
              Leads-check _ _ _ (decrypt_kubeconfig-Keeps s _) (λ x. Leads-anyway _ (failing x _))
                λ kubeconfig.
                  Leads-check _ _ _ (new_from_kubeconfig-Keeps _)
                    (λ x. Leads-anyway _ (failing x _))
                    λ _.
                      Leads-check _ _ _ (deploy_model-Keeps _ _) (λ x. Leads-anyway _ (failing x _))
                        λ _.
                          Leads-then _ _ (marking c DeploymentStatus.deploying) (
                            Leads-bind _ _ (wait_for_health-Keeps _ max_dials)
                              (finish-Deployed c))))

-- The payload and the deployment's id are read, and the cluster's id or the error of reading it is known.
record ReadsBoth (task : Task) (payload : DeployModelPayload) (id : Uuid) (cluster : Result Uuid)
    (e : Env) : Type 0 where
  ids : ReadsId (λ e. e.unmarshal_deploy task.payload) payload payload.deployment_id id e
  cluster_id : e.parse_uuid payload.cluster_id ≡ cluster

module _ (s : Server) (task : Task) (payload : DeployModelPayload) (id : Uuid) where
  IsUp-both : (cluster : Result Uuid) (e : Env) → ReadsBoth task payload id cluster e → IsUp e
  IsUp-both cluster e h = ReadsId-IsUp e h.ids

  deploy_either :
      (cluster : Result Uuid) (fail : Error → Error)
      → Ensures (ReadsBoth task payload id cluster) (Deployed id cluster payload.node_port) (
          check
            (asks (λ e. e.parse_uuid payload.cluster_id))
            (λ x. fail_deployment s payload id x >> pure (err (fail x)))
            (λ cluster_id. deploy s payload id cluster_id))
  unfolding asks
  deploy_either (ok cluster_id) fail =
      Ensures-check_known _ _ _ cluster_id (λ e h w. h.cluster_id)
        (deploy-Deployed (IsUp-both (ok cluster_id)) s payload id (ok cluster_id) cluster_id refl)
  deploy_either (err x) fail =
      Ensures-check_failed _ _ _ x (λ e h w. h.cluster_id)
        (failing (IsUp-both (err x)) s payload id (err x) x (fail x))

  deploy_task_leaves :
      (cluster : Result Uuid)
      → Ensures
          (ReadsBoth task payload id cluster)
          (Deployed id cluster payload.node_port)
          (handle_deploy_model_task s task)
  unfolding handle_deploy_model_task asks
  deploy_task_leaves cluster =
      Ensures-check_known _ _ _ payload
        (λ e h w. ap (λ r. r.0) (parse_deploy_model_payload-ok task e w h.ids.read_payload))
        (Ensures-then _ _
          (Ensures-check_known _ _ _ id (λ e h w. h.ids.read_id) (deploy_either cluster _)))

  -- While the database is up and the task's context does not end, a deploy task whose payload and
  -- deployment id are read leaves every row of the deployment failed if the handler returns an error;
  -- if it returns nil, the id of the cluster was read, the cluster is stored, and every row of the
  -- deployment is active, at the URL of the requested node port on the cluster's address.
  pub deploy_task_outcome :
      (e : Env) (w : World)
      → IsUp e
      → e.unmarshal_deploy task.payload ≡ ok payload
      → e.parse_uuid payload.deployment_id ≡ ok id
      → Deployed id
          (e.parse_uuid payload.cluster_id)
          payload.node_port
          (handle_deploy_model_task s task e w).0
          (handle_deploy_model_task s task e w).1.db
  deploy_task_outcome e w up read read_id =
      (deploy_task_leaves (e.parse_uuid payload.cluster_id)).at e
        (record {
          ids = record { up = up; read_payload = read; read_id = read_id };
          cluster_id = refl;
        })
        w
