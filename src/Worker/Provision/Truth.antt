-- ===== src/Worker/Provision/Truth.antt =====
-- A provision task's job row says how the handler ended.
use tark.Common.{◌≡◌, ap, ok}
use tark.Models.{Uuid}
use tark.Queue.{Task, ProvisionClusterPayload}
use tark.Queue.Tasks.Parse.{parse_provision_cluster_payload-ok}
use tark.Worker.Shared.{Server}
use tark.Worker.Shared.Truth.{Truthful, Reads, truth_rules}
use tark.Worker.Provision.{provision, handle_provision_cluster_task}
use tark.System.Env.{Env}
use tark.System.Act.{World}
use tark.System.Ensures.{IsUp, Ensures, Ensures-check_known}

provision-Truthful :
    {H : Env → Type 0} (up : (e : Env) → H e → IsUp e) (s : Server)
    (payload : ProvisionClusterPayload) (id : Uuid)
    → Ensures H (Truthful payload.job_id) (provision s payload id)
unfolding provision
provision-Truthful up s payload id = search truth_rules depth 20

module _ (s : Server) (task : Task) (payload : ProvisionClusterPayload) where
  provision_task_ends :
      Ensures
        (Reads (λ e. e.unmarshal_provision task.payload) payload)
        (Truthful payload.job_id)
        (handle_provision_cluster_task s task)
  unfolding handle_provision_cluster_task
  provision_task_ends =
      Ensures-check_known _ _ _ payload
        (λ e h w. ap (λ r. r.0) (parse_provision_cluster_payload-ok task e w h.read_payload))
        (search (truth_rules, provision-Truthful) depth 12)

  -- While the database is up and the task's context does not end, a provision task whose payload is
  -- read ends with the job's rows `completed` if the handler returns nil and `failed` if it returns
  -- an error, each with a time of completion, whatever the tables were and whatever else fails.
  pub provision_task-Truthful :
      (e : Env) (w : World)
      → IsUp e
      → e.unmarshal_provision task.payload ≡ ok payload
      → Truthful payload.job_id
          (handle_provision_cluster_task s task e w).0
          (handle_provision_cluster_task s task e w).1.db
  provision_task-Truthful e w up read =
      provision_task_ends.at e (record { up = up; read_payload = read }) w
