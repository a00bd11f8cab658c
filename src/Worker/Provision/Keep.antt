-- ===== src/Worker/Provision/Keep.antt =====
-- Provisioning keeps the tables consistent, whatever fails on the way.
use tark.Common.{String, Option, none, some, Error}
use tark.Models.{Uuid, Bytes}
use tark.Queue.{Task, ProvisionClusterPayload}
use tark.Queue.Tasks.Keep.{task_rules}
use tark.Store.{Database}
use tark.Store.Consistency.{IsConsistent}
use tark.Store.Methods.Keep.{
  update_cluster_status-Keeps, update_cluster_details-Keeps, update_job_status-Keeps,
}
use tark.Crypto.{Cipher}
use tark.Crypto.Keep.{encrypt-Keeps}
use tark.Worker.Shared.{Server}
use tark.Worker.Shared.Keep.{fail_job-Keeps, complete_job-Keeps}
use tark.Worker.Provisioner.Keep.{provision_cluster-Keeps}
use tark.Worker.Kubeconfig.Keep.{fetch_kubeconfig_with_retry-Keeps}
use tark.Worker.Provision.{protect, fail_cluster, provision, handle_provision_cluster_task}
use tark.System.Keeps.{Keeps, keeps_rules}

protect-Keeps :
    {P : Database → Type 0} (c : Option Cipher) (config : Bytes) → Keeps P (protect c config)
unfolding protect
protect-Keeps none config = search keeps_rules
protect-Keeps (some c) config = encrypt-Keeps c config

fail_cluster-Keeps :
    (id : Uuid) (job_id : String) (x : Error) → Keeps IsConsistent (fail_cluster id job_id x)
unfolding fail_cluster
fail_cluster-Keeps id job_id x = search (keeps_rules, update_cluster_status-Keeps, fail_job-Keeps)

provision-Keeps :
    (s : Server) (payload : ProvisionClusterPayload) (id : Uuid)
    → Keeps IsConsistent (provision s payload id)
unfolding provision
provision-Keeps s payload id =
    search
      (
        keeps_rules, update_cluster_status-Keeps, update_job_status-Keeps, protect-Keeps,
        update_cluster_details-Keeps, fail_job-Keeps, complete_job-Keeps, provision_cluster-Keeps,
        fetch_kubeconfig_with_retry-Keeps,
      )
      depth 15

pub handle_provision_cluster_task-Keeps :
    (s : Server) (task : Task) → Keeps IsConsistent (handle_provision_cluster_task s task)
unfolding handle_provision_cluster_task
handle_provision_cluster_task-Keeps s task =
    search (keeps_rules, task_rules, fail_job-Keeps, provision-Keeps) depth 8
