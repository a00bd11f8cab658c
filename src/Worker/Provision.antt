-- ===== src/Worker/Provision.antt =====
-- handleProvisionClusterTask of internal/worker/server.go.
pub mod Keep
pub mod Truth
pub mod Outcome
pub mod RoundTrip
use tark.Common.{String, Option, none, some, Error, Result, ok, err, wrap}
use tark.Models.{Uuid, Bytes}
use tark.Models.ClusterStatus
use tark.Models.JobStatus
use tark.Queue.{Task, ProvisionClusterPayload}
use tark.Queue.Tasks.{parse_provision_cluster_payload}
use tark.Crypto.{Cipher, encrypt}
use tark.Store.Methods.{update_cluster_status, update_cluster_details, update_job_status}
use tark.Worker.Shared.{Server, fail_job, complete_job}
use tark.Worker.Provisioner.{provision_cluster}
use tark.Worker.Kubeconfig.{fetch_kubeconfig_with_retry, replace_server}
use tark.System.Env.{Env}
use tark.System.Act.{Act, ◌>>=◌, ◌>>◌, pure, asks, check}

-- What is stored of a kubeconfig: encrypted, if there is a cipher.
unfoldable pub protect : Option Cipher → Bytes → Act (Result Bytes)
protect none config = pure (ok config)
protect (some c) config = encrypt c config

-- The common part of the error branches: the cluster and the job are marked failed.
fail_cluster : Uuid → String → Error → Act (Unit {0})
fail_cluster cluster_id job_id x = do
  update_cluster_status cluster_id ClusterStatus.failed
  fail_job job_id x

-- From the parsed ids on.
pub provision : Server → ProvisionClusterPayload → Uuid → Act (Result (Unit {0}))
unfolding fail_cluster
provision s payload cluster_id = do
  update_cluster_status cluster_id ClusterStatus.installing
  update_job_status payload.job_id JobStatus.running ""
  check (provision_cluster payload.stack_name payload.infra_dir payload.config)
      (λ x. do fail_cluster cluster_id payload.job_id x; pure (wrap "provision cluster" x))
      λ public_ip.
        check (fetch_kubeconfig_with_retry public_ip payload.ssh_key_path)
          (λ x. do fail_cluster cluster_id payload.job_id x; pure (err x))
          λ fetched.
            check
              (do
                config ← asks (λ e. replace_server e.name_rune public_ip fetched)
                protect s.cipher config)
              (λ x. do fail_cluster cluster_id payload.job_id x; pure (wrap "encrypt kubeconfig" x))
              λ kubeconfig.
                check (update_cluster_details cluster_id ClusterStatus.active kubeconfig public_ip)
                  (λ x. do
                    fail_cluster cluster_id payload.job_id x
                    pure (wrap "update cluster details" x))
                  λ _. do complete_job payload.job_id; pure (ok tt)

pub handle_provision_cluster_task : Server → Task → Act (Result (Unit {0}))
handle_provision_cluster_task s task =
    check (parse_provision_cluster_payload task) (λ x. pure (wrap "parse provision task" x))
      λ payload.
        check (asks (λ e. e.parse_uuid payload.cluster_id))
          (λ x. do fail_job payload.job_id x; pure (wrap "invalid cluster id in task payload" x))
          λ cluster_id. provision s payload cluster_id
