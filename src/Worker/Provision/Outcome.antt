-- ===== src/Worker/Provision/Outcome.antt =====
-- What a provision task leaves in the cluster's row.
use tark.Common.{String, Option, Bool, ◌≡◌, refl, ap, Error, Result, ok, err}
use tark.Models.{Uuid, Bytes}
use tark.Models.ClusterStatus
use tark.Queue.{Task, ProvisionClusterPayload}
use tark.Queue.Tasks.Parse.{parse_provision_cluster_payload-ok}
use tark.Store.{Database}
use tark.Store.Methods.{update_cluster_details}
use tark.Store.Methods.Effect.{
  ClusterRows, ClusterIs, StatusRows, ClusterHas, update_cluster_details-Is,
  update_cluster_details-nil, update_cluster_status-Has,
}
use tark.Worker.Shared.{Server, complete_job}
use tark.Worker.Shared.Outcome.{ReadsId, ReadsId-IsUp, fail_job-clusters, complete_job-clusters}
use tark.Worker.Provision.{protect, fail_cluster, provision, handle_provision_cluster_task}
use tark.System.Env.{Env}
use tark.System.Act.{Act, World, ◌>>=◌, ◌>>◌, pure, asks, check}
use tark.System.Ensures.{
  IsUp, Establishes, Establishes-then_kept, Ensures, Ensures-return, Ensures-then,
  Ensures-check_known, Ensures-check_after,
}
use tark.System.Leads.{Returns, Ensures-check-Returns}
use tark.Crypto.{Cipher}
use tark.Worker.Kubeconfig.{replace_server}
use tark.Worker.Kubeconfig.Fetched.{fetch_kubeconfig_with_retry-IsFetched}
use tark.Worker.Provisioner.Answers.{IsOutput, IsFetched, provision_cluster-IsOutput}

-- What is stored is made of what was fetched: rewritten for the address, and encrypted if there is a cipher.
abbrev pub IsStored : Env → Option Cipher → String → Bytes → Bytes → Type 0
IsStored e cipher ip fetched kubeconfig =
    (w : World) × ((protect cipher (replace_server e.name_rune ip fetched) e w).0 ≡ ok kubeconfig)

-- Every row of the cluster is active, at the address that the stack has put out, with the kubeconfig that a
-- session at that address has given, rewritten and protected.
pub record Installed (e : Env) (cipher : Option Cipher) (id : Uuid) (db : Database) : Type 0 where
  pub ip : String
  pub fetched : Bytes
  pub kubeconfig : Bytes
  pub output : IsOutput e ip
  pub session : IsFetched e ip fetched
  pub stored : IsStored e cipher ip fetched kubeconfig
  pub rows : ClusterIs id ClusterStatus.active kubeconfig ip db

-- The cluster is installed where the handler returns nil, and failed where it does not.
abbrev pub Provisioned : Env → Option Cipher → Uuid → Result (Unit {0}) → Database → Type 0
Provisioned e cipher id (ok done) db = Installed e cipher id db
Provisioned e cipher id (err x) db = ClusterHas id ClusterStatus.failed db

module _ {H : Env → Type 0} (up : (e : Env) → H e → IsUp e) (setting : Env)
    (same : (e : Env) → H e → e ≡ setting) (cipher : Option Cipher) (id : Uuid) where
  fail_cluster-Has :
      (job_id : String) (x : Error)
      → Establishes H (ClusterHas id ClusterStatus.failed) (fail_cluster id job_id x)
  unfolding fail_cluster
  fail_cluster-Has job_id x =
      Establishes-then_kept _ _ (update_cluster_status-Has up id ClusterStatus.failed)
        (fail_job-clusters (StatusRows id ClusterStatus.failed) job_id x)

  failing :
      (job_id : String) (x y : Error)
      → Ensures H (Provisioned setting cipher id) (fail_cluster id job_id x >> pure (err y))
  failing job_id x y = Ensures-return _ (err y) (fail_cluster-Has job_id x)

  storing :
      (job_id : String) (ip : String) (fetched kubeconfig : Bytes)
      (fail : Error → Act (Result (Unit {0})))
      → IsOutput setting ip
      → IsFetched setting ip fetched
      → IsStored setting cipher ip fetched kubeconfig
      → Ensures H (Provisioned setting cipher id) (
          check
            (update_cluster_details id ClusterStatus.active kubeconfig ip)
            fail
            λ done. complete_job job_id >> pure (ok tt))
  unfolding ◌>>◌ pure
  storing job_id ip fetched kubeconfig fail output session stored =
      Ensures-check_after _ _ _ tt (update_cluster_details-nil up id _ kubeconfig ip)
        (update_cluster_details-Is up id ClusterStatus.active kubeconfig ip)
        λ e he w h. record {
          ip = ip;
          fetched = fetched;
          kubeconfig = kubeconfig;
          output = output;
          session = session;
          stored = stored;
          rows =
              (complete_job-clusters (ClusterRows id ClusterStatus.active kubeconfig ip) job_id).at
                e w h;
        }

  protecting :
      (ip : String) (fetched : Bytes)
      → Returns setting
          (IsStored setting cipher ip fetched)
          (asks (λ e. replace_server e.name_rune ip fetched) >>= λ config. protect cipher config)
  unfolding asks ◌>>=◌
  protecting ip fetched = record { at = λ w kubeconfig fine. (w, fine) }

  provision-Provisioned :
      (has_rdb : Bool) (payload : ProvisionClusterPayload)
      → Ensures H
          (Provisioned setting cipher id)
          (provision (record { has_rdb = has_rdb; cipher = cipher }) payload id)
  unfolding provision
  provision-Provisioned has_rdb payload = Ensures-then _ _ (
      Ensures-then _ _ (
        Ensures-check-Returns setting _ _ _ same (provision_cluster-IsOutput setting _ _ _)
          (λ x. failing _ x _)
          λ ip output.
            Ensures-check-Returns setting _ _ _ same
              (fetch_kubeconfig_with_retry-IsFetched setting ip _) (λ x. failing _ x _)
              λ fetched session.
                Ensures-check-Returns setting _ _ _ same (protecting ip fetched)
                  (λ x. failing _ x _)
                  λ kubeconfig stored.
                    storing payload.job_id ip fetched kubeconfig _ output session stored))

-- The payload and the cluster's id are read, in the environment of the handler.
record ReadsIn (setting : Env) (task : Task) (payload : ProvisionClusterPayload) (id : Uuid)
    (e : Env) : Type 0 where
  ids : ReadsId (λ x. x.unmarshal_provision task.payload) payload payload.cluster_id id e
  same : e ≡ setting

module _ (s : Server) (task : Task) (payload : ProvisionClusterPayload) (id : Uuid) where
  provision_task_leaves :
      (setting : Env)
      → Ensures
          (ReadsIn setting task payload id)
          (Provisioned setting s.cipher id)
          (handle_provision_cluster_task s task)
  unfolding handle_provision_cluster_task asks
  provision_task_leaves setting =
      Ensures-check_known _ _ _ payload
        (λ e h w. ap (λ r. r.0) (parse_provision_cluster_payload-ok task e w h.ids.read_payload))
        (Ensures-check_known _ _ _ id (λ e h w. h.ids.read_id)
          (provision-Provisioned (λ e h. ReadsId-IsUp e h.ids) setting (λ e h. h.same) s.cipher id
            s.has_rdb payload))

  -- While the database is up and the task's context does not end, a provision task whose payload and
  -- cluster id are read leaves every row of the cluster failed if the handler returns an error; if it
  -- returns nil, every row is active, at an address that Pulumi has put out, with what the session at
  -- that address has printed, its server lines rewritten for the address, and encrypted if there is a
  -- cipher.
  pub provision_task_outcome :
      (e : Env) (w : World)
      → IsUp e
      → e.unmarshal_provision task.payload ≡ ok payload
      → e.parse_uuid payload.cluster_id ≡ ok id
      → Provisioned e s.cipher id
          (handle_provision_cluster_task s task e w).0
          (handle_provision_cluster_task s task e w).1.db
  provision_task_outcome e w up read read_id =
      (provision_task_leaves e).at e
        (record { ids = record { up = up; read_payload = read; read_id = read_id }; same = refl }) w
