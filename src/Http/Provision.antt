-- ===== src/Http/Provision.antt =====
-- internal/http/handlers/provision.go: clusters are provisioned, destroyed and listed.
pub mod Keep
pub mod Queued
use tark.Common.{
  String, Option, none, some, List, [], ◌∷◌, ◌++◌, Bool, not, ◌&&◌, ◌||◌, Error, Result, ok, err,
  ◌==◌, ◌<>◌, if◌then◌else◌,
}
use tark.Models.{Uuid, Organization, Cluster}
use tark.Models.ClusterStatus
use tark.Queue.{
  provision, destroy, ProvisionClusterPayload, DestroyClusterPayload, task_type_provision_cluster,
  task_type_destroy_cluster,
}
use tark.Queue.Tasks.{new_provision_cluster_task, new_destroy_cluster_task}
use tark.Queue.Client.{enqueue_provision, enqueue_destroy}
use tark.Store.Methods.{
  get_organization_by_name, create_organization, get_cluster_by_name, create_cluster, reset_cluster,
  list_clusters,
}
use tark.Http.ApiError.{
  ApiError, Response, cluster_exists, provision_queued, destroy_queued, clusters, respond,
  bad_request, internal, conflict_err, invalid_request_body, already_exists, conflict, store_error,
  queue_error,
}
use tark.Http.Validation.{ValidateError, validation_error}
use tark.Http.Jobs.{create_job_record}
use tark.System.Env.{Env}
use tark.System.Act.{Act, ◌>>=◌, ◌>>◌, pure, asks, call, check}

pub record ProvisionRequest : Type 0 where
  pub stack_name : String
  pub region : String
  pub vm_size : String
  pub subscription_id : String

-- What c.Bind and c.Validate give of a request.
pub data Incoming (A : Type 0) : Type 0 where
  unreadable : Incoming A
  invalid : ValidateError → Incoming A
  valid : A → Incoming A

-- The two early returns that every handler with a body begins with.
pub accept : {A : Type 0} → Incoming A → (A → Act Response) → Act Response
accept unreadable k = pure (respond (bad_request invalid_request_body "invalid request payload"))
accept (invalid x) k = asks λ e. respond (validation_error e.lower_rune x)
accept (valid req) k = k req

default_org_name : String
default_org_name = "default"

-- A second look after a failed INSERT covers another request that was faster.
pub ensure_default_organization : Act (Result Organization)
unfolding default_org_name
ensure_default_organization =
    check (get_organization_by_name default_org_name)
      (λ x. do
        id ← call (λ e n. e.new_uuid n)
        now ← call (λ e n. e.now n)
        let org : Organization = record { id = id; name = default_org_name; created_at = now }
        check (create_organization org)
            (λ y.
              check (get_organization_by_name default_org_name) (λ z. pure (err y))
                λ existing. pure (ok existing))
            λ done. pure (ok org))
      λ org. pure (ok org)

infra_dir : Env → String
infra_dir e = e.join_path (e.join_path e.getwd "infra") "azure"

ssh_key_path : Env → String
unfolding infra_dir
ssh_key_path e = e.join_path (infra_dir e) "azure_rsa"

unfoldable pub default_region : String → String
default_region region = if region == "" then "southindia" else region

abbrev optional_entry : String → String → List (String × String)
optional_entry key value = if value == "" then [] else (key, value) ∷ []

-- The map by its entries, in the order of the assignments.
unfoldable pub config_map : ProvisionRequest → String → List (String × String)
config_map req region =
    ("location", region) ∷ ("azure:location", region) ∷ optional_entry "vmSize" req.vm_size
    ++ optional_entry "azure:subscriptionId" req.subscription_id

-- The statuses from which a cluster may be provisioned again.
unfoldable pub is_reprovisionable : String → Bool
is_reprovisionable status = status == ClusterStatus.destroyed || status == ClusterStatus.failed

-- The rest of the handler, from the cluster's row on: the job record, the task and its queue.
enqueue_cluster : ProvisionRequest → Organization → String → Uuid → Act Response
unfolding infra_dir ssh_key_path
enqueue_cluster req org region cluster_id = do
  dir ← asks infra_dir
  key ← asks ssh_key_path
  cluster_text ← asks (λ e. e.show_uuid cluster_id)
  org_text ← asks (λ e. e.show_uuid org.id)
  fresh ← call (λ e n. e.new_uuid n)
  job_id ← asks (λ e. e.show_uuid fresh)
  let payload : ProvisionClusterPayload = record {
    job_id = job_id;
    cluster_id = cluster_text;
    organization_id = org_text;
    stack_name = req.stack_name;
    infra_dir = dir;
    ssh_key_path = key;
    config = config_map req region;
  }
  create_job_record job_id task_type_provision_cluster (provision payload) (some cluster_text) none
  check (new_provision_cluster_task payload)
      (λ x. pure (respond (internal queue_error "failed to create provision task" x)))
      λ task.
        check (enqueue_provision task ("provision:" <> cluster_text))
          (λ x. pure (respond (internal queue_error "failed to enqueue provision task" x)))
          λ done. pure (record {
            status = 202;
            body = provision_queued job_id ("provision:" <> cluster_text) cluster_text;
          })

-- A new cluster's row.
create_new : ProvisionRequest → Organization → String → Uuid → Act Response
unfolding enqueue_cluster
create_new req org region cluster_id = do
  created ← call (λ e n. e.now n)
  updated ← call (λ e n. e.now n)
  let c : Cluster = record {
    id = cluster_id;
    org_id = org.id;
    name = req.stack_name;
    region = region;
    status = ClusterStatus.provisioning;
    kubeconfig = [];
    public_ip = "";
    created_at = created;
    updated_at = updated;
  }
  check (create_cluster c)
      (λ x. pure (respond (internal store_error "failed to create cluster record" x)))
      λ done. enqueue_cluster req org region cluster_id

-- The row of an existing cluster: reset, or refused.
reuse : ProvisionRequest → Organization → String → Cluster → Act Response
unfolding enqueue_cluster is_reprovisionable
reuse req org region existing =
    if is_reprovisionable existing.status
    then (check (reset_cluster existing.id region ClusterStatus.provisioning)
        (λ x. pure (respond (internal store_error "failed to reset cluster record" x)))
        λ done. enqueue_cluster req org region existing.id)
    else asks λ e. record {
      status = 409;
      body =
          cluster_exists already_exists "cluster with this stack name already exists"
            (e.show_uuid existing.id) existing.status;
    }

provision_cluster : ProvisionRequest → Act Response
unfolding create_new reuse default_region
provision_cluster req =
    check ensure_default_organization
      (λ x. pure (respond (internal store_error "failed to ensure organization" x)))
      λ org. do
        fresh ← call (λ e n. e.new_uuid n)
        check (get_cluster_by_name req.stack_name)
            (λ x. create_new req org (default_region req.region) fresh)
            λ existing. reuse req org (default_region req.region) existing

pub handle_provision : Incoming ProvisionRequest → Act Response
unfolding provision_cluster accept
handle_provision incoming = accept incoming provision_cluster

-- The early returns of HandleDestroy's switch, by the cluster's status.
unfoldable pub refuse_destroy : String → Option String
refuse_destroy status =
    if status == ClusterStatus.destroyed
    then some "cluster is already destroyed"
    else if status == ClusterStatus.provisioning || status == ClusterStatus.installing
    then some "cluster is still being provisioned, cannot destroy yet"
    else none

-- From the switch on. The cluster's text is empty where no cluster was found.
enqueue_destroy_of : String → String → Act Response
unfolding infra_dir
enqueue_destroy_of stack_name cluster_text = do
  dir ← asks infra_dir
  fresh ← call (λ e n. e.new_uuid n)
  job_id ← asks (λ e. e.show_uuid fresh)
  let payload : DestroyClusterPayload = record {
    job_id = job_id;
    cluster_id = cluster_text;
    stack_name = stack_name;
    infra_dir = dir;
  }
  create_job_record job_id task_type_destroy_cluster (destroy payload) (some cluster_text) none
  check (new_destroy_cluster_task payload)
      (λ x. pure (respond (internal queue_error "failed to create destroy task" x)))
      λ task.
        check (enqueue_destroy task ("destroy:" <> stack_name))
          (λ x. pure (respond (internal queue_error "failed to enqueue destroy task" x)))
          λ done. pure (record {
            status = 202;
            body = destroy_queued job_id ("destroy:" <> stack_name) stack_name;
          })

destroy_found : String → Cluster → Option String → Act Response
unfolding enqueue_destroy_of
destroy_found stack_name c (some refusal) = pure (respond (conflict_err conflict refusal))
destroy_found stack_name c none = do
  text ← asks (λ e. e.show_uuid c.id)
  enqueue_destroy_of stack_name text

destroy_cluster : String → Act Response
unfolding destroy_found refuse_destroy enqueue_destroy_of
destroy_cluster stack_name =
    check (get_cluster_by_name stack_name) (λ x. enqueue_destroy_of stack_name "")
      λ c. destroy_found stack_name c (refuse_destroy c.status)

pub handle_destroy : Incoming String → Act Response
unfolding destroy_cluster accept
handle_destroy incoming = accept incoming destroy_cluster

pub handle_list_clusters : Act Response
handle_list_clusters =
    check ensure_default_organization
      (λ x. pure (respond (internal store_error "failed to ensure organization" x)))
      λ org.
        check (list_clusters org.id)
          (λ x. pure (respond (internal store_error "failed to list clusters" x)))
          λ cs. pure (record { status = 200; body = clusters cs })
