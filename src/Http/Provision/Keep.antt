-- ===== src/Http/Provision/Keep.antt =====
-- The cluster endpoints keep the tables consistent, whatever fails on the way.
use tark.Common.{String, Option, none, some}
use tark.Models.{Uuid, Organization, Cluster}
use tark.Queue.Tasks.Keep.{task_rules}
use tark.Queue.Client.Keep.{enqueue_rules}
use tark.Store.{Database}
use tark.Store.Consistency.{IsConsistent}
use tark.Store.Methods.Keep.{
  create_organization-Keeps, get_organization_by_name-Keeps, create_cluster-Keeps,
  get_cluster_by_name-Keeps, reset_cluster-Keeps, list_clusters-Keeps,
}
use tark.Worker.Shared.Keep.{Keeps-if}
use tark.Http.ApiError.{Response}
use tark.Http.Jobs.Keep.{create_job_record-Keeps}
use tark.Http.Provision.{
  ProvisionRequest, Incoming, unreadable, invalid, valid, accept, ensure_default_organization,
  enqueue_cluster, create_new, reuse, provision_cluster, handle_provision, enqueue_destroy_of,
  destroy_found, destroy_cluster, handle_destroy, handle_list_clusters,
}
use tark.System.Act.{Act}
use tark.System.Keeps.{Keeps, keeps_rules}

pub accept-Keeps :
    {A : Type 0} {P : Database → Type 0} (incoming : Incoming A) (k : A → Act Response)
    → ((req : A) → Keeps P (k req))
    → Keeps P (accept incoming k)
unfolding accept
accept-Keeps unreadable k h = search keeps_rules
accept-Keeps (invalid x) k h = search keeps_rules
accept-Keeps (valid req) k h = h req

ruleset request_rules = (
  keeps_rules, task_rules, enqueue_rules, create_job_record-Keeps, create_organization-Keeps,
  get_organization_by_name-Keeps, create_cluster-Keeps, get_cluster_by_name-Keeps,
  reset_cluster-Keeps, list_clusters-Keeps, Keeps-if,
)

ensure_default_organization-Keeps : Keeps IsConsistent ensure_default_organization
unfolding ensure_default_organization
ensure_default_organization-Keeps = search request_rules depth 12

module _ (req : ProvisionRequest) (org : Organization) (region : String) where
  enqueue_cluster-Keeps : (id : Uuid) → Keeps IsConsistent (enqueue_cluster req org region id)
  unfolding enqueue_cluster
  enqueue_cluster-Keeps id = search request_rules depth 20

  create_new-Keeps : (id : Uuid) → Keeps IsConsistent (create_new req org region id)
  unfolding create_new
  create_new-Keeps id = search (request_rules, enqueue_cluster-Keeps) depth 12

  reuse-Keeps : (existing : Cluster) → Keeps IsConsistent (reuse req org region existing)
  unfolding reuse
  reuse-Keeps existing = search (request_rules, enqueue_cluster-Keeps) depth 12

provision_cluster-Keeps : (req : ProvisionRequest) → Keeps IsConsistent (provision_cluster req)
unfolding provision_cluster
provision_cluster-Keeps req =
    search (request_rules, ensure_default_organization-Keeps, create_new-Keeps, reuse-Keeps) depth
      12

pub handle_provision-Keeps :
    (incoming : Incoming ProvisionRequest) → Keeps IsConsistent (handle_provision incoming)
unfolding handle_provision
handle_provision-Keeps incoming = accept-Keeps incoming _ provision_cluster-Keeps

module _ (stack_name : String) where
  enqueue_destroy_of-Keeps :
      (cluster_text : String) → Keeps IsConsistent (enqueue_destroy_of stack_name cluster_text)
  unfolding enqueue_destroy_of
  enqueue_destroy_of-Keeps cluster_text = search request_rules depth 12

  destroy_found-Keeps :
      (c : Cluster) (refusal : Option String)
      → Keeps IsConsistent (destroy_found stack_name c refusal)
  unfolding destroy_found
  destroy_found-Keeps c (some refusal) = search keeps_rules
  destroy_found-Keeps c none = search (keeps_rules, enqueue_destroy_of-Keeps)

  destroy_cluster-Keeps : Keeps IsConsistent (destroy_cluster stack_name)
  unfolding destroy_cluster
  destroy_cluster-Keeps = search (request_rules, destroy_found-Keeps, enqueue_destroy_of-Keeps)

pub handle_destroy-Keeps :
    (incoming : Incoming String) → Keeps IsConsistent (handle_destroy incoming)
unfolding handle_destroy
handle_destroy-Keeps incoming = accept-Keeps incoming _ destroy_cluster-Keeps

pub handle_list_clusters-Keeps : Keeps IsConsistent handle_list_clusters
unfolding handle_list_clusters
handle_list_clusters-Keeps = search (request_rules, ensure_default_organization-Keeps)
