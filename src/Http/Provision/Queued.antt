-- ===== src/Http/Provision/Queued.antt =====
-- The 202s of HandleProvision and HandleDestroy.
use tark.Common.{String, Option, none, some, inr, arith, [], ◌∷◌}
use tark.Models.{Uuid, Organization, Cluster}
use tark.Queue.{
  task_type_provision_cluster, task_type_destroy_cluster, queue_infra_provision, queue_cleanup,
}
use tark.Queue.Tasks.{new_provision_cluster_task, new_destroy_cluster_task}
use tark.Queue.Client.{enqueue_provision, enqueue_destroy}
use tark.Http.ApiError.{respond, bad_request}
use Prim.Native.Char.{Char}
use tark.Http.Validation.{ValidateError, validation_errors, other, validation_error}
use tark.Http.Queued.{Accepts, Accepts-asks, Accepts-task, Refuses, accepts_rules}
use tark.Http.Provision.{
  Incoming, unreadable, invalid, valid, accept, ProvisionRequest, enqueue_cluster, create_new,
  reuse, provision_cluster, handle_provision, enqueue_destroy_of, destroy_found, destroy_cluster,
  handle_destroy, handle_list_clusters,
}
use tark.System.Env.{Env}
use tark.System.Act.{Act, asks}
use tark.Http.ApiError.{Response, Body}

abbrev Provisions : Act Response → Type 0
Provisions m = Accepts task_type_provision_cluster queue_infra_provision m

abbrev Destroys : Act Response → Type 0
Destroys m = Accepts task_type_destroy_cluster queue_cleanup m

enqueue_cluster-Accepts :
    (req : ProvisionRequest) (org : Organization) (region : String) (id : Uuid)
    → Provisions (enqueue_cluster req org region id)
unfolding enqueue_cluster new_provision_cluster_task enqueue_provision
enqueue_cluster-Accepts req org region id = search (accepts_rules, Accepts-task) depth 14

create_new-Accepts :
    (req : ProvisionRequest) (org : Organization) (region : String) (id : Uuid)
    → Provisions (create_new req org region id)
unfolding create_new
create_new-Accepts req org region id = search (accepts_rules, enqueue_cluster-Accepts) depth 9

exists-Accepts : (f : Env → Body) → Provisions (asks λ e. record { status = 409; body = f e })
exists-Accepts f = Accepts-asks _ λ e. inr (omega arith)

reuse-Accepts :
    (req : ProvisionRequest) (org : Organization) (region : String) (c : Cluster)
    → Provisions (reuse req org region c)
unfolding reuse
reuse-Accepts req org region c = search (accepts_rules, enqueue_cluster-Accepts, exists-Accepts)

provision_cluster-Accepts : (req : ProvisionRequest) → Provisions (provision_cluster req)
unfolding provision_cluster
provision_cluster-Accepts req = search (accepts_rules, create_new-Accepts, reuse-Accepts) depth 9

validation_error-Refuses :
    (lower_rune : Char → Char) (x : ValidateError) → Refuses (validation_error lower_rune x).status
unfolding validation_error bad_request
validation_error-Refuses lower_rune other = inr (omega arith)
validation_error-Refuses lower_rune (validation_errors []) = inr (omega arith)
validation_error-Refuses lower_rune (validation_errors (fe ∷ rest)) = inr (omega arith)

-- The early returns of every handler with a body.
pub accept-Accepts :
    {A : Type 0} (t q : String) (incoming : Incoming A) (k : A → Act Response)
    → ((req : A) → Accepts t q (k req))
    → Accepts t q (accept incoming k)
unfolding accept respond
accept-Accepts t q unreadable k h = search accepts_rules
accept-Accepts t q (invalid x) k h = Accepts-asks _ λ e. validation_error-Refuses e.lower_rune x
accept-Accepts t q (valid req) k h = h req

pub handle_provision-Accepts :
    (incoming : Incoming ProvisionRequest) → Provisions (handle_provision incoming)
unfolding handle_provision
handle_provision-Accepts incoming =
    accept-Accepts _ _ incoming provision_cluster provision_cluster-Accepts

enqueue_destroy_of-Accepts : (stack text : String) → Destroys (enqueue_destroy_of stack text)
unfolding enqueue_destroy_of new_destroy_cluster_task enqueue_destroy
enqueue_destroy_of-Accepts stack text = search (accepts_rules, Accepts-task) depth 14

destroy_found-Accepts :
    (stack : String) (c : Cluster) (refusal : Option String)
    → Destroys (destroy_found stack c refusal)
unfolding destroy_found
destroy_found-Accepts stack c (some text) = search accepts_rules
destroy_found-Accepts stack c none = search (accepts_rules, enqueue_destroy_of-Accepts)

destroy_cluster-Accepts : (stack : String) → Destroys (destroy_cluster stack)
unfolding destroy_cluster
destroy_cluster-Accepts stack =
    search (accepts_rules, enqueue_destroy_of-Accepts, destroy_found-Accepts)

pub handle_destroy-Accepts : (incoming : Incoming String) → Destroys (handle_destroy incoming)
unfolding handle_destroy
handle_destroy-Accepts incoming =
    accept-Accepts _ _ incoming destroy_cluster destroy_cluster-Accepts

pub handle_list_clusters-Accepts : (t q : String) → Accepts t q handle_list_clusters
unfolding handle_list_clusters
handle_list_clusters-Accepts t q = search accepts_rules
