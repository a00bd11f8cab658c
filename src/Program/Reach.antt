-- ===== src/Program/Reach.antt =====
-- The states that the API server and the workers can bring the database to.
use mathlib.Core.Path.{subst, sym}
use tark.Common.{ℕ, [], String, some, ◌≡◌, inl, inr, Bool-cases, Result, ◌==◌}
use mathlib.Core.Option.{some-injective}
use tark.Queue.{
  Task, task_type_provision_cluster, task_type_deploy_model, task_type_delete_model,
  task_type_destroy_cluster,
}
use tark.Store.{empty}
use tark.Store.Consistency.{IsConsistent, empty-IsConsistent}
use tark.Program.{
  Request, post_deploy_request, post_provision, post_destroy, get_job, get_status, get_jobs,
  get_clusters, get_deployments, delete_deployment, serve, handler,
}
use tark.Http.Provision.Keep.{
  handle_provision-Keeps, handle_destroy-Keeps, handle_list_clusters-Keeps,
}
use tark.Http.Deploy.Keep.{
  post_deploy-Keeps, handle_list_deployments-Keeps, handle_delete_deployment-Keeps,
}
use tark.Http.Jobs.Keep.{get_job_status-Keeps, list_all_jobs-Keeps, get_status_by_job_id-Keeps}
use tark.Http.Proxy.{ChatBody, proxy}
use tark.Http.Proxy.Resolve.{ProxyHandler}
use tark.Http.Proxy.Forward.{proxy_unchanged}
use tark.Worker.Shared.{Server}
use tark.Worker.Provision.Keep.{handle_provision_cluster_task-Keeps}
use tark.Worker.Deploy.Keep.{handle_deploy_model_task-Keeps}
use tark.Worker.Delete.Keep.{handle_delete_model_task-Keeps}
use tark.Worker.Destroy.Keep.{handle_destroy_cluster_task-Keeps}
use tark.System.Env.{Env}
use tark.System.Act.{Act, World}
use tark.System.Keeps.{Keeps}

-- One request, one chat request or one task, under any environment: each handler may see another one, and a task may
-- be run again, or never.
pub data Step (s : Server) : World → World → Type 0 where
  request : (r : Request) (e : Env) (w : World) → Step s w (serve r e w).1
  chat : (h : ProxyHandler) (body : ChatBody) (e : Env) (w : World) → Step s w (proxy h body e w).1
  task :
      (t : Task) (h : Task → Act (Result (Unit {0}))) (e : Env) (w : World)
      → handler s t.task_type ≡ some h
      → Step s w (h t e w).1

-- The states from the empty tables on.
pub data Reachable (s : Server) : World → Type 0 where
  start :
      (moment : ℕ) → Reachable s (record { db = empty; trace = []; proxies = []; moment = moment })
  step : {w w' : World} → Reachable s w → Step s w w' → Reachable s w'

serve-Keeps : (r : Request) → Keeps IsConsistent (serve r)
unfolding serve
serve-Keeps (post_deploy_request incoming) = post_deploy-Keeps incoming
serve-Keeps (post_provision incoming) = handle_provision-Keeps incoming
serve-Keeps (post_destroy incoming) = handle_destroy-Keeps incoming
serve-Keeps (get_job id) = get_job_status-Keeps id
serve-Keeps (get_status id) = get_status_by_job_id-Keeps id
serve-Keeps get_jobs = list_all_jobs-Keeps
serve-Keeps get_clusters = handle_list_clusters-Keeps
serve-Keeps get_deployments = handle_list_deployments-Keeps
serve-Keeps (delete_deployment id) = handle_delete_deployment-Keeps id

abbrev KeptBy : (Task → Act (Result (Unit {0}))) → Type 0
KeptBy h = (t : Task) → Keeps IsConsistent (h t)

kept : {h h' : Task → Act (Result (Unit {0}))} → KeptBy h → some h ≡ some h' → KeptBy h'
kept {h} {h'} k e = subst KeptBy (some-injective h h' e) k

handler-Keeps :
    (s : Server) (task_type : String) (h : Task → Act (Result (Unit {0})))
    → handler s task_type ≡ some h
    → KeptBy h
unfolding handler
handler-Keeps s task_type h e = elim (Bool-cases (task_type == task_type_provision_cluster)) [
  | inl p ↦ kept (handle_provision_cluster_task-Keeps s) (rw p at e)
  | inr p ↦ elim (Bool-cases (task_type == task_type_deploy_model)) [
    | inl q ↦ kept (handle_deploy_model_task-Keeps s) (rw (p, q) at e)
    | inr q ↦ elim (Bool-cases (task_type == task_type_delete_model)) [
      | inl r ↦ kept (handle_delete_model_task-Keeps s) (rw (p, q, r) at e)
      | inr r ↦ elim (Bool-cases (task_type == task_type_destroy_cluster)) [
        | inl t ↦ kept handle_destroy_cluster_task-Keeps (rw (p, q, r, t) at e)
        | inr t ↦ cc (rw (p, q, r, t) at e)
      ]
    ]
  ]
]

step-IsConsistent :
    (s : Server) {w w' : World} → Step s w w' → IsConsistent w.db → IsConsistent w'.db
step-IsConsistent s (request r e w) h = (serve-Keeps r).at e w h
step-IsConsistent s (chat p body e w) h = subst IsConsistent (sym (proxy_unchanged p body e w)) h
step-IsConsistent s (task t k e w p) h = (handler-Keeps s t.task_type k p t).at e w h

-- In every state that any sequence of API requests, chat requests and worker tasks reaches from the empty
-- tables, whatever the outside answers at each call, the tables are consistent: each status is one of
-- its lifecycle, each cluster has its organization, each deployment has its cluster, and no two rows
-- of a table share a primary key, nor the name of an organization, the name of a cluster in its
-- organization, or the job id of a job.
pub Reachable-IsConsistent : (s : Server) {w : World} → Reachable s w → IsConsistent w.db
Reachable-IsConsistent s (start moment) = empty-IsConsistent
Reachable-IsConsistent s (step r t) = step-IsConsistent s t (Reachable-IsConsistent s r)
