-- ===== src/Http/Deploy/Accepted.antt =====
-- HandleDeleteDeployment: what a 202 promises.
use tark.Common.{
  ℕ, suc, ◌<◌, ◌⊎◌, String, Option-cases, false, Bool-cases, ◌≡◌, refl, inl, inr, ◌∷◌, ◌<>◌, arith,
  none, ok, Result-cases,
}
use tark.Models.{Uuid, Deployment}
use tark.Queue.{Payload, delete, Task, EnqueueOptions, queue_model_deploy, task_type_delete_model}
use tark.Queue.Tasks.{new_task, new_delete_model_task}
use tark.Queue.Client.{enqueue, enqueue_delete_model}
use tark.Store.Select.{select_deployment}
use tark.Store.Methods.{get_deployment}
use tark.Http.ApiError.{respond, bad_request, not_found_code, conflict_err, internal}
use tark.Http.Deploy.{
  default_namespace, is_ending, enqueue_delete, delete_found, handle_delete_deployment,
}
use tark.System.Env.{Env}
use tark.System.Keeps.{attempt-eq-ok}
use tark.System.Act.{
  store_fault, World, Event, ◌>>=◌, ◌>>◌, pure, asks, call, request, check, branch, query, attempt,
}

-- The options of a delete task.
abbrev pub delete_options : String → EnqueueOptions
delete_options id_text = record {
  queue = queue_model_deploy;
  task_id = "delete:" <> id_text;
  max_retry = 3;
  timeout = 300;
}

-- The deployment of the request is stored and not ending, and one delete task was put on the queue.
pub record IsQueued (text : String) (e : Env) (w w' : World) : Type 0 where
  pub id : Uuid
  pub deployment : Deployment
  pub task : Task
  pub read_id : e.parse_uuid text ≡ ok id
  pub stored : select_deployment id w.db ≡ ok deployment
  pub not_ending : is_ending deployment.status ≡ false
  pub is_delete : task.task_type ≡ task_type_delete_model
  pub sent : w'.trace ≡ Event.enqueue task (delete_options (e.show_uuid id)) ∷ w.trace
  pub moment : ℕ
  pub last : w'.moment ≡ suc moment
  pub taken : e.enqueue_fault moment task (delete_options (e.show_uuid id)) ≡ none
  pub unchanged : w'.db ≡ w.db

-- A task of the deletion was put on the queue, and nothing else was done.
pub record IsSent (id : Uuid) (e : Env) (w w' : World) : Type 0 where
  pub task : Task
  pub is_delete : task.task_type ≡ task_type_delete_model
  pub sent : w'.trace ≡ Event.enqueue task (delete_options (e.show_uuid id)) ∷ w.trace
  pub moment : ℕ
  pub last : w'.moment ≡ suc moment
  pub taken : e.enqueue_fault moment task (delete_options (e.show_uuid id)) ≡ none
  pub unchanged : w'.db ≡ w.db

refused : {A : Type 0} {n : ℕ} → n ≡ 202 → n < 202 ⊎ 202 < n → A
refused h other = let no : ⊥ = ground (arith, h, other) in elim no [ ]

module _ (e : Env) (id : Uuid) (d : Deployment) where
  payload_at : World → Payload
  payload_at w = delete (record {
    job_id = e.show_uuid (e.new_uuid w.moment);
    deployment_id = e.show_uuid d.id;
    cluster_id = e.show_uuid d.cluster_id;
    namespace = default_namespace d.namespace;
    name = d.model_name;
  })

  enqueue_delete-IsSent :
      (w : World)
      → (enqueue_delete id d e w).0.status ≡ 202
      → IsSent id e w (enqueue_delete id d e w).1
  unfolding enqueue_delete payload_at new_delete_model_task new_task enqueue_delete_model enqueue
      ◌>>=◌ ◌>>◌ pure asks call request check branch respond internal
  enqueue_delete-IsSent w status = elim (Result-cases (e.marshal (payload_at w))) [
    | inr (x, bad) ↦ refused (rw bad at status) (inr (omega arith))
    | inl (text, made) ↦
        elim (Option-cases (
          e.enqueue_fault (suc w.moment)
            (record { task_type = task_type_delete_model; payload = text })
            (delete_options (e.show_uuid id)))) [
              | inr (x, bad) ↦ refused (rw (made, bad) at status) (inr (omega arith))
              | inl taken ↦
                  rw (made, taken)
                    (record {
                      task = record { task_type = task_type_delete_model; payload = text };
                      is_delete = refl;
                      sent = refl;
                      moment = suc w.moment;
                      last = refl;
                      taken = taken;
                      unchanged = refl;
                    })
            ]
  ]

ending_refused :
    (e : Env) (id : Uuid) (d : Deployment) (w : World)
    → (delete_found id d e w).0.status ≡ 202
    → (is_ending d.status ≡ false) × (delete_found id d e w ≡ enqueue_delete id d e w)
unfolding delete_found pure respond conflict_err
ending_refused e id d w status = elim (Bool-cases (is_ending d.status)) [
  | inl ending ↦ refused (rw ending at status) (inr (omega arith))
  | inr going ↦ (going, rw going refl)
]

-- Whatever the outside answers, a DELETE that is answered with 202 is for a stored deployment that is not
-- deleted, deleting or orphaned; by its last call, which returned nil, it has put one delete task on the
-- model queue, named after the deployment; it has made no other call on record, and changed no row.
pub handle_delete_deployment-IsQueued :
    (text : String) (e : Env) (w : World)
    → (handle_delete_deployment text e w).0.status ≡ 202
    → IsQueued text e w (handle_delete_deployment text e w).1
unfolding handle_delete_deployment ◌>>=◌ asks check branch get_deployment query pure respond
    bad_request not_found_code
handle_delete_deployment-IsQueued text e w status = elim (Result-cases (e.parse_uuid text)) [
  | inr (x, bad) ↦ refused (rw bad at status) (inr (omega arith))
  | inl (id, read) ↦
      elim (Result-cases (attempt (store_fault e w.moment) (select_deployment id w.db))) [
        | inr (x, bad) ↦ refused (rw (read, bad) at status) (inr (omega arith))
        | inl (d, found) ↦
            let w' : World = record w { moment = suc w.moment } in
            let (going, same) = ending_refused e id d w' (rw (read, found) at status) in
            let done = enqueue_delete-IsSent e id d w' (rw same at (rw (read, found) at status)) in
            rw (read, found, same)
              (record {
                id = id;
                deployment = d;
                task = done.task;
                read_id = read;
                stored = attempt-eq-ok _ _ found;
                not_ending = going;
                is_delete = done.is_delete;
                sent = done.sent;
                moment = done.moment;
                last = done.last;
                taken = done.taken;
                unchanged = done.unchanged;
              })
      ]
]
