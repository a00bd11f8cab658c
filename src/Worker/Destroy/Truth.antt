-- ===== src/Worker/Destroy/Truth.antt =====
-- A destroy task's job row says how the handler ended.
use tark.Common.{Bool-cases, inl, inr, ◌==◌, String, ◌≡◌, ap, ok}
use tark.Models.{Uuid}
use tark.Queue.{Task, DestroyClusterPayload}
use tark.Queue.Tasks.Parse.{parse_destroy_cluster_payload-ok}
use tark.Store.{Database}
use tark.Worker.Shared.Truth.{Truthful, Reads, truth_rules}
use tark.Worker.Destroy.{with_cluster_id, destroy, handle_destroy_cluster_task}
use tark.System.Env.{Env}
use tark.System.Act.{Act, World}
use tark.System.Ensures.{IsUp, Ensures, Ensures-check, Ensures-check_known}

with_cluster_id-Ensures :
    {A : Type 0} {H : Env → Type 0} {Q : A → Database → Type 0} (text : String) (k : Uuid → Act A)
    (other : Act A)
    → ((id : Uuid) → Ensures H Q (k id))
    → Ensures H Q other
    → Ensures H Q (with_cluster_id text k other)
unfolding with_cluster_id
with_cluster_id-Ensures text k other hk ho = elim (Bool-cases (text == "")) [
  | inl empty ↦ rw empty ho
  | inr given ↦ rw given (Ensures-check _ _ _ (λ x. ho) hk)
]

destroy-Truthful :
    {H : Env → Type 0} (up : (e : Env) → H e → IsUp e) (payload : DestroyClusterPayload)
    → Ensures H (Truthful payload.job_id) (destroy payload)
unfolding destroy
destroy-Truthful up payload = search (truth_rules, with_cluster_id-Ensures) depth 20

module _ (task : Task) (payload : DestroyClusterPayload) where
  destroy_task_ends :
      Ensures
        (Reads (λ e. e.unmarshal_destroy task.payload) payload)
        (Truthful payload.job_id)
        (handle_destroy_cluster_task task)
  unfolding handle_destroy_cluster_task
  destroy_task_ends =
      Ensures-check_known _ _ _ payload
        (λ e h w. ap (λ r. r.0) (parse_destroy_cluster_payload-ok task e w h.read_payload))
        (search (truth_rules, destroy-Truthful) depth 12)

  -- While the database is up and the task's context does not end, a destroy task whose payload is
  -- read ends with the job's rows `completed` if the handler returns nil and `failed` if it returns
  -- an error, each with a time of completion, whatever the tables were and whatever else fails.
  pub destroy_task-Truthful :
      (e : Env) (w : World)
      → IsUp e
      → e.unmarshal_destroy task.payload ≡ ok payload
      → Truthful payload.job_id
          (handle_destroy_cluster_task task e w).0
          (handle_destroy_cluster_task task e w).1.db
  destroy_task-Truthful e w up read =
      destroy_task_ends.at e (record { up = up; read_payload = read }) w
