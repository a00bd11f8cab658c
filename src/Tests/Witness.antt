-- ===== src/Tests/Witness.antt =====
-- Each theorem with a hypothesis or a variable, at a concrete input.
use mathlib.Core.List.{Memᴰ}
use mathlib.Core.List.Memᴰ.{head}
use tark.Common.{none, [], ◌∷◌, ◌≡◌, refl, ◌↔◌, ok, nat_eq, false, arith}
use tark.Models.{Deployment}
use tark.Store.Consistency.{IsConsistent}
use tark.Store.Select.{select_active_targets}
use tark.Store.Select.Targets.{IsTarget, select_active_targets_correct}
use tark.Crypto.{encrypt, decrypt}
use tark.Crypto.Base64.{encode}
use tark.Crypto.RoundTrip.{decrypt-encrypt}
use tark.Http.Provision.{valid}
use tark.Program.{post_provision, delete_deployment, serve}
use tark.Program.Accepted.{IsTaken, serve-IsTaken}
use tark.Program.Reach as Reach
use tark.Program.Reach.{start, step, Reachable-IsConsistent}
use tark.Worker.Shared.Truth.{Truthful}
use tark.Worker.Provision.{handle_provision_cluster_task}
use tark.Worker.Provision.Truth.{provision_task-Truthful}
use tark.Worker.Provision.Outcome.{Provisioned, provision_task_outcome}
use tark.Worker.Deploy.{handle_deploy_model_task}
use tark.Worker.Deploy.Truth.{deploy_task-Truthful}
use tark.Worker.Deploy.Outcome.{Deployed, deploy_task_outcome}
use tark.Worker.Delete.{handle_delete_model_task}
use tark.Worker.Delete.Outcome.{Deleted, delete_task_outcome}
use tark.Worker.Destroy.{handle_destroy_cluster_task}
use tark.Worker.Destroy.Truth.{destroy_task-Truthful}
use tark.Worker.Destroy.Outcome.{Destroyed, destroy_task_outcome}
use tark.Worker.Destroy.Routing.{destroy_task_unroutes}
use tark.Worker.Destroy.{destroy, mark_destroyed, set_status, with_cluster_id}
use tark.Worker.Shared.{complete_job}
use tark.Worker.Provisioner.{upsert, destroy_cluster}
use tark.Queue.Tasks.{parse_destroy_cluster_payload}
use tark.Store.Methods.{
  update_cluster_status, update_cluster_details, update_deployments_status_by_cluster,
  update_job_status,
}
use tark.Store.Update.{
  set_cluster_status, set_cluster_details, set_job_status, set_deployments_status_by_cluster,
}
use tark.Common.{select_where, update_where, sort_desc, insert_desc, find_first}
use tark.Http.Deploy.{handle_delete_deployment, delete_found, enqueue_delete, resolve_cluster_id}
use tark.Http.Deploy.Resolve.{OnActive, resolve_cluster_id-OnActive}
use tark.Http.Deploy.Accepted.{IsQueued, handle_delete_deployment-IsQueued}
use tark.Worker.Deploy.{healthy, timed_out, wait_for_health}
use tark.Worker.Deploy.Wait.{rounds_of, Missed, wait_for_health-healthy, wait_for_health-timed_out}
use tark.Queue.Tasks.{new_delete_model_task, new_task}
use tark.Queue.Client.{enqueue, enqueue_delete_model}
use tark.Store.Methods.{get_deployment}
use tark.Store.Select.{select_deployment}
use tark.Common.{ℕ, zero, suc, ◌+◌, ◌*◌, ◌<◌}
use tark.System.Act.{
  query, World, ◌>>=◌, ◌>>◌, pure, asks, call, request, check, branch, exec, commit, attempt,
}
use tark.Tests.Fixture.{
  cluster_uuid, deployment_uuid, provision_payload, deploy_payload, delete_payload, destroy_payload,
  calm, calm-IsUp, cipher, calm-IsSound, server, late, deaf, world, two_clusters, deploy_task,
  delete_task, provision_task, destroy_task, provision_request,
}

abbrev empty_world : World
empty_world = record {
  db = record { organizations = []; clusters = []; deployments = []; jobs = [] };
  trace = [];
  proxies = [];
  moment = 0;
}

Reachable-IsConsistent_example :
    IsConsistent (serve (post_provision (valid provision_request)) calm empty_world).1.db
Reachable-IsConsistent_example =
    Reachable-IsConsistent server
      (step (start 0) (Reach.request (post_provision (valid provision_request)) calm empty_world))

deploy_task-Truthful_example :
    Truthful "job"
      (handle_deploy_model_task server deploy_task calm world).0
      (handle_deploy_model_task server deploy_task calm world).1.db
deploy_task-Truthful_example =
    deploy_task-Truthful server deploy_task deploy_payload calm world calm-IsUp refl

destroy_task-Truthful_example :
    Truthful "job"
      (handle_destroy_cluster_task destroy_task calm world).0
      (handle_destroy_cluster_task destroy_task calm world).1.db
destroy_task-Truthful_example =
    destroy_task-Truthful destroy_task destroy_payload calm world calm-IsUp refl

provision_task-Truthful_example :
    Truthful "job"
      (handle_provision_cluster_task server provision_task calm world).0
      (handle_provision_cluster_task server provision_task calm world).1.db
provision_task-Truthful_example =
    provision_task-Truthful server provision_task provision_payload calm world calm-IsUp refl

deploy_task_outcome_example :
    Deployed deployment_uuid
      (ok cluster_uuid)
      deploy_payload.node_port
      (handle_deploy_model_task server deploy_task calm world).0
      (handle_deploy_model_task server deploy_task calm world).1.db
deploy_task_outcome_example =
    deploy_task_outcome server deploy_task deploy_payload deployment_uuid calm world calm-IsUp refl
      refl

delete_task_outcome_example :
    Deleted deployment_uuid
      (handle_delete_model_task server delete_task calm world).0
      (handle_delete_model_task server delete_task calm world).1.db
delete_task_outcome_example =
    delete_task_outcome server delete_task delete_payload deployment_uuid calm world calm-IsUp refl
      refl

destroy_task_outcome_example :
    Destroyed cluster_uuid
      (handle_destroy_cluster_task destroy_task calm world).0
      (handle_destroy_cluster_task destroy_task calm world).1.db
destroy_task_outcome_example =
    destroy_task_outcome destroy_task destroy_payload cluster_uuid calm world calm-IsUp refl refl
      refl

select_active_targets_correct_example :
    Memᴰ "http://10.0.0.4:30000" (select_active_targets "vllm" world.db)
    ↔ IsTarget "vllm" world.db "http://10.0.0.4:30000"
select_active_targets_correct_example =
    select_active_targets_correct "vllm" world.db "http://10.0.0.4:30000"

encrypted :
    (encrypt cipher (97 ∷ []) calm world).0
    ≡ ok (encode (9 ∷ 9 ∷ 9 ∷ 9 ∷ 9 ∷ 9 ∷ 9 ∷ 9 ∷ 9 ∷ 9 ∷ 9 ∷ 9 ∷ 97 ∷ []))
unfolding encrypt ◌>>=◌ pure asks call check branch
encrypted = refl

decrypt-encrypt_example :
    decrypt cipher (encode (9 ∷ 9 ∷ 9 ∷ 9 ∷ 9 ∷ 9 ∷ 9 ∷ 9 ∷ 9 ∷ 9 ∷ 9 ∷ 9 ∷ 97 ∷ [])) calm world
    ≡ (ok (97 ∷ []), world)
decrypt-encrypt_example =
    decrypt-encrypt calm cipher (97 ∷ []) world world
      (encode (9 ∷ 9 ∷ 9 ∷ 9 ∷ 9 ∷ 9 ∷ 9 ∷ 9 ∷ 9 ∷ 9 ∷ 9 ∷ 9 ∷ 97 ∷ [])) (omega arith, tt)
      calm-IsSound encrypted

destroyed : (handle_destroy_cluster_task destroy_task calm two_clusters).0 ≡ ok tt
unfolding handle_destroy_cluster_task destroy mark_destroyed set_status with_cluster_id complete_job
    upsert destroy_cluster parse_destroy_cluster_payload update_cluster_status
    update_cluster_details update_deployments_status_by_cluster update_job_status exec commit
    attempt ◌>>=◌ ◌>>◌ pure asks call request check branch
destroyed = refl

still_routed :
    Memᴰ "http://10.0.0.6:30000" (
      select_active_targets "vllm"
        (handle_destroy_cluster_task destroy_task calm two_clusters).1.db)
unfolding handle_destroy_cluster_task destroy mark_destroyed set_status with_cluster_id complete_job
    upsert destroy_cluster parse_destroy_cluster_payload update_cluster_status
    update_cluster_details update_deployments_status_by_cluster update_job_status exec commit
    attempt ◌>>=◌ ◌>>◌ pure asks call request check branch set_cluster_status set_cluster_details
    set_job_status set_deployments_status_by_cluster select_active_targets select_where update_where
    sort_desc insert_desc find_first
still_routed = head refl

destroy_task_unroutes_example :
    (d : Deployment) × Memᴰ d
      (handle_destroy_cluster_task destroy_task calm two_clusters).1.db.deployments
    × ("http://10.0.0.6:30000" ≡ d.service_url)
    × (nat_eq d.cluster_id cluster_uuid ≡ false)
destroy_task_unroutes_example =
    destroy_task_unroutes destroy_task destroy_payload cluster_uuid calm two_clusters calm-IsUp refl
      refl refl destroyed "vllm" "http://10.0.0.6:30000" still_routed

resolve_cluster_id-OnActive_example : OnActive world.db (resolve_cluster_id "5" calm world).0
resolve_cluster_id-OnActive_example = resolve_cluster_id-OnActive calm world "5"

late-Missed : (j : ℕ) → j < 1 → Missed late "10.0.0.4:30000" (world.moment + 3 * j)
late-Missed zero less = record { error = "refused"; refused = refl; running = refl }
late-Missed (suc j) less = ground arith

wait_for_health-healthy_example : (wait_for_health 90 "10.0.0.4:30000" late world).0 ≡ healthy
wait_for_health-healthy_example =
    wait_for_health-healthy late "10.0.0.4:30000" 90 1 world (omega arith) late-Missed refl

wait_for_health-timed_out_example :
    ((wait_for_health 90 "10.0.0.4:30000" deaf world).0 ≡ timed_out)
    × ((wait_for_health 90 "10.0.0.4:30000" deaf world).1.trace
        ≡ rounds_of "10.0.0.4:30000" 90 world.trace)
wait_for_health-timed_out_example =
    wait_for_health-timed_out deaf "10.0.0.4:30000" 90 world
      λ j less. record { error = "refused"; refused = refl; running = refl }

deletion_accepted : (handle_delete_deployment "7" calm world).0.status ≡ 202
unfolding handle_delete_deployment delete_found enqueue_delete new_delete_model_task new_task
    enqueue_delete_model enqueue get_deployment query attempt ◌>>=◌ ◌>>◌ pure asks call request
    check branch select_deployment find_first
deletion_accepted = refl

handle_delete_deployment-IsQueued_example :
    IsQueued "7" calm world (handle_delete_deployment "7" calm world).1
handle_delete_deployment-IsQueued_example =
    handle_delete_deployment-IsQueued "7" calm world deletion_accepted

delete_accepted : (serve (delete_deployment "7") calm world).0.status ≡ 202
unfolding serve
delete_accepted = deletion_accepted

serve-IsTaken_example :
    IsTaken server (delete_deployment "7") calm (serve (delete_deployment "7") calm world).1
serve-IsTaken_example = serve-IsTaken server (delete_deployment "7") calm world delete_accepted

provision_task_outcome_example :
    Provisioned calm none cluster_uuid
      (handle_provision_cluster_task server provision_task calm world).0
      (handle_provision_cluster_task server provision_task calm world).1.db
provision_task_outcome_example =
    provision_task_outcome server provision_task provision_payload cluster_uuid calm world calm-IsUp
      refl refl
