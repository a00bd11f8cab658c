-- ===== src/Http/Jobs.antt =====
-- internal/http/handlers/jobs.go: the job endpoints, and the job record of a request.
pub mod Keep
pub mod Queued
use tark.Common.{
  String, Option, none, some, List, Error, Result, ok, err, Bool, ◌==◌, if◌then◌else◌,
}
use tark.Models.{Uuid, nil_uuid, Job}
use tark.Models.JobStatus
use tark.Queue.{Payload}
use tark.Store.Methods.{create_job, get_job, list_jobs, get_deployment, get_cluster}
use tark.Http.ApiError.{
  Response, StatusResource, StatusResponse, job, jobs, job_status, respond, bad_request, internal,
  not_found_code, not_found, invalid_request_field, store_error,
}
use tark.System.Env.{Env}
use tark.System.Act.{Act, ◌>>=◌, ◌>>◌, pure, asks, check}

pub get_job_status : String → Act Response
get_job_status id =
    if id == ""
    then pure (respond (bad_request invalid_request_field "job id is required"))
    else check (get_job id) (λ x. pure (respond (not_found_code not_found "job not found")))
        λ j. pure (record { status = 200; body = job j })

-- A linked row that cannot be read leaves the resource out.
resource_of_deployment : String → Act (Option StatusResource)
resource_of_deployment text =
    check (asks (λ e. e.parse_uuid text)) (λ x. pure none)
      λ id.
        check (get_deployment id) (λ x. pure none)
          λ d. asks λ e.
            some (record { resource_type = "deployment"; id = e.show_uuid d.id; status = d.status })

resource_of_cluster : String → Act (Option StatusResource)
resource_of_cluster text =
    check (asks (λ e. e.parse_uuid text)) (λ x. pure none)
      λ id.
        check (get_cluster id) (λ x. pure none)
          λ c. asks λ e.
            some (record { resource_type = "cluster"; id = e.show_uuid c.id; status = c.status })

-- The deployment comes first; a job with neither has no resource.
resource_of : Option String → Option String → Act (Option StatusResource)
unfolding resource_of_deployment resource_of_cluster
resource_of (some deployment) cluster = resource_of_deployment deployment
resource_of none (some cluster) = resource_of_cluster cluster
resource_of none none = pure none

pub get_status_by_job_id : String → Act Response
unfolding resource_of
get_status_by_job_id id =
    if id == ""
    then pure (respond (bad_request invalid_request_field "jobId is required"))
    else check (get_job id) (λ x. pure (respond (not_found_code not_found "job not found")))
        λ j. do
          resource ← resource_of j.deployment_id j.cluster_id
          pure (record {
            status = 200;
            body = job_status (record {
              job_id = j.job_id;
              task_type = j.task_type;
              status = j.status;
              error = j.error;
              started_at = j.started_at;
              completed_at = j.completed_at;
              resource = resource;
            });
          })

pub list_all_jobs : Act Response
list_all_jobs =
    check list_jobs (λ x. pure (respond (internal store_error "failed to list jobs" x)))
      λ js. pure (record { status = 200; body = jobs js })

-- The errors of json.Marshal and of the INSERT are only logged. The times are the zero time.
pub create_job_record : String → String → Payload → Option String → Option String → Act (Unit {0})
create_job_record job_id task_type payload cluster_id deployment_id =
    check (asks (λ e. e.marshal payload)) (λ x. pure tt)
      λ text. do
        create_job (record {
          id = nil_uuid;
          job_id = job_id;
          task_type = task_type;
          status = JobStatus.queued;
          payload = text;
          cluster_id = cluster_id;
          deployment_id = deployment_id;
          error = none;
          created_at = 0;
          updated_at = 0;
          started_at = none;
          completed_at = none;
        })
        pure tt
