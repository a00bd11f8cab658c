-- ===== src/Http/ApiError.antt =====
-- internal/apierror/apierror.go: structured errors, and the responses of the handlers.
use tark.Common.{ℕ, String, Option, none, some, List, Error, ◌<>◌, ◌==◌, if◌then◌else◌}
use tark.Models.{Cluster, Deployment, Job, Time}

-- type Code
abbrev pub invalid_request : String
invalid_request = "INVALID_REQUEST"

abbrev pub invalid_request_field : String
invalid_request_field = "INVALID_FIELD"

abbrev pub invalid_request_body : String
invalid_request_body = "INVALID_BODY"

abbrev pub not_found : String
not_found = "NOT_FOUND"

abbrev pub already_exists : String
already_exists = "ALREADY_EXISTS"

abbrev pub conflict : String
conflict = "CONFLICT"

abbrev pub internal_error : String
internal_error = "INTERNAL"

abbrev pub store_error : String
store_error = "STORE_ERROR"

abbrev pub queue_error : String
queue_error = "QUEUE_ERROR"

abbrev pub model_not_found : String
model_not_found = "MODEL_UNAVAILABLE"

pub record ApiError : Type 0 where
  pub code : String
  pub message : String
  pub status : ℕ
  pub cause : Option Error

cause_text : Option Error → String
cause_text none = ""
cause_text (some x) = " (" <> x <> ")"

-- func (e *Error) Error() string
unfoldable pub error_text : ApiError → String
unfolding cause_text
error_text x = x.code <> ": " <> x.message <> cause_text x.cause

abbrev default_code : String → String → String
default_code code fallback = if code == "" then fallback else code

unfoldable pub bad_request : String → String → ApiError
bad_request code message = record {
  code = default_code code invalid_request;
  message = message;
  status = 400;
  cause = none;
}

unfoldable pub not_found_code : String → String → ApiError
not_found_code code message = record {
  code = default_code code not_found;
  message = message;
  status = 404;
  cause = none;
}

unfoldable pub conflict_err : String → String → ApiError
conflict_err code message = record {
  code = default_code code conflict;
  message = message;
  status = 409;
  cause = none;
}

unfoldable pub internal : String → String → Error → ApiError
internal code message cause = record {
  code = default_code code internal_error;
  message = message;
  status = 500;
  cause = some cause;
}

unfoldable pub service_unavailable : String → String → ApiError
service_unavailable code message = record {
  code = default_code code model_not_found;
  message = message;
  status = 503;
  cause = none;
}

-- The linked entity of a job: its type, id and status.
pub record StatusResource : Type 0 where
  pub resource_type : String
  pub id : String
  pub status : String

-- statusResponse of internal/http/handlers/jobs.go
pub record StatusResponse : Type 0 where
  pub job_id : String
  pub task_type : String
  pub status : String
  pub error : Option String
  pub started_at : Option Time
  pub completed_at : Option Time
  pub resource : Option StatusResource

-- The JSON bodies. A list of rows is sent without the kubeconfigs.
pub data Body : Type 0 where
  error : String → String → Body
  cluster_exists : String → String → String → String → Body
  provision_queued : String → String → String → Body
  destroy_queued : String → String → String → Body
  deploy_queued : String → String → String → Body
  delete_queued : String → String → String → Body
  clusters : List Cluster → Body
  deployments : List Deployment → Body
  job : Job → Body
  jobs : List Job → Body
  job_status : StatusResponse → Body

pub record Response : Type 0 where
  pub status : ℕ
  pub body : Body

-- The cause is never sent.
unfoldable pub respond : ApiError → Response
respond x = record { status = x.status; body = error x.code x.message }
