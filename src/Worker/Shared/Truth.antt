-- ===== src/Worker/Shared/Truth.antt =====
-- The job row says how the handler ended: while the database is up, `completed` exactly where the
-- handler returns nil, `failed` where it returns an error.
use tark.Common.{String, ◌≡◌, Error, Result, ok, err}
use tark.Models.JobStatus
use tark.Store.{Database}
use tark.Store.Methods.Effect.{JobEnded, update_job_status-failed, update_job_status-completed}
use tark.Worker.Shared.{Server, fail_job, complete_job, invalidate_model_cache}
use tark.Worker.Shared.Keep.{invalidate_model_cache-Keeps}
use tark.System.Env.{Env}
use tark.System.Act.{◌>>◌, pure}
use tark.System.Ensures.{IsUp, Establishes, Ensures, Ensures-return, ensures_rules}
use tark.System.Keeps.{keeps_rules}

abbrev pub Truthful : String → Result (Unit {0}) → Database → Type 0
Truthful job_id (ok done) = JobEnded job_id JobStatus.completed
Truthful job_id (err x) = JobEnded job_id JobStatus.failed

-- The database is up, and json.Unmarshal gives the payload.
pub record Reads {P : Type 0} (read : Env → Result P) (payload : P) (e : Env) : Type 0 where
  pub up : IsUp e
  pub read_payload : read e ≡ ok payload

pub Reads-IsUp :
    {P : Type 0} (read : Env → Result P) (payload : P) (e : Env) → Reads read payload e → IsUp e
Reads-IsUp read payload e h = h.up

module _ {H : Env → Type 0} (up : (e : Env) → H e → IsUp e) where
  pub fail_job-ended :
      (job_id : String) (x : Error)
      → Establishes H (JobEnded job_id JobStatus.failed) (fail_job job_id x)
  unfolding fail_job
  fail_job-ended job_id x = search (ensures_rules, keeps_rules, update_job_status-failed up job_id)

  pub complete_job-ended :
      (job_id : String) → Establishes H (JobEnded job_id JobStatus.completed) (complete_job job_id)
  unfolding complete_job
  complete_job-ended job_id =
      search (ensures_rules, keeps_rules, update_job_status-completed up job_id)

  -- A branch that marks the job failed and returns an error.
  pub failing :
      (job_id : String) (x : Error) (y : Error)
      → Ensures H (Truthful job_id) (fail_job job_id x >> pure (err y))
  failing job_id x y = Ensures-return _ (err y) (fail_job-ended job_id x)

  pub completing :
      (job_id : String) → Ensures H (Truthful job_id) (complete_job job_id >> pure (ok tt))
  completing job_id = Ensures-return _ (ok tt) (complete_job-ended job_id)

  pub completing_then_invalidating :
      (job_id : String) (s : Server) (model : String)
      → Ensures H
          (Truthful job_id)
          (complete_job job_id >> (invalidate_model_cache s model >> pure (ok tt)))
  unfolding ◌>>◌ pure
  completing_then_invalidating job_id s model = record {
    at = λ e he w.
        (invalidate_model_cache-Keeps {P = JobEnded job_id JobStatus.completed} s model).at e _
          ((complete_job-ended job_id).at e he w);
  }

pub ruleset truth_rules =
    (ensures_rules, failing, completing, completing_then_invalidating, fail_job-ended, Reads-IsUp)
