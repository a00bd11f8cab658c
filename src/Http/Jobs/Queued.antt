-- ===== src/Http/Jobs/Queued.antt =====
-- The answers of the handlers that only read jobs.
use tark.Common.{String}
use tark.Http.Queued.{Accepts, accepts_rules}
use tark.Http.Jobs.{get_job_status, get_status_by_job_id, list_all_jobs}

module _ (t q : String) where
  pub get_job_status-Accepts : (id : String) → Accepts t q (get_job_status id)
  unfolding get_job_status
  get_job_status-Accepts id = search accepts_rules

  pub get_status_by_job_id-Accepts : (id : String) → Accepts t q (get_status_by_job_id id)
  unfolding get_status_by_job_id
  get_status_by_job_id-Accepts id = search accepts_rules depth 9

  pub list_all_jobs-Accepts : Accepts t q list_all_jobs
  unfolding list_all_jobs
  list_all_jobs-Accepts = search accepts_rules
