-- ===== src/Worker/Shared.antt =====
-- internal/worker/server.go: the server, and what its handlers share.
pub mod Keep
pub mod Truth
pub mod Outcome
use tark.Common.{
  String, Option, none, some, List, [], ◌∷◌, Bool, true, false, not, ◌||◌, Error, Result, ok, ◌==◌,
  if◌then◌else◌,
}
use tark.Models.{Bytes}
use tark.Models.JobStatus
use tark.Text.{trim_space}
use tark.Cache.{model_targets_key, model_round_robin_key}
use tark.Crypto.{Cipher, decrypt}
use tark.Store.Methods.{update_job_status}
use tark.System.Env.{Env}
use tark.System.Act.{Act, Event, ◌>>=◌, ◌>>◌, pure, asks, request}

-- `rdb` is nil or a client; `cipher` is nil when KUBECONFIG_ENCRYPTION_KEY is unset.
pub record Server : Type 0 where
  pub has_rdb : Bool
  pub cipher : Option Cipher

unfoldable pub fail_job : String → Error → Act (Unit {0})
fail_job job_id x = do update_job_status job_id JobStatus.failed x; pure tt

unfoldable pub complete_job : String → Act (Unit {0})
complete_job job_id = do update_job_status job_id JobStatus.completed ""; pure tt

-- The keys of a model, in the order of the DEL.
unfoldable pub model_keys : String → Env → List String
model_keys model e =
    model_targets_key e.lower_rune model ∷ model_round_robin_key e.lower_rune model ∷ []

unfoldable pub delete_keys : String → Act (Unit {0})
delete_keys model = do
  keys ← asks (model_keys model)
  request (Event.redis_del keys) (λ e n. e.redis_fault n)
  pure tt

-- The error of DEL is only logged.
unfoldable pub invalidate_model_cache : Server → String → Act (Unit {0})
unfolding delete_keys
invalidate_model_cache s model =
    if not s.has_rdb || trim_space model == "" then pure tt else delete_keys model

unfoldable pub decrypt_with : Option Cipher → Bytes → Act (Result Bytes)
decrypt_with none stored = pure (ok stored)
decrypt_with (some c) stored = decrypt c stored

unfoldable pub decrypt_kubeconfig : Server → Bytes → Act (Result Bytes)
unfolding decrypt_with
decrypt_kubeconfig s stored = decrypt_with s.cipher stored
