-- ===== src/Worker/Shared/Keep.antt =====
-- What the handlers share keeps the tables consistent.
use tark.Common.{String, Option, none, some, Bool, true, false, Error, if◌then◌else◌}
use tark.Models.{Bytes}
use tark.Store.{Database}
use tark.Store.Consistency.{IsConsistent}
use tark.Store.Methods.Keep.{update_job_status-Keeps}
use tark.Crypto.{Cipher}
use tark.Crypto.Keep.{decrypt-Keeps}
use tark.Worker.Shared.{
  Server, fail_job, complete_job, delete_keys, invalidate_model_cache, decrypt_with,
  decrypt_kubeconfig,
}
use tark.System.Act.{Act}
use tark.System.Keeps.{Keeps, keeps_rules, Keeps-pure}

pub fail_job-Keeps : (job_id : String) (x : Error) → Keeps IsConsistent (fail_job job_id x)
unfolding fail_job
fail_job-Keeps job_id x = search (keeps_rules, update_job_status-Keeps)

pub complete_job-Keeps : (job_id : String) → Keeps IsConsistent (complete_job job_id)
unfolding complete_job
complete_job-Keeps job_id = search (keeps_rules, update_job_status-Keeps)

module _ {P : Database → Type 0} where
  delete_keys-Keeps : (model : String) → Keeps P (delete_keys model)
  unfolding delete_keys
  delete_keys-Keeps model = search keeps_rules

  pub Keeps-if :
      {A : Type 0} (b : Bool) (m n : Act A) → Keeps P m → Keeps P n → Keeps P (if b then m else n)
  Keeps-if true m n km kn = km
  Keeps-if false m n km kn = kn

  pub invalidate_model_cache-Keeps :
      (s : Server) (model : String) → Keeps P (invalidate_model_cache s model)
  unfolding invalidate_model_cache
  invalidate_model_cache-Keeps s model = Keeps-if _ _ _ (Keeps-pure tt) (delete_keys-Keeps model)

  decrypt_with-Keeps : (c : Option Cipher) (stored : Bytes) → Keeps P (decrypt_with c stored)
  unfolding decrypt_with
  decrypt_with-Keeps none stored = search keeps_rules
  decrypt_with-Keeps (some c) stored = decrypt-Keeps c stored

  pub decrypt_kubeconfig-Keeps :
      (s : Server) (stored : Bytes) → Keeps P (decrypt_kubeconfig s stored)
  unfolding decrypt_kubeconfig
  decrypt_kubeconfig-Keeps s stored = decrypt_with-Keeps s.cipher stored
