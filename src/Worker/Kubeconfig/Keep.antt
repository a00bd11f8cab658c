-- ===== src/Worker/Kubeconfig/Keep.antt =====
-- The retries of the SSH session leave the tables alone.
use tark.Common.{ℕ, zero, suc, String, Error}
use tark.Store.{Database}
use tark.Worker.Provisioner.Keep.{fetch_remote_kubeconfig-Keeps}
use tark.Worker.Kubeconfig.{max_retries, fetch_rounds, fetch_kubeconfig_with_retry}
use tark.System.Keeps.{Keeps, keeps_rules}

module _ {P : Database → Type 0} (public_ip key_path : String) where
  fetch_rounds-Keeps : (n : ℕ) (last : Error) → Keeps P (fetch_rounds n public_ip key_path last)
  unfolding fetch_rounds
  fetch_rounds-Keeps zero last = search keeps_rules
  fetch_rounds-Keeps (suc n) last =
      search (keeps_rules, fetch_remote_kubeconfig-Keeps, fetch_rounds-Keeps n)

  pub fetch_kubeconfig_with_retry-Keeps : Keeps P (fetch_kubeconfig_with_retry public_ip key_path)
  unfolding fetch_kubeconfig_with_retry
  fetch_kubeconfig_with_retry-Keeps = fetch_rounds-Keeps max_retries ""
