-- ===== src/Worker/Kubeconfig/Fetched.antt =====
-- Where a kubeconfig that the retries give comes from.
use tark.Common.{ℕ, zero, suc, String, Error}
use tark.Worker.Provisioner.Answers.{IsFetched, fetch_remote_kubeconfig-IsFetched}
use tark.Worker.Kubeconfig.{max_retries, fetch_rounds, fetch_kubeconfig_with_retry}
use tark.System.Env.{Env}
use tark.System.Leads.{Returns, Returns-err, Returns-ok, Returns-check, Returns-then}

module _ (e : Env) (ip key_path : String) where
  fetch_rounds-IsFetched :
      (n : ℕ) (last : Error) → Returns e (IsFetched e ip) (fetch_rounds n ip key_path last)
  unfolding fetch_rounds
  fetch_rounds-IsFetched zero last = Returns-err _
  fetch_rounds-IsFetched (suc n) last =
      Returns-check _ _ _ (λ x. Returns-then _ _ (fetch_rounds-IsFetched n x))
        λ w config fine.
          Returns-ok config ((fetch_remote_kubeconfig-IsFetched e ip key_path).at w config fine)

  pub fetch_kubeconfig_with_retry-IsFetched :
      Returns e (IsFetched e ip) (fetch_kubeconfig_with_retry ip key_path)
  unfolding fetch_kubeconfig_with_retry
  fetch_kubeconfig_with_retry-IsFetched = fetch_rounds-IsFetched max_retries ""
