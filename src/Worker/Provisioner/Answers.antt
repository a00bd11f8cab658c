-- ===== src/Worker/Provisioner/Answers.antt =====
-- Where an address and a kubeconfig come from.
use tark.Common.{ℕ, String, Option, none, some, List, ok, ◌≡◌, ◌<>◌}
use tark.Models.{Bytes}
use tark.Worker.Provisioner.{provision_cluster, public_ip_output, fetch_remote_kubeconfig}
use tark.System.Env.{Env}
use tark.System.Act.{pure, call, request, from_fault}
use tark.System.Leads.{Returns, Returns-err, Returns-ok, Returns-check, Returns-bind}

-- The output `publicIp` of a stack that was brought up.
pub record IsOutput (e : Env) (ip : String) : Type 0 where
  pub moment : ℕ
  pub output : e.stack_up moment ≡ ok (some ip)

-- What the command wrote that prints the kubeconfig, in a session at the address.
pub record IsFetched (e : Env) (ip : String) (config : Bytes) : Type 0 where
  pub dialed : ℕ
  pub reached : e.ssh_dial dialed (ip <> ":22") "azureuser" ≡ none
  pub moment : ℕ
  pub written : e.ssh_output moment "cat /home/azureuser/client.config" ≡ ok config

from_fault-none : (x : Option String) → from_fault x ≡ ok tt → x ≡ none
from_fault-none none h = cc
from_fault-none (some x) h = cc

module _ (e : Env) where
  IsOutput-of :
      (n : ℕ) (output : Option String)
      → e.stack_up n ≡ ok output
      → Returns e (IsOutput e) (pure (public_ip_output output))
  unfolding public_ip_output
  IsOutput-of n none h = Returns-err _
  IsOutput-of n (some ip) h = Returns-ok ip (record { moment = n; output = h })

  pub provision_cluster-IsOutput :
      (stack_name work_dir : String) (config : List (String × String))
      → Returns e (IsOutput e) (provision_cluster stack_name work_dir config)
  unfolding provision_cluster request
  provision_cluster-IsOutput stack_name work_dir config =
      Returns-check _ _ _ (λ x. Returns-err _)
        λ w abs_work_dir _.
          Returns-check _ _ _ (λ x. Returns-err _)
            λ w _ _.
              Returns-check _ _ _ (λ x. Returns-err _)
                λ w _ _.
                  Returns-check _ _ _ (λ x. Returns-err _)
                    λ w output answer. IsOutput-of w.moment output answer

  pub fetch_remote_kubeconfig-IsFetched :
      (ip key_path : String) → Returns e (IsFetched e ip) (fetch_remote_kubeconfig ip key_path)
  unfolding fetch_remote_kubeconfig request call
  fetch_remote_kubeconfig-IsFetched ip key_path =
      Returns-check _ _ _ (λ x. Returns-err _)
        λ w _ _.
          Returns-check _ _ _ (λ x. Returns-err _)
            λ w key _.
              Returns-check _ _ _ (λ x. Returns-err _)
                λ w _ _.
                  Returns-check _ _ _ (λ x. Returns-err _)
                    λ dial _ reached.
                      Returns-check _ _ _ (λ x. Returns-err _)
                        λ w _ _.
                          Returns-check _ _ _ (λ x. Returns-bind _ _ λ w. Returns-err _)
                            λ w config written. Returns-ok config (record {
                              dialed = dial.moment;
                              reached = from_fault-none _ reached;
                              moment = w.moment;
                              written = written;
                            })
