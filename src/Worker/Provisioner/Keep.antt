-- ===== src/Worker/Provisioner/Keep.antt =====
-- Pulumi and SSH leave the tables alone.
use tark.Common.{String, List, [], ◌∷◌}
use tark.Store.{Database}
use tark.Worker.Provisioner.{
  set_config_all, upsert, provision_cluster, destroy_cluster, fetch_remote_kubeconfig,
}
use tark.System.Keeps.{Keeps, Keeps-check, Keeps-call, Keeps-pure, keeps_rules}

module _ {P : Database → Type 0} where
  set_config_all-Keeps : (config : List (String × String)) → Keeps P (set_config_all config)
  unfolding set_config_all
  set_config_all-Keeps [] = search keeps_rules
  set_config_all-Keeps (entry ∷ rest) =
      Keeps-check _ _ _ (Keeps-call _) (λ x. Keeps-pure _) (λ _. set_config_all-Keeps rest)

  upsert-Keeps : (stack_name work_dir : String) → Keeps P (upsert stack_name work_dir)
  unfolding upsert
  upsert-Keeps stack_name work_dir = search keeps_rules

  pub provision_cluster-Keeps :
      (stack_name work_dir : String) (config : List (String × String))
      → Keeps P (provision_cluster stack_name work_dir config)
  unfolding provision_cluster
  provision_cluster-Keeps stack_name work_dir config =
      search (keeps_rules, set_config_all-Keeps, upsert-Keeps) depth 10

  pub destroy_cluster-Keeps :
      (stack_name work_dir : String) → Keeps P (destroy_cluster stack_name work_dir)
  unfolding destroy_cluster
  destroy_cluster-Keeps stack_name work_dir = search (keeps_rules, upsert-Keeps) depth 10

  pub fetch_remote_kubeconfig-Keeps :
      (host_ip key_path : String) → Keeps P (fetch_remote_kubeconfig host_ip key_path)
  unfolding fetch_remote_kubeconfig
  fetch_remote_kubeconfig-Keeps host_ip key_path = search keeps_rules depth 15
