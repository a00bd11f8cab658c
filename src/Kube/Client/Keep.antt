-- ===== src/Kube/Client/Keep.antt =====
-- The Kubernetes client leaves the tables alone.
use tark.Common.{String, Option, none, some}
use tark.Models.{Bytes}
use tark.Store.{Database}
use tark.Kube.Objects.{KubeKind, KubeObject}
use tark.Kube.Client.{
  ModelConfig, new_from_kubeconfig, create, unless_found, ensure, deploy_model, delete_model,
}
use tark.System.Env.{KubeError, not_found, other}
use tark.System.Keeps.{Keeps, keeps_rules}

module _ {P : Database → Type 0} where
  pub new_from_kubeconfig-Keeps : (config : Bytes) → Keeps P (new_from_kubeconfig config)
  unfolding new_from_kubeconfig
  new_from_kubeconfig-Keeps config = search keeps_rules depth 9

  unless_found-Keeps :
      (found : Option KubeError) (object : KubeObject)
      → Keeps P (unless_found found (create object))
  unfolding unless_found create
  unless_found-Keeps none object = search keeps_rules
  unless_found-Keeps (some (not_found x)) object = search keeps_rules
  unless_found-Keeps (some (other x)) object = search keeps_rules

  ensure-Keeps :
      (kind : KubeKind) (namespace name : String) (object : KubeObject)
      → Keeps P (ensure kind namespace name object)
  unfolding ensure
  ensure-Keeps kind namespace name object = search (keeps_rules, unless_found-Keeps)

  pub deploy_model-Keeps :
      (namespace : String) (cfg : ModelConfig) → Keeps P (deploy_model namespace cfg)
  unfolding deploy_model
  deploy_model-Keeps namespace cfg = search (keeps_rules, ensure-Keeps)

  pub delete_model-Keeps : (namespace name : String) → Keeps P (delete_model namespace name)
  unfolding delete_model
  delete_model-Keeps namespace name = search keeps_rules
