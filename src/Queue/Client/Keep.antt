-- ===== src/Queue/Client/Keep.antt =====
-- Handing a task to the queue leaves the tables alone.
use tark.Common.{String}
use tark.Store.{Database}
use tark.Queue.{Task}
use tark.Queue.Client.{enqueue_provision, enqueue_deploy, enqueue_delete_model, enqueue_destroy}
use tark.System.Keeps.{Keeps, keeps_rules}

module _ {P : Database → Type 0} (task : Task) (task_id : String) where
  pub enqueue_provision-Keeps : Keeps P (enqueue_provision task task_id)
  unfolding enqueue_provision
  enqueue_provision-Keeps = search keeps_rules

  pub enqueue_deploy-Keeps : Keeps P (enqueue_deploy task task_id)
  unfolding enqueue_deploy
  enqueue_deploy-Keeps = search keeps_rules

  pub enqueue_delete_model-Keeps : Keeps P (enqueue_delete_model task task_id)
  unfolding enqueue_delete_model
  enqueue_delete_model-Keeps = search keeps_rules

  pub enqueue_destroy-Keeps : Keeps P (enqueue_destroy task task_id)
  unfolding enqueue_destroy
  enqueue_destroy-Keeps = search keeps_rules

pub ruleset enqueue_rules = (
  enqueue_provision-Keeps, enqueue_deploy-Keeps, enqueue_delete_model-Keeps, enqueue_destroy-Keeps,
)
