-- ===== src/Queue/Client.antt =====
-- internal/worker/client.go: what is handed to asynq for each kind of task. Times are in seconds.
pub mod Keep
use tark.Common.{ℕ, String, Option, none, some, Error, Result, ok, wrap}
use tark.Queue.{Task, EnqueueOptions, queue_infra_provision, queue_model_deploy, queue_cleanup}
use tark.System.Act.{Act, Event, pure, request, from_fault, check}

-- `c.client.Enqueue(task, options)`, and the context of its error
unfoldable pub enqueue : String → Task → EnqueueOptions → Act (Result (Unit {0}))
enqueue context task options =
    check
      (request (Event.enqueue task options) (λ e n. from_fault (e.enqueue_fault n task options)))
      (λ x. pure (wrap context x)) (λ _. pure (ok tt))

module _ (task : Task) (task_id : String) where
  unfoldable pub enqueue_provision : Act (Result (Unit {0}))
  unfolding enqueue
  enqueue_provision =
      enqueue "enqueue provision task" task
        (record { queue = queue_infra_provision; task_id = task_id; max_retry = 3; timeout = 1800 })

  unfoldable pub enqueue_deploy : Act (Result (Unit {0}))
  unfolding enqueue
  enqueue_deploy =
      enqueue "enqueue deploy task" task
        (record { queue = queue_model_deploy; task_id = task_id; max_retry = 3; timeout = 1200 })

  unfoldable pub enqueue_delete_model : Act (Result (Unit {0}))
  unfolding enqueue
  enqueue_delete_model =
      enqueue "enqueue delete model task" task
        (record { queue = queue_model_deploy; task_id = task_id; max_retry = 3; timeout = 300 })

  unfoldable pub enqueue_destroy : Act (Result (Unit {0}))
  unfolding enqueue
  enqueue_destroy =
      enqueue "enqueue destroy task" task
        (record { queue = queue_cleanup; task_id = task_id; max_retry = 3; timeout = 1800 })
