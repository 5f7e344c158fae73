-- ===== src/Tests/Workers.antt =====
-- Workers, and the life of a task with the priority consumer.
use forge_task_queue.Common.{◌≡◌, refl, none, List, [], ◌∷◌}
use forge_task_queue.Task.Store.{StreamMessage, payload_of}
use forge_task_queue.Task.Codec.{marshal, unmarshal}
use forge_task_queue.Consumer.{recovered, worker, process_message}
use forge_task_queue.Consumer.Workers.{run, Settles, Breaks, counted, Works, worker-Works}
use forge_task_queue.PriorityConsumer
use forge_task_queue.PriorityConsumer.Delivery
use forge_task_queue.PriorityConsumer.Delivery.{priority_runs-due}
use forge_task_queue.PriorityConsumer.Workers
use forge_task_queue.PriorityConsumer.Workers.{uncounted, priority_worker-Works}
use forge_task_queue.Tests.Values.{
  unary_times, mail, mail_message, keyed_message, empty_message, weak_run, bad_code, shop,
  fast_shop,
}

abbrev received : List StreamMessage
received = empty_message ∷ mail_message ∷ keyed_message ∷ []

worker-Works_example :
    Works
      (Settles shop)
      (Breaks shop)
      counted
      (run bad_code shop 1)
      received
      []
      (run bad_code shop 1 received [])
worker-Works_example = worker-Works bad_code shop 1 received []

-- The worker dies of the second message.
received_worked : (run bad_code shop 1 received []).0 ≡ recovered "nil map"
unfolding worker process_message payload_of unmarshal marshal
received_worked = refl

priority_worker-Works_example :
    Works
      (PriorityConsumer.Workers.Settles fast_shop)
      (PriorityConsumer.Workers.Breaks fast_shop)
      uncounted
      (PriorityConsumer.Workers.run weak_run fast_shop)
      received
      []
      (PriorityConsumer.Workers.run weak_run fast_shop received [])
priority_worker-Works_example = priority_worker-Works weak_run fast_shop received []

-- The task has a time limit of its own.
mail_unlimited : PriorityConsumer.Delivery.due_runs unary_times mail_message ≡ (none, mail) ∷ []
unfolding payload_of unmarshal marshal
mail_unlimited = refl
