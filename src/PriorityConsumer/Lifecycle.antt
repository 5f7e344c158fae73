-- ===== src/PriorityConsumer/Lifecycle.antt =====
-- The life of a task that is delivered to the priority consumer again and again.
use Prim.Native.String.{String, ◌++◌}
use forge_task_queue.Common.{ℕ, zero, suc, true, false, [], ◌∷◌, ◌==◌}
use forge_task_queue.Task.{Task, ok, err}
use forge_task_queue.Task.Codec.{TimeFormat, marshal}
use forge_task_queue.Task.Store.{StreamMessage}
use forge_task_queue.Calls.{Log, Environment}
use forge_task_queue.Consumer.Lifecycle.{
  message_with, saved, Fate, dead, settled, out_of_fuel, failing,
}
use forge_task_queue.PriorityConsumer.{PriorityConsumer, process_message}
use forge_task_queue.PriorityConsumer.Delivery.{recorded}

module _ ⦃times : TimeFormat⦄ (env : Environment) (pc : PriorityConsumer Log) where
  -- One delivery, from an empty log.
  deliver : StreamMessage → Log
  deliver msg = (process_message (recorded env pc) msg []).1

  -- Deliver a message, and then the message that the delivery re-queued, and so on: the number of
  -- deliveries, and the end.
  pub follow : ℕ → StreamMessage → ℕ × Fate
  follow zero msg = (0, out_of_fuel)
  follow (suc fuel) msg = elim (saved (deliver msg)) [
    | [] ↦ (1, settled)
    | (i, s, t) ∷ _ ↦ elim (s == pc.base_stream ++ "_dlq") [
      | true ↦ (1, dead s t)
      | false ↦ elim (marshal t) [
        | err _ ↦ (1, settled)
        | ok j ↦ (suc (follow fuel (message_with i j)).0, (follow fuel (message_with i j)).1)
      ]
    ]
  ]

module _ ⦃times : TimeFormat⦄ (env : Environment) (pc : PriorityConsumer Log)
    (message : Task → String) (ids : String → Task → String) where
  abbrev fails : Environment
  fails = failing env message ids
