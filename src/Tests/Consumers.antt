-- ===== src/Tests/Consumers.antt =====
-- Deliveries to the consumers, and producing.
use Prim.Native.String.{◌++◌}
use forge_task_queue.Common.{some, ◌+◌, ◌≡◌, ◌≢◌, refl, [], ◌∷◌, ◌++◌ as append, arith, eq_iff}
use forge_task_queue.Common.Int.{pos, inc}
use forge_task_queue.Task.Codec.{marshal, unmarshal}
use forge_task_queue.Calls.{
  Counter, Log, acks, adds, events, count_calls, is_ack, is_failed_add, is_success, is_saved,
  is_process, recorded_metrics,
}
use forge_task_queue.Consumer.{finished, escaped, process_message, worker_name}
use forge_task_queue.Consumer.Delivery.{
  recorded, delivery, due_adds, due_events, settled_once, runs, due_runs, runs-due, adds-due,
  events-due, counters, due_counters, counters-due,
}
use forge_task_queue.Consumer.Keys.{Carries, key_runs_once}
use forge_task_queue.PriorityConsumer
use forge_task_queue.PriorityConsumer.Delivery.{
  ack_streams, presumed_stream, priority_adds-due, ack_streams-delivery, failed_add_loses_task,
  ack_streams-Undecodable,
}
use forge_task_queue.Task.Store.{StreamMessage, text, payload_of}
use forge_task_queue.Producer.{streams}
use forge_task_queue.PriorityConsumer.Delivery.{recorded as recorded_priority}
use forge_task_queue.PriorityConsumer.Fetch.{turn, search, send_all}
use forge_task_queue.PriorityConsumer.Fetch.Rounds.{
  SentInOrder, reads, received, sent, is_pause, is_empty, turn_lem,
}
use forge_task_queue.Common.{true, if◌then◌else◌}
use forge_task_queue.Calls.{recorded_dispatch}
use forge_task_queue.Tests.Values.{
  unary_times, mail, keyed_mail, text_of, mail_message, keyed_message, weak_run, lost_store,
  bad_code, shop, fast_shop,
}

-- The delivery of `mail` under failing runs is one that returns.
mail_returns : (delivery weak_run shop 1 mail_message).0 ≡ finished
unfolding process_message payload_of unmarshal marshal
mail_returns = refl

settled_once_example :
    count_calls is_ack (delivery weak_run shop 1 mail_message).1
      + count_calls is_failed_add (delivery weak_run shop 1 mail_message).1
    ≡ 1
settled_once_example = settled_once weak_run shop 1 mail_message mail_returns

mail_panics : (delivery bad_code shop 1 mail_message).0 ≡ escaped "nil map"
unfolding process_message payload_of unmarshal marshal
mail_panics = refl

runs-due_example :
    runs (delivery weak_run shop 1 keyed_message).1
    ≡ due_runs unary_times keyed_message (delivery weak_run shop 1 keyed_message).1
runs-due_example = runs-due weak_run shop 1 keyed_message

-- What is run here.
keyed_mail_runs :
    due_runs unary_times keyed_message (delivery weak_run shop 1 keyed_message).1
    ≡ (some (pos 5), keyed_mail) ∷ []
unfolding process_message payload_of unmarshal marshal
keyed_mail_runs = refl

adds-due_example :
    adds (delivery weak_run shop 1 mail_message).1
    ≡ due_adds shop (delivery weak_run shop 1 mail_message).1
adds-due_example = adds-due weak_run shop 1 mail_message

-- What is due here.
mail_due :
    due_adds shop (delivery weak_run shop 1 mail_message).1
    ≡ ("tasks", record mail { error = "timeout"; current_retries = pos 1 }) ∷ []
unfolding process_message payload_of unmarshal marshal inc
mail_due = refl

events-due_example :
    events (delivery weak_run shop 1 mail_message).1
    ≡ due_events (worker_name "node" 1) shop (delivery weak_run shop 1 mail_message).1
events-due_example = events-due weak_run shop 1 mail_message

counters-due_example :
    counters (delivery weak_run shop 1 mail_message).1
    ≡ due_counters (delivery weak_run shop 1 mail_message).1
counters-due_example = counters-due weak_run shop 1 mail_message

-- The counter of the dead-letter stream counts a task whose XADD to that stream fails.
abbrev spent_message : StreamMessage
spent_message = record {
  id = "1-0";
  values = ("payload", text (text_of (record mail { max_retries = pos 0 }))) ∷ [];
}

counted_but_lost :
    let w = (delivery lost_store shop 1 spent_message).1 in
    (counters w
      ≡ Counter.dlq "email"
        ∷ Counter.failed "email"
        ∷ Counter.processed "email" "error"
        ∷ Counter.duration "email"
        ∷ [])
    × (count_calls is_saved w ≡ 0)
unfolding process_message payload_of unmarshal marshal
counted_but_lost = (refl, refl)

keyed_message-Carries : Carries unary_times keyed_message keyed_mail
unfolding payload_of unmarshal marshal
keyed_message-Carries = (text_of keyed_mail, refl, refl)

keyed_key : keyed_mail.idempotency_key ≢ ""
keyed_key e = ground (arith, eq_iff "k" "")

-- After the key's first message, whose run failed, and another message: its second is skipped.
abbrev first_and_other : Log
first_and_other =
    append (process_message recorded_metrics (recorded weak_run shop) 3 mail_message []).1
      (process_message recorded_metrics (recorded weak_run shop) 1 keyed_message []).1

key_runs_once_example :
    let (exit, w2) =
      process_message recorded_metrics (recorded weak_run shop) 2 keyed_message first_and_other in
    (exit ≡ finished)
    × (count_calls is_process w2 ≡ count_calls is_process first_and_other)
    × (adds w2 ≡ adds first_and_other)
    × (acks w2 ≡ (shop.stream, shop.group, keyed_message.id) ∷ acks first_and_other)
key_runs_once_example =
    key_runs_once weak_run shop 1 2 keyed_message keyed_message keyed_mail keyed_mail []
      (process_message recorded_metrics (recorded weak_run shop) 3 mail_message []).1
      (λ w key. refl) (λ e. cc) keyed_message-Carries keyed_message-Carries keyed_key refl

priority_adds-due_example :
    adds (PriorityConsumer.Delivery.delivery lost_store fast_shop mail_message).1
    ≡ PriorityConsumer.Delivery.due_adds fast_shop
        (PriorityConsumer.Delivery.delivery lost_store fast_shop mail_message).1
priority_adds-due_example = priority_adds-due lost_store fast_shop mail_message

ack_streams-delivery_example :
    ack_streams (PriorityConsumer.Delivery.delivery weak_run fast_shop mail_message).1
    ≡ elim (PriorityConsumer.Delivery.delivery weak_run fast_shop mail_message).0 [
      | finished ↦ presumed_stream unary_times fast_shop mail_message ∷ []
      | escaped _ ↦ []
    ]
ack_streams-delivery_example = ack_streams-delivery weak_run fast_shop mail_message

mail_lost :
    count_calls is_failed_add
      (PriorityConsumer.Delivery.delivery lost_store fast_shop mail_message).1
    ≡ 1
unfolding PriorityConsumer.process_message payload_of unmarshal marshal
mail_lost = refl

failed_add_loses_task_example :
    (acks (PriorityConsumer.Delivery.delivery lost_store fast_shop mail_message).1
      ≡ (presumed_stream unary_times fast_shop mail_message, fast_shop.group, mail_message.id) ∷ [])
    × (count_calls is_success
          (PriorityConsumer.Delivery.delivery lost_store fast_shop mail_message).1
        ≡ 0)
    × (count_calls is_saved (PriorityConsumer.Delivery.delivery lost_store fast_shop mail_message).1
        ≡ 0)
failed_add_loses_task_example = failed_add_loses_task lost_store fast_shop mail_message mail_lost

turn_lem_example :
    let (again, w) = turn (recorded_priority weak_run fast_shop) (recorded_dispatch weak_run) [] in
    SentInOrder w
    × (again ≡ true
        → (reads w ≡ ("tasks" ++ "_low") ∷ "tasks" ∷ ("tasks" ++ "_high") ∷ [])
          × (received w ≡ sent w)
          × (count_calls is_pause w ≡ (if is_empty (received w) then 1 else 0)))
turn_lem_example = turn_lem weak_run fast_shop

-- Here the turn is not the last one, and it sends.
turn_goes_on :
    let (again, w) = turn (recorded_priority weak_run fast_shop) (recorded_dispatch weak_run) [] in
    (again ≡ true) × (sent w ≡ mail_message ∷ mail_message ∷ mail_message ∷ [])
unfolding turn search send_all streams
turn_goes_on = (refl, refl)
