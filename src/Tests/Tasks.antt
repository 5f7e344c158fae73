-- ===== src/Tests/Tasks.antt =====
-- Encoding and producing tasks.
use forge_task_queue.Common.{◌≡◌, refl, none, some}
use forge_task_queue.Task.Codec.{marshal, unmarshal, zero_task}
use forge_task_queue.Task.Codec.RoundTrip.{
  unmarshal-marshal, decoded_again, decoded_payload, IsSized,
}
use forge_task_queue.Common.Int.{pos}
use forge_task_queue.Task.{Task, ok}
use forge_task_queue.Task.Json.{Json, str, obj, end, member, JsonText, valid}
use forge_task_queue.Calls.{Log, recorded_store, recorded_publisher}
use forge_task_queue.Producer.{Producer}
use forge_task_queue.Tests.Values.{
  mail-IsSized, mail-marshal, unary_times, unary_times-IsTimeFormat, mail, text_of, weak_run,
}

unmarshal-marshal_example : unmarshal (text_of mail) ≡ some mail
unmarshal-marshal_example =
    unmarshal-marshal mail (text_of mail) unary_times-IsTimeFormat mail-IsSized mail-marshal

-- A text with an unknown member and without most of the others.
abbrev foreign : JsonText
foreign = valid (obj (member "color" (str "red") (member "max_retries" (Json.int (pos 2)) end)))

abbrev foreign_task : Task
foreign_task = record zero_task { max_retries = pos 2 }

foreign-unmarshal : unmarshal foreign ≡ some foreign_task
unfolding unmarshal
foreign-unmarshal = refl

decoded_again_example :
    IsSized foreign_task
    × ((again : JsonText) × (marshal foreign_task ≡ ok again)
        × (unmarshal again ≡ some (record foreign_task { payload = decoded_payload none })))
decoded_again_example =
    decoded_again foreign foreign_task unary_times-IsTimeFormat foreign-unmarshal (λ e. cc)

abbrev shop_producer : Producer Log
shop_producer = record {
  store = recorded_store weak_run;
  publisher = recorded_publisher weak_run;
  stream = "tasks";
}
