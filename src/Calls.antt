-- ===== src/Calls.antt =====
-- A world that records each call of a service together with its reply. The replies are those of
-- an arbitrary environment, which sees everything that was called before: what is proved for all
-- environments holds whatever the services do.
use Prim.Native.String.{String}
use forge_task_queue.Common.{
  ℕ, suc, Bool, true, false, Option, List, [], ◌∷◌, Action, if◌then◌else◌,
}
use forge_task_queue.Common.Int.{ℤ}
use forge_task_queue.Task.{Task, Event, Result}
use forge_task_queue.Task.Store.{
  StreamMessage, Block, StreamStore, EventPublisher, Outcome, TaskProcessor, IdempotencyChecker,
  Dispatch,
}
use forge_task_queue.Metrics.{Metrics}

-- A counter of the metrics, with its labels.
pub data Counter : Type 0 where
  processed : String → String → Counter
  failed dlq duration : String → Counter
  panics duplicate : Counter

-- A call and its reply.
pub data Call : Type 0 where
  add : String → Task → Result String → Call
  read_group : String → String → String → ℤ → Block → Result (List StreamMessage) → Call
  ack : String → String → String → Result (Unit {0}) → Call
  create_group : String → String → Result (Unit {0}) → Call
  range : String → String → String → ℤ → Result (List StreamMessage) → Call
  delete : String → List String → Result (Unit {0}) → Call
  publish : Event → Result (Unit {0}) → Call
  process : Option ℤ → Task → Outcome → Call
  check : String → Result Bool → Call
  send : StreamMessage → Bool → Call
  done : Bool → Call
  pause : Call
  count : Counter → Call

-- The latest call stands first.
abbrev pub Log : Type 0
Log = List Call

pub record Environment : Type 0 where
  pub add : Log → String → Task → Result String
  pub read_group : Log → String → String → String → ℤ → Block → Result (List StreamMessage)
  pub ack : Log → String → String → String → Result (Unit {0})
  pub create_group : Log → String → String → Result (Unit {0})
  pub range : Log → String → String → String → ℤ → Result (List StreamMessage)
  pub delete : Log → String → List String → Result (Unit {0})
  pub publish : Log → Event → Result (Unit {0})
  pub process : Log → Option ℤ → Task → Outcome
  pub check : Log → String → Result Bool
  -- Whether a message goes to the workers, and whether the context is done.
  pub send : Log → StreamMessage → Bool
  pub done : Log → Bool

abbrev record_call : {A : Type 0} → (Log → A) → (A → Call) → Action Log A
record_call reply call w = let r = reply w in (r, call r ∷ w)

abbrev pub count_call : Counter → Action Log (Unit {0})
count_call c w = (tt, Call.count c ∷ w)

module _ (env : Environment) where
  abbrev pub recorded_store : StreamStore Log
  recorded_store = record {
    add = λ s t. record_call (λ w. env.add w s t) (Call.add s t);
    read_group =
        λ s g c n b. record_call (λ w. env.read_group w s g c n b) (Call.read_group s g c n b);
    ack = λ s g i. record_call (λ w. env.ack w s g i) (Call.ack s g i);
    create_group = λ s g. record_call (λ w. env.create_group w s g) (Call.create_group s g);
    range = λ s a b n. record_call (λ w. env.range w s a b n) (Call.range s a b n);
    delete = λ s is. record_call (λ w. env.delete w s is) (Call.delete s is);
  }

  abbrev pub recorded_publisher : EventPublisher Log
  recorded_publisher = record { publish = λ e. record_call (λ w. env.publish w e) (Call.publish e) }

  abbrev pub recorded_processor : TaskProcessor Log
  recorded_processor = record {
    process = λ d t. record_call (λ w. env.process w d t) (Call.process d t);
  }

  abbrev pub recorded_checker : IdempotencyChecker Log
  recorded_checker = record { check = λ k. record_call (λ w. env.check w k) (Call.check k) }

  abbrev pub recorded_dispatch : Dispatch Log
  recorded_dispatch = record {
    send = λ m. record_call (λ w. env.send w m) (Call.send m);
    done = record_call (λ w. env.done w) Call.done;
    pause = λ w. (tt, Call.pause ∷ w);
  }

abbrev pub recorded_metrics : Metrics Log
recorded_metrics = record {
  tasks_processed = λ ty status. count_call (Counter.processed ty status);
  tasks_failed = λ ty. count_call (Counter.failed ty);
  tasks_dlq = λ ty. count_call (Counter.dlq ty);
  task_duration = λ ty. count_call (Counter.duration ty);
  worker_panics = count_call Counter.panics;
  tasks_duplicate = count_call Counter.duplicate;
}

-- How many calls of the log pass a test.
abbrev pub count_calls : (Call → Bool) → Log → ℕ
count_calls test [] = 0
count_calls test (c ∷ w) = if test c then suc (count_calls test w) else count_calls test w

-- An XACK of a message, an XADD that went through, one that did not, and a run of a task.
abbrev pub is_ack : Call → Bool
is_ack (Call.ack _ _ _ _) = true
is_ack _ = false

abbrev pub is_add : Call → Bool
is_add (Call.add _ _ _) = true
is_add _ = false

abbrev pub is_failed_add : Call → Bool
is_failed_add (Call.add _ _ (Result.err _)) = true
is_failed_add _ = false

abbrev pub is_process : Call → Bool
is_process (Call.process _ _ _) = true
is_process _ = false

-- The XADDs of a log, the latest first: stream and task.
abbrev pub adds : Log → List (String × Task)
adds [] = []
adds (Call.add s t _ ∷ w) = (s, t) ∷ adds w
adds (_ ∷ w) = adds w

-- The XACKs of a log, the latest first: stream, group and message id.
abbrev pub acks : Log → List (String × String × String)
acks [] = []
acks (Call.ack s g i _ ∷ w) = (s, g, i) ∷ acks w
acks (_ ∷ w) = acks w

-- The events of a log, the latest first.
abbrev pub events : Log → List Event
events [] = []
events (Call.publish e _ ∷ w) = e ∷ events w
events (_ ∷ w) = events w

abbrev pub is_success : Call → Bool
is_success (Call.process _ _ (Outcome.returned _ Option.none)) = true
is_success _ = false

abbrev pub is_panic : Call → Bool
is_panic (Call.process _ _ (Outcome.panicked _)) = true
is_panic _ = false

abbrev pub is_seen : Call → Bool
is_seen (Call.check _ (Result.ok false)) = true
is_seen _ = false

abbrev pub is_saved : Call → Bool
is_saved (Call.add _ _ (Result.ok _)) = true
is_saved _ = false
