-- ===== src/PriorityConsumer/Workers.antt =====
-- What a worker of the priority consumer does with the messages that it receives (`worker` of
-- consumer/priority_consumer.go).
use Prim.Native.String.{String}
use forge_task_queue.Common.{◌≡◌, refl, List, [], ◌∷◌, ◌++◌, arith}
use forge_task_queue.Task.Codec.{TimeFormat}
use forge_task_queue.Task.Store.{StreamMessage}
use forge_task_queue.Calls.{Log, Environment, acks, adds}
use forge_task_queue.Consumer.{Exit, finished, escaped, Departure, drained, recovered}
use forge_task_queue.Consumer.Workers.{SamePanics, Handles, Works, Works-after}
use forge_task_queue.Consumer.Delivery.{runs}
use forge_task_queue.PriorityConsumer.{PriorityConsumer, process_message, worker}
use forge_task_queue.PriorityConsumer.Delivery.{recorded, presumed_stream, due_runs}

module _ ⦃times : TimeFormat⦄ (pc : PriorityConsumer Log) where
  -- The message's task is run, with no time limit, if it holds one, and the message itself is
  -- acknowledged in the group and on its presumed stream.
  abbrev pub Settles : StreamMessage → Log → Log → Type 0
  Settles msg w u =
      SamePanics 0 w u
      × (acks u ≡ (presumed_stream times pc msg, pc.group, msg.id) ∷ acks w)
      × (runs u ≡ due_runs times msg ++ runs w)

  -- The message's task runs and panics, and nothing is acknowledged or added.
  abbrev pub Breaks : StreamMessage → Log → Log → Type 0
  Breaks msg w u =
      SamePanics 1 w u
      × (acks u ≡ acks w)
      × (adds u ≡ adds w)
      × (runs u ≡ due_runs times msg ++ runs w)

-- The recovery counts nothing.
abbrev pub uncounted : Log → Log
uncounted w = w

module _ ⦃times : TimeFormat⦄ (env : Environment) (pc : PriorityConsumer Log) where
  -- The worker.
  abbrev pub run : List StreamMessage → Log → Departure × Log
  run = worker (recorded env pc)

  process_message-Handles :
      (msg : StreamMessage) (w : Log)
      → Handles (Settles pc) (Breaks pc) msg w (process_message (recorded env pc) msg w)
  unfolding process_message
  process_message-Handles msg w = ground arith

  worker_next :
      (msg : StreamMessage) (rest : List StreamMessage) (w u : Log)
      → process_message (recorded env pc) msg w ≡ (finished, u)
      → run (msg ∷ rest) w ≡ run rest u
  unfolding worker
  worker_next msg rest w u same = ground (arith, same)

  worker_dies :
      (msg : StreamMessage) (rest : List StreamMessage) (w u : Log) (message : String)
      → process_message (recorded env pc) msg w ≡ (escaped message, u)
      → run (msg ∷ rest) w ≡ (recovered message, uncounted u)
  unfolding worker
  worker_dies msg rest w u message same = ground (arith, same)

  work_none : (w : Log) → run [] w ≡ (drained, w)
  unfolding worker
  work_none w = refl

  work_step :
      (msg : StreamMessage) (rest : List StreamMessage) (w : Log) (e : Exit) (u : Log)
      → process_message (recorded env pc) msg w ≡ (e, u)
      → Handles (Settles pc) (Breaks pc) msg w (e, u)
      → Works (Settles pc) (Breaks pc) uncounted run rest u (run rest u)
      → Works (Settles pc) (Breaks pc) uncounted run (msg ∷ rest) w (run (msg ∷ rest) w)
  work_step msg rest w finished u same h works = rw (worker_next msg rest w u same) (
      Works-after (Settles pc) (Breaks pc) uncounted run msg rest w u _
        (λ ms. worker_next msg ms w u same) h works)
  work_step msg rest w (escaped message) u same h works =
      rw (worker_dies msg rest w u message same)
        ([], msg, rest, w, u, refl, work_none w, refl, h, refl)

  -- A worker of the priority consumer that receives messages, after any calls, runs the task of
  -- each, with no time limit, and makes one XACK for each, of its own id, on the consumer's group
  -- and the stream presumed from its payload; unless a task's code panics: then it has done so for
  -- the messages before that one, which by themselves it would have come to the end of; that
  -- message's task was run, and nothing was acknowledged or added for it; no panic is counted, and
  -- the worker makes no further call and returns.
  pub priority_worker-Works :
      (ms : List StreamMessage) (w : Log)
      → Works (Settles pc) (Breaks pc) uncounted run ms w (run ms w)
  unfolding worker
  priority_worker-Works [] w = refl
  priority_worker-Works (msg ∷ rest) w =
      let r = process_message (recorded env pc) msg w in
      work_step msg rest w r.0 r.1 refl (process_message-Handles msg w)
        (priority_worker-Works rest r.1)
