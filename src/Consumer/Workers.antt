-- ===== src/Consumer/Workers.antt =====
-- What a worker does with the messages that it receives, one after the other, in every environment
-- (`worker` of consumer/consumer.go).
use Prim.Native.String.{String}
use forge_task_queue.Common.{
  ℕ, suc, ◌+◌, ◌≡◌, ◌⊎◌, refl, ap, ◌∙◌, Bool, true, false, Option, none, some, List, [], ◌∷◌, ◌++◌,
  arith,
}
use forge_task_queue.Common.Int.{ℤ}
use forge_task_queue.Task.{Task, err}
use forge_task_queue.Task.Codec.{TimeFormat, unmarshal}
use forge_task_queue.Task.Store.{StreamMessage, payload_of}
use forge_task_queue.Calls.{
  Call, Counter, Log, Environment, recorded_metrics, count_calls, is_panic, is_failed_add, acks,
  adds,
}
use forge_task_queue.Consumer.{
  Consumer, Exit, finished, escaped, Departure, drained, recovered, process_message, worker,
}
use forge_task_queue.Consumer.Delivery.{recorded, runs, due_adds}

-- The count of a panic.
abbrev pub is_panic_count : Call → Bool
is_panic_count (Call.count Counter.panics) = true
is_panic_count _ = false

-- The XADDs of a log that failed, the latest first: stream and task.
abbrev pub refused : Log → List (String × Task)
refused [] = []
refused (Call.add s t (err _) ∷ w) = (s, t) ∷ refused w
refused (_ ∷ w) = refused w

-- The latest of a list, if it has one.
abbrev latest {ℓ} : {A : Type ℓ} → List A → List A
latest [] = []
latest (x ∷ _) = x ∷ []

-- What a run of the message's task, with its own time limit, is in a log.
abbrev pub task_runs : TimeFormat → StreamMessage → List (Option ℤ × Task)
task_runs times msg = elim (payload_of msg) [
  | none ↦ []
  | some p ↦ elim (unmarshal ⦃times = times⦄ p) [ none ↦ [] | some t ↦ (t.timeout, t) ∷ [] ]
]

-- The panics of a log, and how often a recovery counted one.
abbrev pub SamePanics : ℕ → Log → Log → Type 0
SamePanics more w u =
    (count_calls is_panic u ≡ more + count_calls is_panic w)
    × (count_calls is_panic_count u ≡ count_calls is_panic_count w)

-- How a log grows by a message that is settled, and by one whose task's code panics.
module _ (Settles Breaks : StreamMessage → Log → Log → Type 0) where
  -- Messages that are settled, one after the other.
  abbrev pub AllSettled : List StreamMessage → Log → Log → Type 0
  AllSettled [] w w' = w' ≡ w
  AllSettled (msg ∷ ms) w w' = (u : Log) × Settles msg w u × AllSettled ms u w'

  abbrev pub Handles : StreamMessage → Log → Exit × Log → Type 0
  Handles msg w (finished, u) = Settles msg w u
  Handles msg w (escaped _, u) = Breaks msg w u

  -- A worker, and what its recovery adds to the log.
  module _ (recovery : Log → Log) (run : List StreamMessage → Log → Departure × Log) where
    -- All messages are settled; or one panics, when all before it are settled, which by themselves
    -- the worker would have come to the end of, and after the recovery nothing is done.
    abbrev pub Works : List StreamMessage → Log → Departure × Log → Type 0
    Works ms w (drained, w') = AllSettled ms w w'
    Works ms w (recovered _, w') =
        (before : List StreamMessage) × (msg : StreamMessage) × (after : List StreamMessage)
        × (u : Log) × (v : Log) × (ms ≡ before ++ msg ∷ after)
        × (run before w ≡ (drained, u))
        × AllSettled before w u
        × Breaks msg u v
        × (w' ≡ recovery v)

    pub Works-after :
        (msg : StreamMessage) (rest : List StreamMessage) (w u : Log) (r : Departure × Log)
        → ((ms : List StreamMessage) → run (msg ∷ ms) w ≡ run ms u)
        → Settles msg w u
        → Works rest u r
        → Works (msg ∷ rest) w r
    Works-after msg rest w u (drained, w') next h works = (u, h, works)
    Works-after msg rest w u (recovered m, w') next h
          (before, last, after, x, v, split, end, settled, broke, same) =
        (
          msg ∷ before,
          last,
          after,
          x,
          v,
          ap (λ ms. msg ∷ ms) split,
          next before ∙ end,
          (u, h, settled),
          broke,
          same,
        )

module _ ⦃times : TimeFormat⦄ (c : Consumer Log) where
  -- The message itself is acknowledged in the consumer's stream and group, and no XADD fails; or
  -- nothing is acknowledged, and after a run of the message's task, with its own time limit, one XADD
  -- fails, which is the one that is due.
  abbrev pub Settles : StreamMessage → Log → Log → Type 0
  Settles msg w u =
      SamePanics 0 w u
      × (((acks u ≡ (c.stream, c.group, msg.id) ∷ acks w) × (refused u ≡ refused w))
          ⊎ ((acks u ≡ acks w)
              × (runs u ≡ task_runs times msg ++ runs w)
              × (count_calls is_failed_add u ≡ suc (count_calls is_failed_add w))
              × (due_adds c u ≡ latest (refused u) ++ due_adds c w)))

  -- The message's task runs and panics, and nothing is acknowledged or added.
  abbrev pub Breaks : StreamMessage → Log → Log → Type 0
  Breaks msg w u =
      SamePanics 1 w u
      × (acks u ≡ acks w)
      × (adds u ≡ adds w)
      × (runs u ≡ task_runs times msg ++ runs w)

-- The recovery counts the panic.
abbrev pub counted : Log → Log
counted w = Call.count Counter.panics ∷ w

module _ ⦃times : TimeFormat⦄ (env : Environment) (c : Consumer Log) (id : ℕ) where
  -- The worker.
  abbrev pub run : List StreamMessage → Log → Departure × Log
  run = worker recorded_metrics (recorded env c) id

  process_message-Handles :
      (msg : StreamMessage) (w : Log)
      → Handles
          (Settles c)
          (Breaks c)
          msg
          w
          (process_message recorded_metrics (recorded env c) id msg w)
  unfolding process_message
  process_message-Handles msg w = ground arith

  worker_next :
      (msg : StreamMessage) (rest : List StreamMessage) (w u : Log)
      → process_message recorded_metrics (recorded env c) id msg w ≡ (finished, u)
      → run (msg ∷ rest) w ≡ run rest u
  unfolding worker
  worker_next msg rest w u same = ground (arith, same)

  worker_dies :
      (msg : StreamMessage) (rest : List StreamMessage) (w u : Log) (message : String)
      → process_message recorded_metrics (recorded env c) id msg w ≡ (escaped message, u)
      → run (msg ∷ rest) w ≡ (recovered message, counted u)
  unfolding worker
  worker_dies msg rest w u message same = ground (arith, same)

  work_none : (w : Log) → run [] w ≡ (drained, w)
  unfolding worker
  work_none w = refl

  work_step :
      (msg : StreamMessage) (rest : List StreamMessage) (w : Log) (e : Exit) (u : Log)
      → process_message recorded_metrics (recorded env c) id msg w ≡ (e, u)
      → Handles (Settles c) (Breaks c) msg w (e, u)
      → Works (Settles c) (Breaks c) counted run rest u (run rest u)
      → Works (Settles c) (Breaks c) counted run (msg ∷ rest) w (run (msg ∷ rest) w)
  work_step msg rest w finished u same h works = rw (worker_next msg rest w u same) (
      Works-after (Settles c) (Breaks c) counted run msg rest w u _
        (λ ms. worker_next msg ms w u same) h works)
  work_step msg rest w (escaped message) u same h works =
      rw (worker_dies msg rest w u message same)
        ([], msg, rest, w, u, refl, work_none w, refl, h, refl)

  -- A worker of the consumer that receives messages, after any calls, settles them one after the
  -- other: each has one XACK made of its own id on the consumer's stream and group, and no XADD
  -- fails, or no XACK and a failed XADD, the one that is due after a run of its task with the
  -- task's own time limit; unless a task's code panics: then it has so settled the messages before
  -- that one, which by themselves it would have come to the end of; that message's task was run,
  -- and nothing was acknowledged or added for it; the recovery counts this panic once, and the
  -- worker makes no further call and returns.
  pub worker-Works :
      (ms : List StreamMessage) (w : Log) → Works (Settles c) (Breaks c) counted run ms w (run ms w)
  unfolding worker
  worker-Works [] w = refl
  worker-Works (msg ∷ rest) w =
      let r = process_message recorded_metrics (recorded env c) id msg w in
      work_step msg rest w r.0 r.1 refl (process_message-Handles msg w) (worker-Works rest r.1)
