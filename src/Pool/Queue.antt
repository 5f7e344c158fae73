-- ===== src/Pool/Queue.antt =====
-- What the pool promises its callers: one queue, served in the order of arrival by `n` servers, each
-- of which a panic takes away. The fetcher, its rounds and its batches, the places of the channel and
-- the workers' states are forgotten; what is left of a run is its trace, the list of its changes with
-- the messages that each is about.
use mathlib.Core.List.{append_assoc, append-nil}
use forge_task_queue.Common.{
  ℕ, zero, suc, ◌+◌, ◌≤◌, ◌<◌, ◌≡◌, refl, sym, ap, ◌∙◌, Option, none, some, List, [], ◌∷◌, ◌++◌,
  length, length-append, arith,
}
use forge_task_queue.Task.Store.{StreamMessage}
use forge_task_queue.Pool.{
  Fetcher, reading, stopped, Worker, idle, busy, exited, dead, Pool, idle_workers, start,
  after_stream, Step, cancel, select_stop, select_read, read_ok, read_stop, read_retry, send,
  send_stop, batch_done, take, finish, panic, exit, Reach, begin, next, capacity,
}
use forge_task_queue.Pool.Shutdown.{running, running-append, Reach-workers}
use forge_task_queue.Pool.Termination.{in_dispatch}

pub record Queue : Type 0 where
  pub waiting : List StreamMessage
  pub serving : List StreamMessage
  pub served : List StreamMessage
  pub abandoned : List StreamMessage
  pub dropped : List StreamMessage

abbrev pub empty : Queue
empty = record { waiting = []; serving = []; served = []; abandoned = []; dropped = [] }

-- What can be seen of a change.
pub data Change : Type 0 where
  arrives drops : List StreamMessage → Change
  begins ends breaks : StreamMessage → Change

-- One change of a queue with `n` servers.
pub data Serve (n : ℕ) (q r : Queue) : Change → Type 0 where
  arrive :
      (ms : List StreamMessage)
      → r ≡ record q { waiting = q.waiting ++ ms }
      → Serve n q r (arrives ms)
  -- The first in the queue goes to a free server; an abandoned service has cost one.
  begin_service :
      (before after : List StreamMessage) (m : StreamMessage) (rest : List StreamMessage)
      → q.waiting ≡ m ∷ rest
      → q.serving ≡ before ++ after
      → length q.serving + length q.abandoned < n
      → r ≡ record q { waiting = rest; serving = before ++ m ∷ after }
      → Serve n q r (begins m)
  end_service :
      (before after : List StreamMessage) (m : StreamMessage)
      → q.serving ≡ before ++ m ∷ after
      → r ≡ record q { serving = before ++ after; served = m ∷ q.served }
      → Serve n q r (ends m)
  -- The service breaks off.
  abandon :
      (before after : List StreamMessage) (m : StreamMessage)
      → q.serving ≡ before ++ m ∷ after
      → r ≡ record q { serving = before ++ after; abandoned = m ∷ q.abandoned }
      → Serve n q r (breaks m)
  -- The last in the queue are turned away.
  drop :
      (stay go : List StreamMessage)
      → q.waiting ≡ stay ++ go
      → r ≡ record q { waiting = stay; dropped = go ++ q.dropped }
      → Serve n q r (drops go)

-- The traces, the latest change first, of a queue that starts empty, and where each leads.
pub data Serves (n : ℕ) : List Change → Queue → Type 0 where
  opened : Serves n [] empty
  then :
      {trace : List Change} {q r : Queue} {l : Change}
      → Serves n trace q
      → Serve n q r l
      → Serves n (l ∷ trace) r

-- What can be seen of a step of the pool.
abbrev pub change : {cap more : ℕ} {p q : Pool} → Step cap more p q → Option Change
change (read_ok k batch f) = some (arrives batch)
change (take before after m rest w c) = some (begins m)
change (finish before after m w) = some (ends m)
change (panic before after m w) = some (breaks m)
change (send_stop k m rest f c) = some (drops (m ∷ rest))
change _ = none

-- The changes of a run, the latest first.
abbrev pub seen_by : Option Change → List Change → List Change
seen_by none trace = trace
seen_by (some l) trace = l ∷ trace

abbrev pub trace_of : {n more : ℕ} {p : Pool} → Reach n more p → List Change
trace_of begin = []
trace_of (next r s) = seen_by (change s) (trace_of r)

-- The messages in the workers' hands.
abbrev pub held : List Worker → List StreamMessage
held [] = []
held (busy m ∷ ws) = m ∷ held ws
held (_ ∷ ws) = held ws

-- The queue that a pool stands for.
abbrev pub queue_of : Pool → Queue
queue_of p = record {
  waiting = p.channel ++ in_dispatch p.fetcher;
  serving = held p.workers;
  served = p.handled;
  abandoned = p.abandoned;
  dropped = p.dropped;
}

pub held-append : (xs ys : List Worker) → held (xs ++ ys) ≡ held xs ++ held ys
held-append [] ys = refl
held-append (idle ∷ xs) ys = held-append xs ys
held-append (busy m ∷ xs) ys = ap (λ ms. m ∷ ms) (held-append xs ys)
held-append (exited ∷ xs) ys = held-append xs ys
held-append (dead ∷ xs) ys = held-append xs ys

held-le : (ws : List Worker) → length (held ws) ≤ running ws
held-le [] = omega arith
held-le (idle ∷ ws) = omega (arith, held-le ws)
held-le (busy m ∷ ws) = omega (arith, held-le ws)
held-le (exited ∷ ws) = held-le ws
held-le (dead ∷ ws) = held-le ws

-- With an idle worker, fewer messages are in hands than there are workers left.
idle_free :
    {n more : ℕ} {p : Pool} (before after : List Worker)
    → Reach n more p
    → p.workers ≡ before ++ idle ∷ after
    → length (held p.workers) + length p.abandoned < n
idle_free {p} before after r w = omega (
  arith,
  Reach-workers r,
  ap running w,
  ap (λ ws. length (held ws)) w,
  running-append before (idle ∷ after),
  ap length (held-append before (idle ∷ after)),
  length-append (held before) (held after),
  held-le before,
  held-le after,
)

-- A fetcher that moves with nothing to send leaves the queue as it is.
same_queue :
    (p : Pool) (f : Fetcher)
    → in_dispatch p.fetcher ≡ []
    → in_dispatch f ≡ []
    → queue_of (record p { fetcher = f }) ≡ queue_of p
same_queue p f e h = rw (e, h) refl

after_none : (k : ℕ) → in_dispatch (after_stream k) ≡ []
after_none zero = refl
after_none (suc k) = refl

-- Queues that differ in one list only.
with_waiting :
    (q : Queue) {ms ns : List StreamMessage}
    → ms ≡ ns
    → ◌≡◌ {A = Queue} (record q { waiting = ms }) (record q { waiting = ns })
with_waiting q e = ap (λ ms. record q { waiting = ms }) e

with_serving :
    (q : Queue) {ms ns : List StreamMessage}
    → ms ≡ ns
    → ◌≡◌ {A = Queue} (record q { serving = ms }) (record q { serving = ns })
with_serving q e = ap (λ ms. record q { serving = ms }) e

held-idle : (n : ℕ) → held (idle_workers n) ≡ []
held-idle zero = refl
held-idle (suc n) = held-idle n

-- The queue makes the change, or stays as it is where there is none to be seen.
abbrev Makes : ℕ → Option Change → Queue → Queue → Type 0
Makes n none q r = r ≡ q
Makes n (some l) q r = Serve n q r l

-- Every step of the pool is the change of its queue that is seen.
Step-Makes :
    {n more : ℕ} {p q : Pool}
    → Reach n more p
    → (s : Step (capacity n) more p q) → Makes n (change s) (queue_of p) (queue_of q)
Step-Makes r cancel = refl
Step-Makes {p} r (select_stop f c) = (same_queue p stopped (ap in_dispatch f) refl)
Step-Makes {more} {p} r (select_read f c) = (same_queue p (reading more) (ap in_dispatch f) refl)
Step-Makes {p} r (read_ok k batch f) =
    (arrive batch (
      with_waiting (queue_of p) (
        sym (
          ap (λ ms. ms ++ batch)
            (ap (λ ms. p.channel ++ ms) (ap in_dispatch f) ∙ append-nil p.channel)))))
Step-Makes {p} r (read_stop k f c) = (same_queue p stopped (ap in_dispatch f) refl)
Step-Makes {p} r (read_retry k f c) =
    (same_queue p (after_stream k) (ap in_dispatch f) (after_none k))
Step-Makes {p} r (send k m ms f room) =
    (with_waiting (queue_of p)
      (append_assoc p.channel (m ∷ []) ms ∙ ap (λ ms. p.channel ++ ms) (sym (ap in_dispatch f))))
Step-Makes {p} r (send_stop k m ms f c) =
    (drop p.channel (m ∷ ms) (ap (λ ms. p.channel ++ ms) (ap in_dispatch f)) (
      with_waiting (record (queue_of p) { dropped = (m ∷ ms) ++ p.dropped })
        (append-nil p.channel)))
Step-Makes {p} r (batch_done k f) =
    (same_queue p (after_stream k) (ap in_dispatch f) (after_none k))
Step-Makes {p} r (take before after m rest w c) =
    (begin_service (held before) (held after) m (rest ++ in_dispatch p.fetcher)
      (ap (λ ms. ms ++ in_dispatch p.fetcher) c) (ap held w ∙ held-append before (idle ∷ after))
      (idle_free before after r w)
      (with_serving (record (queue_of p) { waiting = rest ++ in_dispatch p.fetcher })
        (held-append before (busy m ∷ after))))
Step-Makes {p} r (finish before after m w) =
    (end_service (held before) (held after) m (ap held w ∙ held-append before (busy m ∷ after)) (
      with_serving (record (queue_of p) { served = m ∷ p.handled })
        (held-append before (idle ∷ after))))
Step-Makes {p} r (panic before after m w) =
    (abandon (held before) (held after) m (ap held w ∙ held-append before (busy m ∷ after)) (
      with_serving (record (queue_of p) { abandoned = m ∷ p.abandoned })
        (held-append before (dead ∷ after))))
Step-Makes {p} r (exit before after w f c) =
    (with_serving (queue_of p)
      (held-append before (exited ∷ after) ∙ sym (ap held w ∙ held-append before (idle ∷ after))))

seen_after :
    {n : ℕ} {trace : List Change} {q r : Queue} (o : Option Change)
    → Makes n o q r
    → Serves n trace q
    → Serves n (seen_by o trace) r
seen_after none same run = rw same run
seen_after (some l) made run = then run made

-- Every run of the pool, with any number of streams in a round, has the trace of an abstract queue
-- with n servers and ends in that queue's state: each batch read arrives at the end; each message
-- that a worker takes is the first of the queue, and begins only while fewer are in service or
-- abandoned than there are servers; each message handled or abandoned to a panic is one in service;
-- and what a cancellation drops is the end of the queue.
pub Reach-Serves : {n more : ℕ} {p : Pool} (r : Reach n more p) → Serves n (trace_of r) (queue_of p)
unfolding start
Reach-Serves {n} begin = rw (held-idle n) opened
Reach-Serves (next r s) = seen_after (change s) (Step-Makes r s) (Reach-Serves r)
