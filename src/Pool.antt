-- ===== src/Pool.antt =====
-- The goroutines of consumer/consumer.go and consumer/priority_consumer.go (`Start`, `fetchTasks`,
-- `worker`), interleaved in any order: a fetcher that fills a bounded channel, workers that empty
-- it, and a context that may be cancelled at any time. The plain consumer reads one stream in a
-- round, the priority consumer three. Handling a message is one step, which `Consumer` and
-- `PriorityConsumer` model; here it either returns or panics. The fields `fetched`, `handled`,
-- `abandoned` and `dropped` record the past.
pub mod Accounting
pub mod Shutdown
pub mod Termination
pub mod Progress
pub mod Order
pub mod Queue
pub mod Fairness
use forge_task_queue.Common.{
  ℕ, zero, suc, ◌*◌, ◌<◌, ◌≡◌, Bool, true, false, List, [], ◌∷◌, ◌++◌, length,
}
use forge_task_queue.Task.Store.{StreamMessage}

-- Where the fetcher stands: before its `select`, in `ReadGroup`, sending the rest of a batch, or
-- returned, which closes the channel. The number counts the streams of the round that come after
-- the one that is read.
pub data Fetcher : Type 0 where
  selecting : Fetcher
  reading : ℕ → Fetcher
  dispatching : ℕ → List StreamMessage → Fetcher
  stopped : Fetcher

-- What follows a stream: the next one of the round, or the `select` of another round.
abbrev pub after_stream : ℕ → Fetcher
after_stream zero = selecting
after_stream (suc k) = reading k

-- A worker waits on the channel, handles a message, has returned because the channel was closed, or
-- has returned because its recovery caught a panic.
pub data Worker : Type 0 where
  idle : Worker
  busy : StreamMessage → Worker
  exited dead : Worker

pub record Pool : Type 0 where
  pub cancelled : Bool
  pub fetcher : Fetcher
  pub channel : List StreamMessage
  pub workers : List Worker
  pub fetched : List StreamMessage
  pub handled : List StreamMessage
  pub abandoned : List StreamMessage
  pub dropped : List StreamMessage

abbrev pub idle_workers : ℕ → List Worker
idle_workers zero = []
idle_workers (suc n) = idle ∷ idle_workers n

-- `make(chan task.StreamMessage, c.workerCount*10)`
abbrev pub capacity : ℕ → ℕ
capacity n = n * 10

-- What `Start` sets up for `n` workers, once the group exists.
unfoldable pub start : ℕ → Pool
start n = record {
  cancelled = false;
  fetcher = selecting;
  channel = [];
  workers = idle_workers n;
  fetched = [];
  handled = [];
  abandoned = [];
  dropped = [];
}

-- One step of one goroutine, or of the context, with `cap` places in the channel.
pub data Step (cap more : ℕ) (p : Pool) : Pool → Type 0 where
  cancel : Step cap more p (record p { cancelled = true })
  -- `case <-ctx.Done()`
  select_stop :
      p.fetcher ≡ selecting → p.cancelled ≡ true → Step cap more p (record p { fetcher = stopped })
  -- `default`
  select_read :
      p.fetcher ≡ selecting
      → p.cancelled ≡ false
      → Step cap more p (record p { fetcher = reading more })
  read_ok :
      (k : ℕ) (batch : List StreamMessage)
      → p.fetcher ≡ reading k
      → Step cap more p (record p { fetcher = dispatching k batch; fetched = batch ++ p.fetched })
  -- An error of the read: the end if the context is done, else the next stream or another round.
  -- The plain consumer pauses before it.
  read_stop :
      (k : ℕ)
      → p.fetcher ≡ reading k
      → p.cancelled ≡ true
      → Step cap more p (record p { fetcher = stopped })
  read_retry :
      (k : ℕ)
      → p.fetcher ≡ reading k
      → p.cancelled ≡ false
      → Step cap more p (record p { fetcher = after_stream k })
  -- `case tasksCh <- msg`
  send :
      (k : ℕ) (m : StreamMessage) (rest : List StreamMessage)
      → p.fetcher ≡ dispatching k (m ∷ rest)
      → length p.channel < cap
      → Step cap more p (record p { fetcher = dispatching k rest; channel = p.channel ++ m ∷ [] })
  -- `case <-ctx.Done()`: what is left of the batch is not sent.
  send_stop :
      (k : ℕ) (m : StreamMessage) (rest : List StreamMessage)
      → p.fetcher ≡ dispatching k (m ∷ rest)
      → p.cancelled ≡ true
      → Step cap more p (record p { fetcher = stopped; dropped = (m ∷ rest) ++ p.dropped })
  batch_done :
      (k : ℕ)
      → p.fetcher ≡ dispatching k []
      → Step cap more p (record p { fetcher = after_stream k })
  -- `for msg := range tasksCh`
  take :
      (before after : List Worker) (m : StreamMessage) (rest : List StreamMessage)
      → p.workers ≡ before ++ idle ∷ after
      → p.channel ≡ m ∷ rest
      → Step cap more p (record p { workers = before ++ busy m ∷ after; channel = rest })
  finish :
      (before after : List Worker) (m : StreamMessage)
      → p.workers ≡ before ++ busy m ∷ after
      → Step cap more p (record p { workers = before ++ idle ∷ after; handled = m ∷ p.handled })
  -- The recovery is outside the loop: the worker returns.
  panic :
      (before after : List Worker) (m : StreamMessage)
      → p.workers ≡ before ++ busy m ∷ after
      → Step cap more p (record p { workers = before ++ dead ∷ after; abandoned = m ∷ p.abandoned })
  -- The channel is closed and empty.
  exit :
      (before after : List Worker)
      → p.workers ≡ before ++ idle ∷ after
      → p.fetcher ≡ stopped
      → p.channel ≡ []
      → Step cap more p (record p { workers = before ++ exited ∷ after })

-- The states that `n` workers can reach from the start, with `more` streams after the first in a
-- round: none in consumer.go, two in priority_consumer.go.
pub data Reach (n more : ℕ) : Pool → Type 0 where
  begin : Reach n more (start n)
  next : {p q : Pool} → Reach n more p → Step (capacity n) more p q → Reach n more q
