-- ===== src/Main/Process.antt =====
-- main.go as a process: the goroutines that `main` starts, from the boot to the exit, interleaved in
-- any order: the signal handler, the metrics endpoint, the API server, the producer of mock tasks, and `main` itself in
-- the consumer's `Start`. The number of workers is positive or zero; a negative one ends the program in
-- a panic.
pub mod Exit
pub mod Drain
use forge_task_queue.Common.{ℕ, suc, ◌≡◌, Bool, true, false, if◌then◌else◌}
use forge_task_queue.Pool
use forge_task_queue.Pool.{Pool, stopped, capacity}
use forge_task_queue.Pool.Shutdown.{running}
use forge_task_queue.Pool.Termination.{is_move}
use forge_task_queue.Api.Server.Serving
use forge_task_queue.Api.Server.Serving.{Serving, serve}

-- `main` creates the group in `Start`, waits there for its goroutines, or has ended with a status.
pub data Phase : Type 0 where
  preparing : Phase
  waiting : Phase
  exited : ℕ → Phase

abbrev pub is_alive : Phase → Bool
is_alive (exited _) = false
is_alive _ = true

-- The producer of mock tasks before its select, with the number of its next task; or not started or
-- returned.
pub data Mocks : Type 0 where
  ticking : ℕ → Mocks
  quiet : Mocks

pub record Process : Type 0 where
  pub signalled : Bool
  -- The metrics endpoint listens.
  pub metrics_up : Bool
  -- the consumer, and with it the context
  pub pool : Pool
  pub serving : Serving
  pub mocks : Mocks
  pub phase : Phase

unfoldable pub boot : ℕ → Bool → Process
boot n enable_mock_tasks = record {
  signalled = false;
  metrics_up = true;
  pool = Pool.start n;
  serving = serve;
  mocks = if enable_mock_tasks then ticking 1 else quiet;
  phase = preparing;
}

-- One step, with `n` workers. There is none after the exit: it ends all goroutines.
pub data Step (n : ℕ) (p : Process) : Process → Type 0 where
  -- A signal arrives.
  interrupt : is_alive p.phase ≡ true → Step n p (record p { signalled = true })
  -- `sig := <-sigCh` and `cancel()`
  relay :
      is_alive p.phase ≡ true
      → p.signalled ≡ true
      → Step n p (record p { pool = record p.pool { cancelled = true } })
  -- Its `ListenAndServe` returns, which it does only with an error: the error is logged.
  metrics_failed :
      is_alive p.phase ≡ true → p.metrics_up ≡ true → Step n p (record p { metrics_up = false })
  server :
      {s : Serving}
      → is_alive p.phase ≡ true
      → Serving.Step p.pool.cancelled p.serving s
      → Step n p (record p { serving = s })
  -- A tick of the mock producer; a failure of its XADD is logged.
  tick :
      (k : ℕ)
      → is_alive p.phase ≡ true
      → p.mocks ≡ ticking k
      → Step n p (record p { mocks = ticking (suc k) })
  mocks_stop :
      (k : ℕ)
      → is_alive p.phase ≡ true
      → p.mocks ≡ ticking k
      → p.pool.cancelled ≡ true
      → Step n p (record p { mocks = quiet })
  -- The group exists: `Start` starts its goroutines.
  grouped : p.phase ≡ preparing → Step n p (record p { phase = waiting })
  -- It could not be created: `os.Exit(1)`
  refused : p.phase ≡ preparing → Step n p (record p { phase = exited 1 })
  -- A step of the consumer's goroutines.
  work :
      {q : Pool} (s : Pool.Step (capacity n) 0 p.pool q)
      → is_move s ≡ true
      → p.phase ≡ waiting
      → Step n p (record p { pool = q })
  -- `wg.Wait()` returns, and `main` with it.
  finish :
      p.phase ≡ waiting
      → p.pool.fetcher ≡ stopped
      → running p.pool.workers ≡ 0
      → Step n p (record p { phase = exited 0 })

-- The states that a run of the program reaches, with `n` workers and with or without mock tasks.
pub data Reach (n : ℕ) (enable_mock_tasks : Bool) : Process → Type 0 where
  begin : Reach n enable_mock_tasks (boot n enable_mock_tasks)
  next : {p q : Process} → Reach n enable_mock_tasks p → Step n p q → Reach n enable_mock_tasks q

-- Further steps.
pub data Run (n : ℕ) : Process → Process → Type 0 where
  rest : {p : Process} → Run n p p
  later : {p q r : Process} → Step n p q → Run n q r → Run n p r
