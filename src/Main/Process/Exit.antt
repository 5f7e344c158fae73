-- ===== src/Main/Process/Exit.antt =====
-- How the program ends.
use mathlib.Core.Path.{subst}
use forge_task_queue.Common.{ℕ, zero, suc, ◌+◌, ◌≡◌, refl, sym, Bool, true, []}
use forge_task_queue.Task.Store.{StreamMessage}
use forge_task_queue.Pool
use forge_task_queue.Pool.{
  Fetcher, Worker, Pool, stopped, capacity, cancel, select_stop, select_read, read_ok, read_stop,
  read_retry, send, send_stop, batch_done, take, panic, exit,
}
use forge_task_queue.Pool.Shutdown.{running}
use forge_task_queue.Pool.Termination.{is_move}
use forge_task_queue.Pool.Accounting.{total}
use forge_task_queue.Api.Server.Serving
use forge_task_queue.Main.Process
use forge_task_queue.Main.Process.{
  Phase, preparing, waiting, exited, Process, boot, Step, interrupt, relay, metrics_failed, server,
  tick, mocks_stop, grouped, refused, finish, Reach, begin, next, Run, rest, later,
}

-- A step of the consumer other than the cancellation leaves the context alone.
move_keeps_context :
    {cap more : ℕ} {p q : Pool} (s : Pool.Step cap more p q)
    → is_move s ≡ true
    → q.cancelled ≡ p.cancelled
move_keeps_context cancel m = cc
move_keeps_context (select_stop f c) m = refl
move_keeps_context (select_read f c) m = refl
move_keeps_context (read_ok k batch f) m = refl
move_keeps_context (read_stop k f c) m = refl
move_keeps_context (read_retry k f c) m = refl
move_keeps_context (send k x xs f room) m = refl
move_keeps_context (send_stop k x xs f c) m = refl
move_keeps_context (batch_done k f) m = refl
move_keeps_context (take before after x xs w c) m = refl
move_keeps_context (Pool.finish before after x w) m = refl
move_keeps_context (panic before after x w) m = refl
move_keeps_context (exit before after w f c) m = refl

-- The server in the program makes steps that `Api/Server/Serving` makes, on the same context.
Reach-serving :
    {n : ℕ} {m : Bool} {p : Process} → Reach n m p → Serving.Reach p.pool.cancelled p.serving
unfolding boot Pool.start
Reach-serving begin = Serving.begin
Reach-serving (next r (interrupt a)) = Reach-serving r
Reach-serving (next r (relay a s)) = Serving.cancel (Reach-serving r)
Reach-serving (next r (metrics_failed a u)) = Reach-serving r
Reach-serving (next r (server a s)) = Serving.next (Reach-serving r) s
Reach-serving (next r (tick k a e)) = Reach-serving r
Reach-serving (next r (mocks_stop k a e c)) = Reach-serving r
Reach-serving (next r (grouped e)) = Reach-serving r
Reach-serving (next r (refused e)) = Reach-serving r
Reach-serving (next {p} r (Process.work s m e)) =
    subst (λ c. Serving.Reach c p.serving) (sym (move_keeps_context s m)) (Reach-serving r)
Reach-serving (next r (finish e f w)) = Reach-serving r

-- What is known in each phase.
Known : Phase → Process → Type 0
Known preparing p = p.pool.fetched ≡ []
Known waiting p = Unit {0}
Known (exited zero) p =
    (p.signalled ≡ true)
    × (p.pool.cancelled ≡ true)
    × (p.pool.fetcher ≡ stopped)
    × (running p.pool.workers ≡ 0)
Known (exited (suc k)) p = p.pool.fetched ≡ []

-- What a phase means: the program ends with status 0 only after a signal, with the fetcher and all
-- workers returned and every fetched message, counted by any weight, handled, abandoned to a panic,
-- dropped at the cancellation or still in the channel; it ends with another status only before it
-- has fetched anything.
abbrev pub EndsClean : Phase → Process → Type 0
EndsClean (exited zero) p =
    (p.signalled ≡ true)
    × (p.pool.fetcher ≡ stopped)
    × (running p.pool.workers ≡ 0)
    × ((weight : StreamMessage → ℕ)
        → total weight p.pool.fetched
          ≡ total weight p.pool.handled
            + total weight p.pool.abandoned
            + total weight p.pool.dropped
            + total weight p.pool.channel)
EndsClean (exited (suc k)) p = p.pool.fetched ≡ []
EndsClean _ p = Unit {0}
