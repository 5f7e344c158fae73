-- ===== src/Tests/Pools.antt =====
-- Runs of the pool.
use forge_task_queue.Common.{
  ℕ, zero, suc, ◌+◌, ◌≤◌, ◌≡◌, refl, true, ◌*◌, ◌⊎◌, List, [], ◌∷◌, ◌++◌, length, length-append,
  arith,
}
use forge_task_queue.Task.Store.{StreamMessage}
use forge_task_queue.Pool.{
  dispatching, stopped, busy, exited, dead, Pool, start, cancel, select_read, read_ok, send,
  send_stop, take, finish, panic, exit, Reach, begin, next,
}
use forge_task_queue.Pool.Accounting.{IsBalanced, Reach-IsBalanced}
use forge_task_queue.Pool.Shutdown.{running, rest, then, panics_stop_pool}
use forge_task_queue.Pool.Termination.{Moves, none_yet, move, Moves-bounded}
use forge_task_queue.Pool.Progress.{QuietMove, no_deadlock}
use forge_task_queue.Pool.Order.{fetched_in, taken_in, Reach-in_order}
use forge_task_queue.Pool.Queue.{Serves, trace_of, queue_of, Reach-Serves}
use forge_task_queue.Pool.Fairness.{CanServe, can_serve}
use forge_task_queue.Tests.Values.{mail_message, keyed_message}

-- `k` messages before others.
abbrev copies : ℕ → List StreamMessage → List StreamMessage
copies zero ms = ms
copies (suc k) ms = mail_message ∷ copies k ms

-- `k` messages after others.
abbrev sent : ℕ → List StreamMessage → List StreamMessage
sent zero ms = ms
sent (suc k) ms = sent k (ms ++ mail_message ∷ [])

-- A pool whose only worker has handled one message of a batch of two when the context is cancelled.
abbrev closed : Pool
closed = record (start 1) {
  cancelled = true;
  fetcher = stopped;
  workers = exited ∷ [];
  fetched = mail_message ∷ keyed_message ∷ [];
  handled = mail_message ∷ [];
  dropped = keyed_message ∷ [];
}

-- The same pool at the cancellation, with its worker in the first message.
abbrev interrupted : Pool
interrupted = record (start 1) {
  cancelled = true;
  fetcher = dispatching 0 (keyed_message ∷ []);
  workers = busy mail_message ∷ [];
  fetched = mail_message ∷ keyed_message ∷ [];
}

interrupted-Reach : Reach 1 0 interrupted
unfolding start
interrupted-Reach =
    let batch =
      next (next begin (select_read refl refl))
        (read_ok 0 (mail_message ∷ keyed_message ∷ []) refl) in
    let taken =
      next (next batch (send 0 mail_message (keyed_message ∷ []) refl (omega arith)))
        (take [] [] mail_message [] refl refl) in
    next taken cancel

closing : Moves 10 0 1 interrupted 3 closed
unfolding start
closing = move (exit [] [] refl refl refl) refl (omega arith) (
    move (finish [] [] mail_message refl) refl (omega arith)
      (move (send_stop 0 keyed_message [] refl refl) refl (omega arith) none_yet))

closed-Reach : Reach 1 0 closed
unfolding start
closed-Reach =
    let cut = next interrupted-Reach (send_stop 0 keyed_message [] refl refl) in
    next (next cut (finish [] [] mail_message refl)) (exit [] [] refl refl refl)

-- A pool whose only worker died of the first message of a batch of twelve, with these messages in
-- the channel and these still to send.
abbrev crashed : List StreamMessage → List StreamMessage → Pool
crashed channel ms = record (start 1) {
  fetcher = dispatching 0 ms;
  channel = channel;
  workers = dead ∷ [];
  fetched = copies 12 [];
  abandoned = mail_message ∷ [];
}

crashed-Reach : Reach 1 0 (crashed [] (copies 11 []))
unfolding start
crashed-Reach =
    let batch = next (next begin (select_read refl refl)) (read_ok 0 (copies 12 []) refl) in
    let taken =
      next (next batch (send 0 mail_message (copies 11 []) refl (omega arith)))
        (take [] [] mail_message [] refl refl) in
    next taken (panic [] [] mail_message refl)

feed :
    (k : ℕ) (channel ms : List StreamMessage)
    → length channel + k ≤ 10
    → Reach 1 0 (crashed channel (copies k ms))
    → Reach 1 0 (crashed (sent k channel) ms)
feed zero channel ms h r = r
feed (suc k) channel ms h r =
    feed k (channel ++ mail_message ∷ []) ms
      (omega (arith, length-append channel (mail_message ∷ []), h))
      (next r (send 0 mail_message (copies k ms) refl (omega arith)))

Reach-IsBalanced_example : IsBalanced (λ m. 1) closed
Reach-IsBalanced_example = Reach-IsBalanced (λ m. 1) closed-Reach

panics_stop_pool_example :
    (crashed (mail_message ∷ []) (copies 10 [])).handled ≡ (crashed [] (copies 11 [])).handled
panics_stop_pool_example =
    panics_stop_pool crashed-Reach refl
      (then rest (send 0 mail_message (copies 10 []) refl (omega arith)))

Moves-bounded_example : 3 ≤ suc 0 * (4 * 1 + 3) + 32 * 1
Moves-bounded_example = Moves-bounded interrupted-Reach refl (omega arith) closing

no_deadlock_example :
    ((interrupted.fetcher ≡ stopped) × (running interrupted.workers ≡ 0))
    ⊎ QuietMove 10 0 interrupted
no_deadlock_example = no_deadlock 10 0 interrupted refl

Reach-in_order_example :
    fetched_in closed-Reach ≡ taken_in closed-Reach ++ ([] ++ ([] ++ keyed_message ∷ []))
unfolding start
Reach-in_order_example = Reach-in_order closed-Reach

Reach-Serves_example : Serves 1 (trace_of closed-Reach) (queue_of closed)
Reach-Serves_example = Reach-Serves closed-Reach

can_serve_example : CanServe 10 0 interrupted
unfolding start
can_serve_example = can_serve interrupted (omega arith) (omega arith)
