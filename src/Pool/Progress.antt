-- ===== src/Pool/Progress.antt =====
-- The graceful shutdown of the goroutines: which of them can move after a cancellation.
use forge_task_queue.Common.{ℕ, zero, suc, ◌≡◌, refl, ap, ◌⊎◌, inl, inr, true, List, [], ◌∷◌, ◌++◌}
use forge_task_queue.Task.Store.{StreamMessage}
use forge_task_queue.Pool.{
  Fetcher, selecting, reading, dispatching, stopped, Worker, idle, busy, exited, dead, Pool, Step,
  Reach, begin, next, start, cancel, select_stop, select_read, read_ok, read_stop, read_retry, send,
  send_stop, batch_done, take, finish, panic, exit,
}
use forge_task_queue.Pool.Shutdown.{running}
use forge_task_queue.Pool.Termination.{is_move}

-- A worker still in its loop, and what stands around it.
Running : List Worker → Type 0
Running ws =
    (before : List Worker) × (after : List Worker) × ((ws ≡ before ++ idle ∷ after)
      ⊎ ((m : StreamMessage) × (ws ≡ before ++ busy m ∷ after)))

Running-cons : (w : Worker) (ws : List Worker) → Running ws → Running (w ∷ ws)
unfolding Running
Running-cons w ws (before, after, inl e) = (w ∷ before, after, inl (ap (λ xs. w ∷ xs) e))
Running-cons w ws (before, after, inr (m, e)) = (w ∷ before, after, inr (m, ap (λ xs. w ∷ xs) e))

find_running : (ws : List Worker) → (running ws ≡ 0) ⊎ Running ws
unfolding Running
find_running [] = inl refl
find_running (idle ∷ ws) = inr ([], ws, inl refl)
find_running (busy m ∷ ws) = inr ([], ws, inr (m, refl))
find_running (exited ∷ ws) = elim (find_running ws) [
  | inl gone ↦ inl gone
  | inr found ↦ inr (Running-cons exited ws found)
]
find_running (dead ∷ ws) = elim (find_running ws) [
  | inl gone ↦ inl gone
  | inr found ↦ inr (Running-cons dead ws found)
]

-- A move that fetches nothing.
abbrev pub QuietMove : ℕ → ℕ → Pool → Type 0
QuietMove cap more p =
    (q : Pool) × (s : Step cap more p q) × (is_move s ≡ true) × (q.fetched ≡ p.fetched)

worker_moves :
    (cap more : ℕ) (p : Pool) (ms : List StreamMessage)
    → p.fetcher ≡ stopped
    → p.channel ≡ ms
    → Running p.workers
    → QuietMove cap more p
unfolding Running
worker_moves cap more p ms f c (before, after, inr (m, w)) =
    (_, finish before after m w, refl, refl)
worker_moves cap more p [] f c (before, after, inl w) = (_, exit before after w f c, refl, refl)
worker_moves cap more p (m ∷ ms) f c (before, after, inl w) =
    (_, take before after m ms w c, refl, refl)

fetcher_moves :
    (cap more : ℕ) (p : Pool) (f : Fetcher)
    → p.cancelled ≡ true
    → p.fetcher ≡ f
    → (f ≡ stopped) ⊎ QuietMove cap more p
fetcher_moves cap more p selecting c e = inr (_, select_stop e c, refl, refl)
fetcher_moves cap more p (reading k) c e = inr (_, read_stop k e c, refl, refl)
fetcher_moves cap more p (dispatching k []) c e = inr (_, batch_done k e, refl, refl)
fetcher_moves cap more p (dispatching k (m ∷ ms)) c e = inr (_, send_stop k m ms e c, refl, refl)
fetcher_moves cap more p stopped c e = inl refl

-- After a cancellation the pool is never stuck: either the fetcher has stopped and no worker is
-- running, so that `Start` returns, or some goroutine can move, and without fetching anything.
pub no_deadlock :
    (cap more : ℕ) (p : Pool)
    → p.cancelled ≡ true
    → ((p.fetcher ≡ stopped) × (running p.workers ≡ 0)) ⊎ QuietMove cap more p
no_deadlock cap more p c = elim (fetcher_moves cap more p p.fetcher c refl) [
  | inr moves ↦ inr moves
  | inl shut ↦ elim (find_running p.workers) [
    | inl gone ↦ inl (shut, gone)
    | inr found ↦ inr (worker_moves cap more p p.channel shut refl found)
  ]
]

-- The fetcher stops only after the cancellation.
pub Reach-stopped :
    {n more : ℕ} {p : Pool} → Reach n more p → p.fetcher ≡ stopped → p.cancelled ≡ true
unfolding start
Reach-stopped begin f = cc f
Reach-stopped (next r cancel) f = refl
Reach-stopped (next r (select_stop g c)) f = c
Reach-stopped (next r (select_read g c)) f = cc f
Reach-stopped (next r (read_ok k batch g)) f = cc f
Reach-stopped (next r (read_stop k g c)) f = c
Reach-stopped (next r (read_retry zero g c)) f = cc f
Reach-stopped (next r (read_retry (suc k) g c)) f = cc f
Reach-stopped (next r (send k m ms g room)) f = cc f
Reach-stopped (next r (send_stop k m ms g c)) f = c
Reach-stopped (next r (batch_done zero g)) f = cc f
Reach-stopped (next r (batch_done (suc k) g)) f = cc f
Reach-stopped (next r (take before after m ms w c)) f = Reach-stopped r f
Reach-stopped (next r (finish before after m w)) f = Reach-stopped r f
Reach-stopped (next r (panic before after m w)) f = Reach-stopped r f
Reach-stopped (next r (exit before after w g c)) f = Reach-stopped r f
