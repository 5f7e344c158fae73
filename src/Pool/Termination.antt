-- ===== src/Pool/Termination.antt =====
-- The graceful shutdown of the goroutines: how many steps are left after a cancellation.
use forge_task_queue.Common.{
  ℕ, zero, suc, ◌+◌, ◌*◌, ◌≤◌, ◌≡◌, ap, Bool, true, false, List, [], ◌∷◌, ◌++◌, length,
  length-append, arith,
}
use forge_task_queue.Task.Store.{StreamMessage}
use forge_task_queue.Pool.{
  Fetcher, selecting, reading, dispatching, stopped, Worker, idle, busy, exited, dead, Pool,
  after_stream, Reach, begin, next, start, capacity, Step, cancel, select_stop, select_read,
  read_ok, read_stop, read_retry, send, send_stop, batch_done, take, finish, panic, exit,
}
use forge_task_queue.Pool.Shutdown.{running, Reach-workers}
use forge_task_queue.Pool.Accounting.{Reach-channel}
use native.Mathlib.Nat.{mul-le-mul_right}

-- A step other than the cancellation, which changes nothing once it has happened.
abbrev pub is_move : {cap more : ℕ} {p q : Pool} → Step cap more p q → Bool
is_move cancel = false
is_move _ = true

-- A schedule of this many moves. No step fetches more than `b` messages: the count that the reads
-- ask for.
pub data Moves (cap more b : ℕ) (p : Pool) : ℕ → Pool → Type 0 where
  none_yet : Moves cap more b p zero p
  move :
      {k : ℕ} {q r : Pool} (s : Step cap more q r)
      → is_move s ≡ true
      → length r.fetched ≤ b + length q.fetched
      → Moves cap more b p k q
      → Moves cap more b p (suc k) r

-- What is left to do after a cancellation, in moves.
abbrev pub fetcher_work : ℕ → Fetcher → ℕ
fetcher_work b selecting = 1
fetcher_work b (reading k) = suc k * (4 * b + 3)
fetcher_work b (dispatching k ms) = k * (4 * b + 3) + 2 + 4 * length ms
fetcher_work b stopped = 0

abbrev pub worker_work : List Worker → ℕ
worker_work [] = 0
worker_work (idle ∷ ws) = 1 + worker_work ws
worker_work (busy _ ∷ ws) = 2 + worker_work ws
worker_work (_ ∷ ws) = worker_work ws

abbrev pub work : ℕ → Pool → ℕ
work b p = fetcher_work b p.fetcher + 3 * length p.channel + worker_work p.workers

worker_work-append :
    (xs ys : List Worker) → worker_work (xs ++ ys) ≡ worker_work xs + worker_work ys
worker_work-append [] ys = omega arith
worker_work-append (idle ∷ xs) ys = omega (arith, worker_work-append xs ys)
worker_work-append (busy m ∷ xs) ys = omega (arith, worker_work-append xs ys)
worker_work-append (exited ∷ xs) ys = worker_work-append xs ys
worker_work-append (dead ∷ xs) ys = worker_work-append xs ys

-- What one worker's change of state does to the sum.
worker_work-swap :
    (before after : List Worker) (v w : Worker) {ws : List Worker}
    → ws ≡ before ++ v ∷ after
    → worker_work (before ++ w ∷ after) + worker_work (v ∷ [])
      ≡ worker_work ws + worker_work (w ∷ [])
worker_work-swap before after v w e = omega (
  arith,
  ap worker_work e,
  worker_work-append before (v ∷ after),
  worker_work-append before (w ∷ after),
  worker_work-append (v ∷ []) after,
  worker_work-append (w ∷ []) after,
)

fetcher_work-after : (b k : ℕ) → suc (fetcher_work b (after_stream k)) ≤ k * (4 * b + 3) + 2
fetcher_work-after b zero = omega arith
fetcher_work-after b (suc k) = omega arith

read_work :
    (b k : ℕ) (batch : List StreamMessage)
    → length batch ≤ b
    → suc (fetcher_work b (dispatching k batch)) ≤ fetcher_work b (reading k)
read_work b k batch h = grind arith

-- After a cancellation every move does some of the work.
pub Step-work :
    {cap more : ℕ} (b : ℕ) {p q : Pool} (s : Step cap more p q)
    → is_move s ≡ true
    → length q.fetched ≤ b + length p.fetched
    → p.cancelled ≡ true
    → (suc (work b q) ≤ work b p) × (q.cancelled ≡ true)
Step-work b cancel m h c = cc
Step-work b (select_stop f d) m h c = (omega (arith, ap (fetcher_work b) f), c)
Step-work b (select_read f d) m h c = cc
Step-work b {p} (read_ok k batch f) m h c = (
  omega (
    arith,
    ap (fetcher_work b) f,
    read_work b k batch (omega (arith, h, length-append batch p.fetched)),
  ),
  c,
)
Step-work b (read_stop k f d) m h c = (grind (arith, ap (fetcher_work b) f), c)
Step-work b (read_retry k f d) m h c = cc
Step-work b {p} (send k x rest f room) m h c =
    (omega (arith, ap (fetcher_work b) f, length-append p.channel (x ∷ [])), c)
Step-work b (send_stop k x rest f d) m h c = (omega (arith, ap (fetcher_work b) f), c)
Step-work b (batch_done k f) m h c =
    (omega (arith, ap (fetcher_work b) f, fetcher_work-after b k), c)
Step-work b (take before after x rest w d) m h c =
    (omega (arith, ap length d, worker_work-swap before after idle (busy x) w), c)
Step-work b (finish before after x w) m h c =
    (omega (arith, worker_work-swap before after (busy x) idle w), c)
Step-work b (panic before after x w) m h c =
    (omega (arith, worker_work-swap before after (busy x) dead w), c)
Step-work b (exit before after w f d) m h c =
    (omega (arith, worker_work-swap before after idle exited w), c)

Moves-work :
    {cap more b : ℕ} {p : Pool}
    → p.cancelled ≡ true
    → {k : ℕ} {q : Pool} → Moves cap more b p k q
    → (k + work b q ≤ work b p) × (q.cancelled ≡ true)
Moves-work c none_yet = (omega arith, c)
Moves-work {b} c (move s m h moves) =
    let (bound, still) = Moves-work c moves in
    let (less, now) = Step-work b s m h still in (omega (arith, bound, less), now)

-- How many streams of its round the fetcher has still to read.
abbrev streams_left : Fetcher → ℕ
streams_left (reading k) = k
streams_left (dispatching k ms) = k
streams_left _ = 0

abbrev pub in_dispatch : Fetcher → List StreamMessage
in_dispatch (dispatching k ms) = ms
in_dispatch _ = []

streams_left-after : (k : ℕ) → streams_left (after_stream k) ≤ k
streams_left-after zero = omega arith
streams_left-after (suc k) = omega arith

Reach-streams_left : {n more : ℕ} {p : Pool} → Reach n more p → streams_left p.fetcher ≤ more
unfolding start
Reach-streams_left begin = omega arith
Reach-streams_left (next r cancel) = Reach-streams_left r
Reach-streams_left (next r (select_stop f d)) = omega arith
Reach-streams_left (next r (select_read f d)) = omega arith
Reach-streams_left (next r (read_ok k batch f)) =
    omega (arith, ap streams_left f, Reach-streams_left r)
Reach-streams_left (next r (read_stop k f d)) = omega arith
Reach-streams_left (next r (read_retry k f d)) =
    omega (arith, ap streams_left f, Reach-streams_left r, streams_left-after k)
Reach-streams_left (next r (send k m rest f room)) =
    omega (arith, ap streams_left f, Reach-streams_left r)
Reach-streams_left (next r (send_stop k m rest f d)) = omega arith
Reach-streams_left (next r (batch_done k f)) =
    omega (arith, ap streams_left f, Reach-streams_left r, streams_left-after k)
Reach-streams_left (next r (take before after m rest w c)) = Reach-streams_left r
Reach-streams_left (next r (finish before after m w)) = Reach-streams_left r
Reach-streams_left (next r (panic before after m w)) = Reach-streams_left r
Reach-streams_left (next r (exit before after w f c)) = Reach-streams_left r

worker_work-le : (ws : List Worker) → worker_work ws ≤ 2 * running ws
worker_work-le [] = omega arith
worker_work-le (idle ∷ ws) = omega (arith, worker_work-le ws)
worker_work-le (busy m ∷ ws) = omega (arith, worker_work-le ws)
worker_work-le (exited ∷ ws) = worker_work-le ws
worker_work-le (dead ∷ ws) = worker_work-le ws

fetcher_work-le :
    (b more : ℕ) (f : Fetcher)
    → streams_left f ≤ more
    → length (in_dispatch f) ≤ b
    → fetcher_work b f ≤ suc more * (4 * b + 3)
fetcher_work-le b more selecting s h = grind arith
fetcher_work-le b more (reading k) s h = mul-le-mul_right (4 * b + 3) (omega arith)
fetcher_work-le b more (dispatching k ms) s h = omega (arith, mul-le-mul_right (4 * b + 3) s)
fetcher_work-le b more stopped s h = omega arith

-- After a cancellation of a pool of `n` workers whose fetcher reads `more + 1` streams in a round,
-- with at most `b` messages in the batch in hand and in every batch read later, every schedule
-- makes at most (more + 1) (4 b + 3) + 32 n moves.
pub Moves-bounded :
    {n more b k : ℕ} {p q : Pool}
    → Reach n more p
    → p.cancelled ≡ true
    → length (in_dispatch p.fetcher) ≤ b
    → Moves (capacity n) more b p k q
    → k ≤ suc more * (4 * b + 3) + 32 * n
Moves-bounded {b} {p} r c h moves = omega (
  arith,
  (Moves-work c moves).0,
  fetcher_work-le b _ p.fetcher (Reach-streams_left r) h,
  worker_work-le p.workers,
  Reach-workers r,
  Reach-channel r,
)
