-- ===== src/Pool/Accounting.antt =====
-- No message that was fetched is lost from sight: invariants of the pool.
use forge_task_queue.Common.{
  ℕ, zero, suc, ◌+◌, ◌≤◌, ◌≡◌, refl, ap, List, [], ◌∷◌, ◌++◌, length, length-append, arith,
}
use forge_task_queue.Task.Store.{StreamMessage}
use forge_task_queue.Pool.{
  Fetcher, dispatching, Worker, idle, busy, exited, dead, Pool, idle_workers, capacity,
  after_stream, start, Step, cancel, select_stop, select_read, read_ok, read_stop, read_retry, send,
  send_stop, batch_done, take, finish, panic, exit, Reach, begin, next,
}

-- In every reachable state the channel holds no more messages than it has places for, ten for each
-- worker.
pub Reach-channel : {n more : ℕ} {p : Pool} → Reach n more p → length p.channel ≤ capacity n
unfolding start
Reach-channel begin = omega arith
Reach-channel (next r cancel) = Reach-channel r
Reach-channel (next r (select_stop f c)) = Reach-channel r
Reach-channel (next r (select_read f c)) = Reach-channel r
Reach-channel (next r (read_ok k batch f)) = Reach-channel r
Reach-channel (next r (read_stop k f c)) = Reach-channel r
Reach-channel (next r (read_retry k f c)) = Reach-channel r
Reach-channel (next {p} r (send k m rest f room)) =
    omega (arith, length-append p.channel (m ∷ []), room)
Reach-channel (next r (send_stop k m rest f c)) = Reach-channel r
Reach-channel (next r (batch_done k f)) = Reach-channel r
Reach-channel (next r (take before after m rest w c)) = omega (arith, Reach-channel r, ap length c)
Reach-channel (next r (finish before after m w)) = Reach-channel r
Reach-channel (next r (panic before after m w)) = Reach-channel r
Reach-channel (next r (exit before after w f c)) = Reach-channel r

module _ (weight : StreamMessage → ℕ) where
  abbrev pub total : List StreamMessage → ℕ
  total [] = 0
  total (m ∷ ms) = weight m + total ms

  pub total-append : (xs ys : List StreamMessage) → total (xs ++ ys) ≡ total xs + total ys
  total-append [] ys = omega arith
  total-append (x ∷ xs) ys = omega (arith, total-append xs ys)

  abbrev pub in_hand : List Worker → ℕ
  in_hand [] = 0
  in_hand (busy m ∷ ws) = weight m + in_hand ws
  in_hand (_ ∷ ws) = in_hand ws

  in_hand-append : (xs ys : List Worker) → in_hand (xs ++ ys) ≡ in_hand xs + in_hand ys
  in_hand-append [] ys = omega arith
  in_hand-append (busy m ∷ xs) ys = omega (arith, in_hand-append xs ys)
  in_hand-append (idle ∷ xs) ys = in_hand-append xs ys
  in_hand-append (_ ∷ xs) ys = in_hand-append xs ys

  abbrev pub undispatched : Fetcher → ℕ
  undispatched (dispatching k ms) = total ms
  undispatched _ = 0

  undispatched-after : (k : ℕ) → undispatched (after_stream k) ≡ 0
  undispatched-after zero = refl
  undispatched-after (suc k) = refl

  -- Where the fetched messages are.
  abbrev pub IsBalanced : Pool → Type 0
  IsBalanced p =
      total p.fetched
      ≡ total p.handled
        + total p.abandoned
        + total p.dropped
        + total p.channel
        + in_hand p.workers
        + undispatched p.fetcher

  Step-IsBalanced : {cap more : ℕ} {p q : Pool} → Step cap more p q → IsBalanced p → IsBalanced q
  Step-IsBalanced cancel h = h
  Step-IsBalanced (select_stop f c) h = omega (arith, ap undispatched f)
  Step-IsBalanced (select_read f c) h = omega (arith, ap undispatched f)
  Step-IsBalanced {p} (read_ok k batch f) h =
      omega (arith, ap undispatched f, total-append batch p.fetched)
  Step-IsBalanced (read_stop k f c) h = omega (arith, ap undispatched f)
  Step-IsBalanced (read_retry k f c) h = omega (arith, ap undispatched f, undispatched-after k)
  Step-IsBalanced {p} (send k m rest f room) h =
      omega (arith, ap undispatched f, total-append p.channel (m ∷ []))
  Step-IsBalanced {p} (send_stop k m rest f c) h =
      omega (arith, ap undispatched f, total-append rest p.dropped)
  Step-IsBalanced (batch_done k f) h = omega (arith, ap undispatched f, undispatched-after k)
  Step-IsBalanced (take before after m rest w c) h = omega (
    arith,
    ap in_hand w,
    ap total c,
    in_hand-append before (idle ∷ after),
    in_hand-append before (busy m ∷ after),
  )
  Step-IsBalanced (finish before after m w) h = omega (
    arith,
    ap in_hand w,
    in_hand-append before (idle ∷ after),
    in_hand-append before (busy m ∷ after),
  )
  Step-IsBalanced (panic before after m w) h = omega (
    arith,
    ap in_hand w,
    in_hand-append before (dead ∷ after),
    in_hand-append before (busy m ∷ after),
  )
  Step-IsBalanced (exit before after w f c) h = omega (
    arith,
    ap in_hand w,
    in_hand-append before (exited ∷ after),
    in_hand-append before (idle ∷ after),
  )

  in_hand-idle : (n : ℕ) → in_hand (idle_workers n) ≡ 0
  in_hand-idle zero = refl
  in_hand-idle (suc n) = in_hand-idle n

  -- In every reachable state each fetched message, counted by any weight, is in exactly one place:
  -- handled, abandoned to a panic, dropped at a cancellation, in the channel, in a worker's hands,
  -- or still with the fetcher.
  pub Reach-IsBalanced : {n more : ℕ} {p : Pool} → Reach n more p → IsBalanced p
  unfolding start
  Reach-IsBalanced {n} begin = omega (arith, in_hand-idle n)
  Reach-IsBalanced (next r s) = Step-IsBalanced s (Reach-IsBalanced r)
