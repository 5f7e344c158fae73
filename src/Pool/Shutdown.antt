-- ===== src/Pool/Shutdown.antt =====
-- How the pool ends: orderly, with the channel closed and drained, or by panics, each of which
-- costs a worker.
use forge_task_queue.Common.{
  ℕ, zero, suc, ◌+◌, ◌<◌, ◌≡◌, refl, ap, ◌∙◌, Bool, true, false, List, [], ◌∷◌, ◌++◌, length, arith,
}
use forge_task_queue.Task.Store.{StreamMessage}
use forge_task_queue.Pool.{
  Fetcher, dispatching, stopped, Worker, idle, busy, exited, dead, Pool, idle_workers, capacity,
  start, Step, cancel, select_stop, select_read, read_ok, read_stop, read_retry, send, send_stop,
  batch_done, take, finish, panic, exit, Reach, begin, next,
}
use forge_task_queue.Pool.Accounting.{total, in_hand, undispatched, Reach-IsBalanced}

-- The workers still in their loop.
abbrev pub running : List Worker → ℕ
running [] = 0
running (idle ∷ ws) = suc (running ws)
running (busy _ ∷ ws) = suc (running ws)
running (_ ∷ ws) = running ws

-- The workers that left their loop because the channel was closed.
abbrev pub leavers : List Worker → ℕ
leavers [] = 0
leavers (exited ∷ ws) = suc (leavers ws)
leavers (_ ∷ ws) = leavers ws

-- Further steps.
pub data Run (cap more : ℕ) (p : Pool) : Pool → Type 0 where
  rest : Run cap more p p
  then : {q r : Pool} → Run cap more p q → Step cap more q r → Run cap more p r

pub running-append : (xs ys : List Worker) → running (xs ++ ys) ≡ running xs + running ys
running-append [] ys = omega arith
running-append (idle ∷ xs) ys = omega (arith, running-append xs ys)
running-append (busy m ∷ xs) ys = omega (arith, running-append xs ys)
running-append (exited ∷ xs) ys = running-append xs ys
running-append (dead ∷ xs) ys = running-append xs ys

leavers-append : (xs ys : List Worker) → leavers (xs ++ ys) ≡ leavers xs + leavers ys
leavers-append [] ys = omega arith
leavers-append (idle ∷ xs) ys = leavers-append xs ys
leavers-append (busy m ∷ xs) ys = leavers-append xs ys
leavers-append (exited ∷ xs) ys = omega (arith, leavers-append xs ys)
leavers-append (dead ∷ xs) ys = leavers-append xs ys

-- A worker that changes its state changes the counts by its own share.
replaced :
    (before after : List Worker) (v w : Worker)
    → (running (before ++ v ∷ after) ≡ running before + running (v ∷ after))
      × (running (before ++ w ∷ after) ≡ running before + running (w ∷ after))
      × (leavers (before ++ v ∷ after) ≡ leavers before + leavers (v ∷ after))
      × (leavers (before ++ w ∷ after) ≡ leavers before + leavers (w ∷ after))
replaced before after v w = (
  running-append before (v ∷ after),
  running-append before (w ∷ after),
  leavers-append before (v ∷ after),
  leavers-append before (w ∷ after),
)

abbrev counted : Pool → ℕ
counted p = running p.workers + leavers p.workers + length p.abandoned

Step-counted : {cap more : ℕ} {p q : Pool} → Step cap more p q → counted q ≡ counted p
Step-counted cancel = refl
Step-counted (select_stop f c) = refl
Step-counted (select_read f c) = refl
Step-counted (read_ok k batch f) = refl
Step-counted (read_stop k f c) = refl
Step-counted (read_retry k f c) = refl
Step-counted (send k m ms f room) = refl
Step-counted (send_stop k m ms f c) = refl
Step-counted (batch_done k f) = refl
Step-counted (take before after m ms w c) =
    omega (arith, ap running w, ap leavers w, replaced before after idle (busy m))
Step-counted (finish before after m w) =
    omega (arith, ap running w, ap leavers w, replaced before after (busy m) idle)
Step-counted (panic before after m w) =
    omega (arith, ap running w, ap leavers w, replaced before after (busy m) dead)
Step-counted (exit before after w f c) =
    omega (arith, ap running w, ap leavers w, replaced before after idle exited)

counted-idle : (n : ℕ) → (running (idle_workers n) ≡ n) × (leavers (idle_workers n) ≡ 0)
counted-idle zero = (refl, refl)
counted-idle (suc n) = (ap suc (counted-idle n).0, (counted-idle n).1)

-- No worker is ever replaced: in every reachable state, the workers still running, those that left
-- on the closed channel and the messages abandoned to panics together number the workers started.
pub Reach-workers :
    {n more : ℕ} {p : Pool}
    → Reach n more p
    → running p.workers + leavers p.workers + length p.abandoned ≡ n
unfolding start
Reach-workers {n} begin = omega (arith, counted-idle n)
Reach-workers (next r s) = Step-counted s ∙ Reach-workers r

-- With no worker running a step handles nothing, and starts no worker.
Step-dead :
    {cap more : ℕ} {p q : Pool}
    → Step cap more p q
    → running p.workers ≡ 0
    → (q.handled ≡ p.handled) × (running q.workers ≡ 0)
Step-dead cancel z = (refl, z)
Step-dead (select_stop f c) z = (refl, z)
Step-dead (select_read f c) z = (refl, z)
Step-dead (read_ok k batch f) z = (refl, z)
Step-dead (read_stop k f c) z = (refl, z)
Step-dead (read_retry k f c) z = (refl, z)
Step-dead (send k m ms f room) z = (refl, z)
Step-dead (send_stop k m ms f c) z = (refl, z)
Step-dead (batch_done k f) z = (refl, z)
Step-dead (take before after m ms w c) z =
    absurd (omega (arith, ap running w, replaced before after idle idle, z))
Step-dead (finish before after m w) z =
    absurd (omega (arith, ap running w, replaced before after (busy m) idle, z))
Step-dead (panic before after m w) z =
    absurd (omega (arith, ap running w, replaced before after (busy m) idle, z))
Step-dead (exit before after w f c) z =
    absurd (omega (arith, ap running w, replaced before after idle idle, z))

Run-dead :
    {cap more : ℕ} {p q : Pool}
    → Run cap more p q
    → running p.workers ≡ 0
    → (q.handled ≡ p.handled) × (running q.workers ≡ 0)
Run-dead rest z = (refl, z)
Run-dead (then r s) z =
    let before = Run-dead r z in let now = Step-dead s before.1 in (now.0 ∙ before.0, now.1)

none_running :
    {n more : ℕ} {p : Pool} → Reach n more p → length p.abandoned ≡ n → running p.workers ≡ 0
none_running r full = omega (arith, Reach-workers r, full)

-- Once as many messages have panicked as there were workers, nothing is handled any more, whatever
-- the program does from there.
pub panics_stop_pool :
    {n more : ℕ} {p q : Pool}
    → Reach n more p
    → length p.abandoned ≡ n
    → Run (capacity n) more p q
    → q.handled ≡ p.handled
panics_stop_pool {p} r full run = (Run-dead run (none_running r full)).0

is_stopped : Fetcher → Bool
is_stopped stopped = true
is_stopped _ = false

-- A worker leaves only after the fetcher closed the channel and it was emptied.
Reach-leavers :
    {n more : ℕ} {p : Pool}
    → Reach n more p
    → 0 < leavers p.workers
    → (p.fetcher ≡ stopped) × (p.channel ≡ [])
unfolding start
Reach-leavers {n} begin some = absurd (omega (arith, counted-idle n, some))
Reach-leavers (next r cancel) some = Reach-leavers r some
Reach-leavers (next r (select_stop f c)) some = (refl, (Reach-leavers r some).1)
Reach-leavers (next r (select_read f c)) some = absurd (cc (f, (Reach-leavers r some).0))
Reach-leavers (next r (read_ok k batch f)) some = absurd (cc (f, (Reach-leavers r some).0))
Reach-leavers (next r (read_stop k f c)) some = (refl, (Reach-leavers r some).1)
Reach-leavers (next r (read_retry k f c)) some = absurd (cc (f, (Reach-leavers r some).0))
Reach-leavers (next r (send k m ms f room)) some = absurd (cc (f, (Reach-leavers r some).0))
Reach-leavers (next r (send_stop k m ms f c)) some = (refl, (Reach-leavers r some).1)
Reach-leavers (next r (batch_done k f)) some = absurd (cc (f, (Reach-leavers r some).0))
Reach-leavers (next r (take before after m ms w c)) some =
    let before_left =
      Reach-leavers r (omega (arith, ap leavers w, replaced before after idle (busy m), some)) in
    absurd (cc (c, before_left.1))
Reach-leavers (next r (finish before after m w)) some =
    Reach-leavers r (omega (arith, ap leavers w, replaced before after (busy m) idle, some))
Reach-leavers (next r (panic before after m w)) some =
    Reach-leavers r (omega (arith, ap leavers w, replaced before after (busy m) dead, some))
Reach-leavers (next r (exit before after w f c)) some = (f, c)

pub in_hand-dead :
    (weight : StreamMessage → ℕ) (ws : List Worker) → running ws ≡ 0 → in_hand weight ws ≡ 0
in_hand-dead weight [] z = refl
in_hand-dead weight (idle ∷ ws) z = omega (arith, z)
in_hand-dead weight (busy m ∷ ws) z = omega (arith, z)
in_hand-dead weight (exited ∷ ws) z = in_hand-dead weight ws z
in_hand-dead weight (dead ∷ ws) z = in_hand-dead weight ws z

-- When every worker has returned, which is what `Start` waits for, and one of them left because the
-- channel was closed, then each fetched message, counted by any weight, was handled, abandoned to a
-- panic or dropped at the cancellation: none is left in the channel.
shutdown_lem :
    (weight : StreamMessage → ℕ) {n more : ℕ} {p : Pool}
    → Reach n more p
    → running p.workers ≡ 0
    → 0 < leavers p.workers
    → total weight p.fetched
      ≡ total weight p.handled + total weight p.abandoned + total weight p.dropped
shutdown_lem weight {p} r z some = omega (
  arith,
  Reach-IsBalanced weight r,
  in_hand-dead weight p.workers z,
  ap (undispatched weight) (Reach-leavers r some).0,
  ap (total weight) (Reach-leavers r some).1,
)

-- With every worker gone to a panic, the channel full, a message of a batch still to send and no
-- cancellation, the fetcher is stuck: the only step left is the cancellation.
full_channel_blocks :
    {n more : ℕ} {p q : Pool} (k : ℕ) (m : StreamMessage) (ms : List StreamMessage)
    → Reach n more p
    → length p.abandoned ≡ n
    → p.fetcher ≡ dispatching k (m ∷ ms)
    → length p.channel ≡ capacity n
    → p.cancelled ≡ false
    → Step (capacity n) more p q
    → q ≡ record p { cancelled = true }
full_channel_blocks k m ms r gone f full c cancel = refl
full_channel_blocks k m ms r gone f full c (select_stop g d) = absurd (cc (f, g))
full_channel_blocks k m ms r gone f full c (select_read g d) = absurd (cc (f, g))
full_channel_blocks k m ms r gone f full c (read_ok j batch g) = absurd (cc (f, g))
full_channel_blocks k m ms r gone f full c (read_stop j g d) = absurd (cc (f, g))
full_channel_blocks k m ms r gone f full c (read_retry j g d) = absurd (cc (f, g))
full_channel_blocks k m ms r gone f full c (send j l ks g room) = absurd (omega (arith, full, room))
full_channel_blocks k m ms r gone f full c (send_stop j l ks g d) = absurd (cc (c, d))
full_channel_blocks k m ms r gone f full c (batch_done j g) = absurd (cc (f, g))
full_channel_blocks k m ms r gone f full c (take before after l ks w d) =
    absurd (omega (arith, none_running r gone, ap running w, replaced before after idle idle))
full_channel_blocks k m ms r gone f full c (finish before after l w) =
    absurd (omega (arith, none_running r gone, ap running w, replaced before after (busy l) idle))
full_channel_blocks k m ms r gone f full c (panic before after l w) =
    absurd (omega (arith, none_running r gone, ap running w, replaced before after (busy l) idle))
full_channel_blocks k m ms r gone f full c (exit before after w g d) = absurd (cc (f, g))
