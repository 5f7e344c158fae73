-- ===== src/Pool/Order/Single.antt =====
-- A pool of one worker: the order in which it handles the messages.
use mathlib.Core.List.{reverse, append_assoc, append-nil, reverse-cons}
use forge_task_queue.Common.{ℕ, ◌≡◌, refl, sym, ap, ◌∙◌, List, [], ◌∷◌, ◌++◌}
use forge_task_queue.Task.Store.{StreamMessage}
use forge_task_queue.Pool.{
  Worker, idle, busy, exited, dead, Pool, start, cancel, select_stop, select_read, read_ok,
  read_stop, read_retry, send, send_stop, batch_done, take, finish, panic, exit, Reach, begin, next,
}
use forge_task_queue.Pool.Termination.{in_dispatch}
use forge_task_queue.Pool.Order.{fetched_in, taken_in, Reach-in_order}

-- What a worker has received, from what it has handled, the latest first: with the message in its
-- hands, or the one that it died of.
abbrev Received : Worker → List StreamMessage → List StreamMessage → Type 0
Received idle handled taken = taken ≡ reverse handled
Received (busy m) handled taken = taken ≡ reverse handled ++ m ∷ []
Received exited handled taken = taken ≡ reverse handled
Received dead handled taken = (m : StreamMessage) × (taken ≡ reverse handled ++ m ∷ [])

-- The same of the only worker of a pool.
abbrev Single : List Worker → List StreamMessage → List StreamMessage → Type 0
Single [] handled taken = ⊥
Single (w ∷ []) handled taken = Received w handled taken
Single (w ∷ v ∷ ws) handled taken = ⊥

-- A worker that changes its state is the only one.
swap :
    (before after : List Worker) (v w : Worker) (h t h' t' : List StreamMessage)
    → (Received v h t → Received w h' t')
    → Single (before ++ v ∷ after) h t
    → Single (before ++ w ∷ after) h' t'
swap [] [] v w h t h' t' f s = f s
swap [] (_ ∷ _) v w h t h' t' f s = absurd s
swap (_ ∷ []) after v w h t h' t' f s = absurd s
swap (_ ∷ _ ∷ _) after v w h t h' t' f s = absurd s

Reach-Single : {more : ℕ} {p : Pool} (r : Reach 1 more p) → Single p.workers p.handled (taken_in r)
unfolding start
Reach-Single begin = refl
Reach-Single (next r (take before after m rest w c)) =
    swap before after idle (busy m) _ _ _ _ (λ e. ap (λ ms. ms ++ m ∷ []) e)
      (rw w at (Reach-Single r))
Reach-Single (next {p} r (finish before after m w)) =
    swap before after (busy m) idle _ _ _ _ (λ e. e ∙ sym (reverse-cons m p.handled))
      (rw w at (Reach-Single r))
Reach-Single (next r (panic before after m w)) =
    swap before after (busy m) dead _ _ _ _ (λ e. (m, e)) (rw w at (Reach-Single r))
Reach-Single (next r (exit before after w f c)) =
    swap before after idle exited _ _ _ _ (λ e. e) (rw w at (Reach-Single r))
Reach-Single (next r cancel) = Reach-Single r
Reach-Single (next r (select_stop f d)) = Reach-Single r
Reach-Single (next r (select_read f d)) = Reach-Single r
Reach-Single (next r (read_ok k batch f)) = Reach-Single r
Reach-Single (next r (read_stop k f d)) = Reach-Single r
Reach-Single (next r (read_retry k f d)) = Reach-Single r
Reach-Single (next r (send k m rest f room)) = Reach-Single r
Reach-Single (next r (send_stop k m rest f d)) = Reach-Single r
Reach-Single (next r (batch_done k f)) = Reach-Single r

-- What the only worker has handled comes first in what it has received.
handled_first :
    (ws : List Worker) (handled taken : List StreamMessage)
    → Single ws handled taken
    → (rest : List StreamMessage) × (taken ≡ reverse handled ++ rest)
handled_first [] handled taken s = absurd s
handled_first (idle ∷ []) handled taken s = ([], s ∙ sym (append-nil _))
handled_first (busy m ∷ []) handled taken s = (m ∷ [], s)
handled_first (exited ∷ []) handled taken s = ([], s ∙ sym (append-nil _))
handled_first (dead ∷ []) handled taken s = (s.0 ∷ [], s.1)
handled_first (w ∷ v ∷ ws) handled taken s = absurd s

-- With one worker, the messages handled are, in the order of their handling, the first of those
-- fetched, in the order of the fetch.
handled_in_order :
    {more : ℕ} {p : Pool} (r : Reach 1 more p)
    → (rest : List StreamMessage) × (fetched_in r ≡ reverse p.handled ++ rest)
handled_in_order {p} r =
    let (rest, first) = handled_first p.workers p.handled (taken_in r) (Reach-Single r) in
    let later = p.channel ++ (in_dispatch p.fetcher ++ p.dropped) in
    (
      rest ++ later,
      Reach-in_order r ∙ ap (λ ms. ms ++ later) first ∙ append_assoc (reverse p.handled) rest later,
    )
