-- ===== src/Pool/Fairness.antt =====
-- As long as one worker runs, nothing that was fetched is stuck, with or without a cancellation.
use forge_task_queue.Common.{
  ℕ, zero, suc, ◌+◌, ◌*◌, ◌≤◌, ◌<◌, ◌≡◌, refl, ap, ◌∙◌, ◌⊎◌, inl, inr, List, [], ◌∷◌, ◌++◌, length,
  length-append, arith,
}
use forge_task_queue.Task.Store.{StreamMessage}
use forge_task_queue.Pool.{
  Fetcher, selecting, reading, dispatching, stopped, Worker, idle, busy, exited, dead, Pool, Step,
  send, take, finish,
}
use forge_task_queue.Pool.Shutdown.{running, running-append, Run, rest, then}
use forge_task_queue.Pool.Accounting.{total, total-append}
use forge_task_queue.Pool.Queue.{held, held-append}
use forge_task_queue.Pool.Termination.{in_dispatch}

-- All that was fetched has left the fetcher, the channel and the workers' hands.
abbrev pub IsServed : Pool → Type 0
IsServed p = (in_dispatch p.fetcher ≡ []) × (p.channel ≡ []) × (held p.workers ≡ [])

-- What is not touched: the reads, the panics, what a cancellation drops, and the context.
abbrev pub Untouched : Pool → Pool → Type 0
Untouched p q =
    (q.fetched ≡ p.fetched)
    × (q.abandoned ≡ p.abandoned)
    × (q.dropped ≡ p.dropped)
    × (q.cancelled ≡ p.cancelled)

-- What was handled, and what is still to be, counted by any weight of the messages.
abbrev owed : (StreamMessage → ℕ) → Pool → ℕ
owed weight p =
    total weight p.handled
    + total weight p.channel
    + total weight (in_dispatch p.fetcher)
    + total weight (held p.workers)

-- What waited, or was in hands, stays owed.
abbrev Owed : Pool → Pool → Type 0
Owed p q = (weight : StreamMessage → ℕ) → owed weight q ≡ owed weight p

-- The sends, takes and ends that are left.
abbrev left : Pool → ℕ
left p = 3 * length (in_dispatch p.fetcher) + 2 * length p.channel + length (held p.workers)

-- A step of this kind.
abbrev Advance : ℕ → ℕ → Pool → Type 0
Advance cap more p =
    (q : Pool) × Step cap more p q
    × Untouched p q
    × Owed p q
    × (0 < running q.workers)
    × (left q < left p)

find_busy :
    (ws : List Worker)
    → (held ws ≡ [])
      ⊎ ((before : List Worker) × (m : StreamMessage) × (after : List Worker) × (ws
            ≡ before ++ busy m ∷ after))
find_busy [] = inl refl
find_busy (busy m ∷ ws) = inr ([], m, ws, refl)
find_busy (idle ∷ ws) = elim (find_busy ws) [
  | inl none ↦ inl none
  | inr (before, m, after, e) ↦ inr (idle ∷ before, m, after, ap (λ vs. idle ∷ vs) e)
]
find_busy (exited ∷ ws) = elim (find_busy ws) [
  | inl none ↦ inl none
  | inr (before, m, after, e) ↦ inr (exited ∷ before, m, after, ap (λ vs. exited ∷ vs) e)
]
find_busy (dead ∷ ws) = elim (find_busy ws) [
  | inl none ↦ inl none
  | inr (before, m, after, e) ↦ inr (dead ∷ before, m, after, ap (λ vs. dead ∷ vs) e)
]

-- With no message in hands a worker that runs is idle.
find_idle :
    (ws : List Worker)
    → held ws ≡ []
    → 0 < running ws
    → (before : List Worker) × (after : List Worker) × (ws ≡ before ++ idle ∷ after)
find_idle [] e h = absurd (omega arith)
find_idle (busy m ∷ ws) e h = cc e
find_idle (idle ∷ ws) e h = ([], ws, refl)
find_idle (exited ∷ ws) e h =
    let (before, after, w) = find_idle ws e h in (exited ∷ before, after, ap (λ vs. exited ∷ vs) w)
find_idle (dead ∷ ws) e h =
    let (before, after, w) = find_idle ws e h in (dead ∷ before, after, ap (λ vs. dead ∷ vs) w)

held_total :
    (weight : StreamMessage → ℕ) (before ws : List Worker)
    → total weight (held (before ++ ws)) ≡ total weight (held before) + total weight (held ws)
held_total weight before ws =
    ap (total weight) (held-append before ws) ∙ total-append weight (held before) (held ws)

finish_advances :
    {cap more : ℕ} (p : Pool) (before after : List Worker) (m : StreamMessage)
    → p.workers ≡ before ++ busy m ∷ after
    → Advance cap more p
finish_advances p before after m w = (
  _,
  finish before after m w,
  (refl, refl, refl, refl),
  (λ weight. omega (
    arith,
    ap (λ ws. total weight (held ws)) w,
    held_total weight before (busy m ∷ after),
    held_total weight before (idle ∷ after),
  )),
  omega (arith, running-append before (idle ∷ after)),
  omega (
    arith,
    ap (λ ws. length (held ws)) w,
    ap length (held-append before (busy m ∷ after)),
    ap length (held-append before (idle ∷ after)),
    length-append (held before) (m ∷ held after),
    length-append (held before) (held after),
  ),
)

take_advances :
    {cap more : ℕ} (p : Pool) (before after : List Worker) (m : StreamMessage)
    (ms : List StreamMessage)
    → p.workers ≡ before ++ idle ∷ after
    → p.channel ≡ m ∷ ms
    → Advance cap more p
take_advances p before after m ms w c = (
  _,
  take before after m ms w c,
  (refl, refl, refl, refl),
  (λ weight. omega (
    arith,
    ap (total weight) c,
    ap (λ ws. total weight (held ws)) w,
    held_total weight before (busy m ∷ after),
    held_total weight before (idle ∷ after),
  )),
  omega (arith, running-append before (busy m ∷ after)),
  omega (
    arith,
    ap length c,
    ap (λ ws. length (held ws)) w,
    ap length (held-append before (busy m ∷ after)),
    ap length (held-append before (idle ∷ after)),
    length-append (held before) (m ∷ held after),
    length-append (held before) (held after),
  ),
)

send_advances :
    {cap more : ℕ} (p : Pool) (k : ℕ) (m : StreamMessage) (ms : List StreamMessage)
    → 0 < cap
    → 0 < running p.workers
    → p.fetcher ≡ dispatching k (m ∷ ms)
    → p.channel ≡ []
    → Advance cap more p
send_advances p k m ms some h f c = (
  _,
  send k m ms f (omega (arith, ap length c)),
  (refl, refl, refl, refl),
  (λ weight.
      omega
        (arith, ap (λ g. total weight (in_dispatch g)) f, total-append weight p.channel (m ∷ []))),
  h,
  omega (arith, ap (λ g. length (in_dispatch g)) f, length-append p.channel (m ∷ [])),
)

-- With no message in hands: a send, a take, or nothing left.
idle_advances :
    {cap more : ℕ} (p : Pool) (f : Fetcher) (ms : List StreamMessage)
    → 0 < cap
    → 0 < running p.workers
    → held p.workers ≡ []
    → p.fetcher ≡ f
    → p.channel ≡ ms
    → IsServed p ⊎ Advance cap more p
idle_advances p f (m ∷ ms) some h e g c =
    let (before, after, w) = find_idle p.workers e h in inr (take_advances p before after m ms w c)
idle_advances p (dispatching k (m ∷ ms)) [] some h e g c = inr (send_advances p k m ms some h g c)
idle_advances p (dispatching k []) [] some h e g c = inl (ap in_dispatch g, c, e)
idle_advances p selecting [] some h e g c = inl (ap in_dispatch g, c, e)
idle_advances p (reading k) [] some h e g c = inl (ap in_dispatch g, c, e)
idle_advances p stopped [] some h e g c = inl (ap in_dispatch g, c, e)

advance :
    {cap more : ℕ} (p : Pool) → 0 < cap → 0 < running p.workers → IsServed p ⊎ Advance cap more p
advance p some h = elim (find_busy p.workers) [
  | inr (before, m, after, w) ↦ inr (finish_advances p before after m w)
  | inl none ↦ idle_advances p p.fetcher p.channel some h none refl refl
]

-- What waited in the fetcher's hands and the channel, or was in a worker's hands, has been handled, and
-- nothing else, counted by any weight of the messages.
abbrev pub HandledAll : Pool → Pool → Type 0
HandledAll p q =
    (weight : StreamMessage → ℕ)
    → total weight q.handled
      ≡ total weight p.handled
        + total weight p.channel
        + total weight (in_dispatch p.fetcher)
        + total weight (held p.workers)

-- A run to a state in which all is served.
abbrev pub CanServe : ℕ → ℕ → Pool → Type 0
CanServe cap more p = (q : Pool) × Run cap more p q × Untouched p q × IsServed q × HandledAll p q

-- Where all is served, what was owed has been handled.
all_handled : (p q : Pool) → Owed p q → IsServed q → HandledAll p q
all_handled p q same (f, c, h) weight =
    omega (arith, same weight, ap (total weight) f, ap (total weight) c, ap (total weight) h)

serve :
    (k : ℕ) {cap more : ℕ} {p : Pool} (q : Pool)
    → 0 < cap
    → Run cap more p q
    → Untouched p q
    → Owed p q
    → 0 < running q.workers
    → left q ≤ k
    → CanServe cap more p
serve zero {more} {p} q some run same owes h bound = elim (advance {more = more} q some h) [
  | inl served ↦ (q, run, same, served, all_handled p q owes served)
  | inr (r, s, kept, due, on, less) ↦ absurd (omega (arith, less, bound))
]
serve (suc k) {more} {p} q some run same owes h bound = elim (advance {more = more} q some h) [
  | inl served ↦ (q, run, same, served, all_handled p q owes served)
  | inr (r, s, kept, due, on, less) ↦
      serve k r some (then run s)
        (kept.0 ∙ same.0, kept.1 ∙ same.1, kept.2 ∙ same.2, kept.3 ∙ same.3)
        (λ weight. due weight ∙ owes weight) on (omega (arith, less, bound))
]

-- From any state in which some worker runs and the channel has a place, cancelled or not, the
-- goroutines have a run to a state in which the batch in hand and the channel are empty and no
-- worker holds a message; in this run nothing is read, no message is abandoned or dropped, and the
-- context stays as it is; and at its end exactly what waited or was in hands has been handled on
-- top of what had been, counted by any weight of the messages.
pub can_serve : {cap more : ℕ} (p : Pool) → 0 < cap → 0 < running p.workers → CanServe cap more p
can_serve p some h =
    serve (left p) p some rest (refl, refl, refl, refl) (λ weight. refl) h (omega arith)
