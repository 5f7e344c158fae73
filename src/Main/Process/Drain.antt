-- ===== src/Main/Process/Drain.antt =====
-- main.go: after a signal the program can always end.
use forge_task_queue.Common.{ℕ, zero, suc, ◌≤◌, ◌≡◌, refl, ap, ◌∙◌, inl, inr, true, arith, length}
use forge_task_queue.Pool.{capacity}
use forge_task_queue.Pool.Termination.{work, Step-work}
use forge_task_queue.Pool.Progress.{no_deadlock}
use forge_task_queue.Main.Process
use forge_task_queue.Main.Process.{
  Phase, preparing, waiting, exited, is_alive, Process, boot, Step, interrupt, relay, server, tick,
  mocks_stop, grouped, refused, finish, Reach, begin, next, Run, rest, later,
}

-- A run to a regular end of the program that fetches nothing more.
abbrev pub CanExit : ℕ → Process → Type 0
CanExit n p = (q : Process) × Run n p q × (q.phase ≡ exited 0) × (q.pool.fetched ≡ p.pool.fetched)

drain :
    (k : ℕ) {n : ℕ} (p : Process)
    → p.phase ≡ waiting
    → p.pool.cancelled ≡ true
    → work 0 p.pool ≤ k
    → CanExit n p
drain zero {n} p e c h = elim (no_deadlock (capacity n) 0 p.pool c) [
  | inl (f, w) ↦ (_, later (finish e f w) rest, refl, refl)
  | inr (q, s, m, g) ↦ absurd (omega (arith, h, (Step-work 0 s m (omega (arith, ap length g)) c).0))
]
drain (suc k) {n} p e c h = elim (no_deadlock (capacity n) 0 p.pool c) [
  | inl (f, w) ↦ (_, later (finish e f w) rest, refl, refl)
  | inr (q, s, m, g) ↦
      let (less, still) = Step-work 0 s m (omega (arith, ap length g)) c in
      let (r, run, done, kept) = drain k (record p { pool = q }) e still (omega (arith, h, less)) in
      (r, later (Process.work s m e) run, done, kept ∙ g)
]

from_phase :
    {n : ℕ} (p : Process) (f : Phase)
    → p.phase ≡ f
    → is_alive f ≡ true
    → p.pool.cancelled ≡ true
    → CanExit n p
from_phase p preparing e a c =
    let (q, run, done, kept) =
      drain (work 0 p.pool) (record p { phase = waiting }) refl c (omega arith) in
    (q, later (grouped e) run, done, kept)
from_phase p waiting e a c = drain (work 0 p.pool) p e c (omega arith)
from_phase p (exited k) e a c = absurd (cc a)

-- Once a signal has arrived, and whatever the state of the program's goroutines then, a program
-- that has not ended has a run to its end with status 0 in which it fetches nothing more.
pub can_exit : {n : ℕ} (p : Process) → p.signalled ≡ true → is_alive p.phase ≡ true → CanExit n p
can_exit p s a =
    let cancelled : Process = record p { pool = record p.pool { cancelled = true } } in
    let (q, run, done, kept) = from_phase cancelled p.phase refl a refl in
    (q, later (relay a s) run, done, kept)
