-- ===== src/Pool/Order.antt =====
-- The order of the messages on their way through the channel.
pub mod Single
use mathlib.Core.List.{reverse, append_assoc, append-nil}
use forge_task_queue.Common.{
  ℕ, zero, suc, ◌≡◌, refl, sym, ap, ◌∙◌, ◌⊎◌, inl, inr, List, [], ◌∷◌, ◌++◌, arith,
}
use forge_task_queue.Task.Store.{StreamMessage}
use forge_task_queue.Pool.{
  Fetcher, selecting, reading, dispatching, stopped, Worker, idle, busy, exited, dead, Pool, start,
  after_stream, Step, cancel, select_stop, select_read, read_ok, read_stop, read_retry, send,
  send_stop, batch_done, take, finish, panic, exit, Reach, begin, next,
}
use forge_task_queue.Pool.Termination.{in_dispatch}

module _ {n more : ℕ} where
  -- The messages of the reads of a run, in order.
  abbrev pub fetched_in : {p : Pool} → Reach n more p → List StreamMessage
  fetched_in begin = []
  fetched_in (next r (read_ok k batch f)) = fetched_in r ++ batch
  fetched_in (next r _) = fetched_in r

  -- The messages that the workers of a run received, in order.
  abbrev pub taken_in : {p : Pool} → Reach n more p → List StreamMessage
  taken_in begin = []
  taken_in (next r (take before after m rest w c)) = taken_in r ++ m ∷ []
  taken_in (next r _) = taken_in r

  -- Nothing is dropped before the fetcher stops.
  dropped_last : {p : Pool} → Reach n more p → (p.fetcher ≡ stopped) ⊎ (p.dropped ≡ [])
  unfolding start
  dropped_last begin = inr refl
  dropped_last (next r cancel) = dropped_last r
  dropped_last (next r (select_stop f d)) = inl refl
  dropped_last (next r (select_read f d)) = ground (arith, dropped_last r)
  dropped_last (next r (read_ok k batch f)) = ground (arith, dropped_last r)
  dropped_last (next r (read_stop k f d)) = inl refl
  dropped_last (next r (read_retry k f d)) = ground (arith, dropped_last r)
  dropped_last (next r (send k m rest f room)) = ground (arith, dropped_last r)
  dropped_last (next r (send_stop k m rest f d)) = inl refl
  dropped_last (next r (batch_done k f)) = ground (arith, dropped_last r)
  dropped_last (next r (take before after m rest w c)) = dropped_last r
  dropped_last (next r (finish before after m w)) = dropped_last r
  dropped_last (next r (panic before after m w)) = dropped_last r
  dropped_last (next r (exit before after w f c)) = dropped_last r

  -- Whatever the interleaving, the messages fetched are, in the order of the fetch, those that
  -- workers have received, in the order in which they received them, then those in the channel,
  -- then what is left of the batch in hand, then what a cancellation dropped.
  pub Reach-in_order :
      {p : Pool} (r : Reach n more p)
      → fetched_in r ≡ taken_in r ++ (p.channel ++ (in_dispatch p.fetcher ++ p.dropped))
  unfolding start
  Reach-in_order begin = refl
  Reach-in_order (next r cancel) = Reach-in_order r
  Reach-in_order (next r (select_stop f d)) = rw f at (Reach-in_order r)
  Reach-in_order (next r (select_read f d)) = rw f at (Reach-in_order r)
  Reach-in_order (next r (read_ok k batch f)) = elim (dropped_last r) [
    | inl shut ↦ absurd (cc)
    | inr kept ↦ rw kept (simp (rw (f, kept) at (Reach-in_order r), append_assoc, append-nil))
  ]
  Reach-in_order (next r (read_stop k f d)) = rw f at (Reach-in_order r)
  Reach-in_order (next r (read_retry zero f d)) = rw f at (Reach-in_order r)
  Reach-in_order (next r (read_retry (suc k) f d)) = rw f at (Reach-in_order r)
  Reach-in_order (next r (send k m rest f room)) = simp (rw f at (Reach-in_order r), append_assoc)
  Reach-in_order (next r (send_stop k m rest f d)) = simp (rw f at (Reach-in_order r), append_assoc)
  Reach-in_order (next r (batch_done zero f)) = rw f at (Reach-in_order r)
  Reach-in_order (next r (batch_done (suc k) f)) = rw f at (Reach-in_order r)
  Reach-in_order (next r (take before after m rest w c)) =
      simp (rw c at (Reach-in_order r), append_assoc)
  Reach-in_order (next r (finish before after m w)) = Reach-in_order r
  Reach-in_order (next r (panic before after m w)) = Reach-in_order r
  Reach-in_order (next r (exit before after w f c)) = Reach-in_order r
