-- ===== src/RedisAdapter/Pending.antt =====
-- The pending messages of a group, given what Redis documents of XADD and XACK, and what a call of
-- the adapter leaves of them and of the streams.
use Prim.Native.String.{String}
use mathlib.Core.Path.{subst}
use mathlib.Core.List.Memᴰ
use mathlib.Core.List.{Memᴰ}
use forge_task_queue.Common.{
  ◌≡◌, ◌≢◌, sym, Bool, true, inl, inr, List, Action, ◌==◌, eq_iff, Bool-cases, arith,
}
use forge_task_queue.Task.{Task, Result-cases}
use forge_task_queue.Task.Codec.{TimeFormat, marshal}
use forge_task_queue.Task.Store.{Value}
use forge_task_queue.RedisAdapter.Client.{RedisClient, XMessage}
use forge_task_queue.RedisAdapter.Streams.{Streams, add_encoded, add_refused}
use forge_task_queue.RedisAdapter.{add, ack}

-- The messages that a group was handed and did not acknowledge. XACK of an id touches no other id of
-- the group and no stream; XADD touches no group.
pub record Pending {W : Type 0} (client : RedisClient W) (redis : Streams client) : Type 0 where
  -- stream, group, message id
  pub pending : W → String → String → String → Bool
  pub xack_others :
      (s g i j : String) (w : W)
      → j ≢ i
      → pending w s g j ≡ true
      → pending (client.xack s g i w).1 s g j ≡ true
  pub xack_entries :
      (s g i : String) (w : W) (o : String)
      → redis.entries (client.xack s g i w).1 o ≡ redis.entries w o
  pub xadd_pending :
      (t : String) (fields : List (String × Value)) (w : W) (s g j : String)
      → pending w s g j ≡ true
      → pending (client.xadd t fields w).1 s g j ≡ true

-- Every message is spared.
abbrev pub Everyone : String → Type 0
Everyone j = Unit

module _ {W : Type 0} {client : RedisClient W} {redis : Streams client}
    (marks : Pending client redis) (stream group : String) where
  -- From one world to a later one no message leaves a stream, and of the messages pending in this
  -- group those spared stay pending.
  pub record Keeps (spared : String → Type 0) (w u : W) : Type 0 where
    pub kept : (s : String) (x : XMessage) → Memᴰ x (redis.entries w s) → Memᴰ x (redis.entries u s)
    pub held :
        (j : String)
        → spared j
        → marks.pending w stream group j ≡ true
        → marks.pending u stream group j ≡ true

  pub Keeps-refl : {spared : String → Type 0} (w : W) → Keeps spared w w
  Keeps-refl w = record { kept = λ s x m. m; held = λ j a p. p }

  pub Keeps-trans :
      {spared : String → Type 0} {w u v : W}
      → Keeps spared w u
      → Keeps spared u v
      → Keeps spared w v
  Keeps-trans k l = record {
    kept = λ s x m. l.kept s x (k.kept s x m);
    held = λ j a p. l.held j a (k.held j a p);
  }

  pub Keeps-fewer :
      {spared fewer : String → Type 0} {w u : W}
      → ((j : String) → fewer j → spared j)
      → Keeps spared w u
      → Keeps fewer w u
  Keeps-fewer f k = record { kept = λ s x m. k.kept s x m; held = λ j a p. k.held j (f j a) p }

  -- An action that does so from any world.
  abbrev pub Leaves : (String → Type 0) → {A : Type 0} → Action W A → Type 0
  Leaves spared a = (w : W) → Keeps spared w (a w).1

  xadd-Leaves :
      (s : String) (fields : List (String × Value)) → Leaves Everyone (client.xadd s fields)
  xadd-Leaves s fields w = record {
    kept = λ o x m. elim (Result-cases (client.xadd s fields w).0) [
      | inl (e, failed) ↦ redis.xadd_err s fields e w failed o x m
      | inr (i, added) ↦
          let (here, others) = redis.xadd_ok s fields i w added in
          elim (Bool-cases (o == s)) [
            | inl same ↦
                let e : o ≡ s = (eq_iff o s).0 same in
                subst (λ v. Memᴰ x (redis.entries (client.xadd s fields w).1 v)) (sym e)
                  (subst (Memᴰ x) (sym here)
                    (Memᴰ.append_left _ (subst (λ v. Memᴰ x (redis.entries w v)) e m)))
            | inr differ ↦
                subst (Memᴰ x) (sym (others o (λ e. ground (arith, differ, eq_iff o s)))) m
          ]
    ];
    held = λ j a p. marks.xadd_pending s fields w stream group j p;
  }

  -- An XADD of a task, whatever it replies.
  pub add-Leaves : ⦃times : TimeFormat⦄ (s : String) (t : Task) → Leaves Everyone (add client s t)
  add-Leaves s t w = elim (Result-cases (marshal t)) [
    | inl (e, bad) ↦ rw (add_refused client redis s t e w bad) (Keeps-refl w)
    | inr (j, good) ↦ rw (add_encoded client redis s t j w good) (xadd-Leaves s _ w)
  ]

  -- An XACK spares the other messages.
  pub ack-Leaves :
      ⦃times : TimeFormat⦄ (i : String) → Leaves (λ j. j ≢ i) (ack client stream group i)
  unfolding ack
  ack-Leaves i w = record {
    kept = λ s x m. subst (Memᴰ x) (sym (marks.xack_entries stream group i w s)) m;
    held = λ j a p. marks.xack_others stream group i j w a p;
  }
