-- ===== src/Consumer/Keys.antt =====
-- Idempotency keys in the consumer: how often the task of a key is run.
use Prim.Native.String.{String}
use forge_task_queue.Common.{
  ℕ, ◌≡◌, ◌≢◌, Bool, true, false, not, ◌||◌, none, some, [], ◌∷◌, ◌++◌, arith, ◌==◌, eq_iff,
  eq_refl,
}
use forge_task_queue.Task.{Task, ok}
use forge_task_queue.Task.Json.{JsonText}
use forge_task_queue.Task.Codec.{TimeFormat, unmarshal}
use forge_task_queue.Task.Store.{StreamMessage, payload_of}
use forge_task_queue.Calls.{
  Call, Log, Environment, recorded_metrics, count_calls, acks, is_process, adds,
}
use forge_task_queue.Consumer.{Consumer, finished, process_message}
use forge_task_queue.Consumer.Delivery.{recorded}

-- Whether a key was checked in a log.
abbrev pub was_checked : String → Log → Bool
was_checked key [] = false
was_checked key (Call.check k _ ∷ w) = k == key || was_checked key w
was_checked key (_ ∷ w) = was_checked key w

-- The checker replies as SET NX does while no key expires: a key is new exactly if it was not
-- checked before.
abbrev pub ChecksOnce : Environment → Type 0
ChecksOnce env = (w : Log) (key : String) → env.check w key ≡ ok (not (was_checked key w))

-- The message holds this task.
abbrev pub Carries : TimeFormat → StreamMessage → Task → Type 0
Carries times msg t =
    (p : JsonText) × (payload_of msg ≡ some p) × (unmarshal ⦃times = times⦄ p ≡ some t)

module _ ⦃times : TimeFormat⦄ (env : Environment) (c : Consumer Log) where
  checked_after :
      (id : ℕ) (msg : StreamMessage) (t : Task) (w : Log)
      → c.idempotency ≢ none
      → Carries times msg t
      → t.idempotency_key ≢ ""
      → was_checked t.idempotency_key (process_message recorded_metrics (recorded env c) id msg w).1
        ≡ true
  unfolding process_message
  checked_after id msg t w on (p, present, good) key =
      ground (arith, on, eq_iff t.idempotency_key "", eq_refl t.idempotency_key)

  skipped_when_checked :
      (id : ℕ) (msg : StreamMessage) (t : Task) (w : Log)
      → ChecksOnce env
      → c.idempotency ≢ none
      → Carries times msg t
      → t.idempotency_key ≢ ""
      → was_checked t.idempotency_key w ≡ true
      → let (exit, w') = process_message recorded_metrics (recorded env c) id msg w in
        (exit ≡ finished)
        × (count_calls is_process w' ≡ count_calls is_process w)
        × (adds w' ≡ adds w)
        × (acks w' ≡ (c.stream, c.group, msg.id) ∷ acks w)
  unfolding process_message
  skipped_when_checked id msg t w once on (p, present, good) key before =
      ground (arith, on, once w t.idempotency_key, eq_iff t.idempotency_key "")

  was_checked-append :
      (key : String) (between w : Log)
      → was_checked key w ≡ true
      → was_checked key (between ++ w) ≡ true
  was_checked-append key [] w h = h
  was_checked-append key (Call.check k _ ∷ between) w h =
      ground (arith, was_checked-append key between w h)
  was_checked-append key (_ ∷ between) w h = was_checked-append key between w h

  -- With the idempotency check on, and replying as SET NX does while no key expires, a message
  -- whose task has a key that an earlier message's task had is acknowledged, by one XACK of its own
  -- id on the consumer's stream and group, without a run and without an XADD: whatever was called
  -- before the earlier delivery and between the two, by this worker or others, and however the
  -- earlier run ended, also if the earlier message is the same task's first attempt, which failed
  -- and was re-queued.
  pub key_runs_once :
      (id id' : ℕ) (msg msg' : StreamMessage) (t t' : Task) (w between : Log)
      → ChecksOnce env
      → c.idempotency ≢ none
      → Carries times msg t
      → Carries times msg' t'
      → t.idempotency_key ≢ ""
      → t'.idempotency_key ≡ t.idempotency_key
      → let w1 = between ++ (process_message recorded_metrics (recorded env c) id msg w).1 in
        let (exit, w2) = process_message recorded_metrics (recorded env c) id' msg' w1 in
        (exit ≡ finished)
        × (count_calls is_process w2 ≡ count_calls is_process w1)
        × (adds w2 ≡ adds w1)
        × (acks w2 ≡ (c.stream, c.group, msg'.id) ∷ acks w1)
  key_runs_once id id' msg msg' t t' w between once on k k' key same =
      let w1 = between ++ (process_message recorded_metrics (recorded env c) id msg w).1 in
      skipped_when_checked id' msg' t' w1 once on k' (rw same key) (
        rw same
          (was_checked-append t.idempotency_key between _ (checked_after id msg t w on k key)))
