-- ===== src/Consumer/Lifecycle.antt =====
-- The life of a task that is delivered again and again: how often it runs, and where it ends.
use Prim.Native.String.{String}
use forge_task_queue.Common.{
  ℕ, zero, suc, ◌≡◌, refl, sym, ap, ◌∙◌, true, false, Option, none, some, List, [], ◌∷◌, arith,
  ◌==◌,
}
use forge_task_queue.Common.Int.{ℤ, pos, negsuc, ◌+ℤ◌, ltb_ℤ, inc, IsInt64}
use forge_task_queue.Task.{Task, ok, err}
use forge_task_queue.Task.Json.{JsonText}
use forge_task_queue.Task.Codec.{TimeFormat, marshal}
use forge_task_queue.Task.Codec.RoundTrip.{decoded_payload, marshal-total, decoded-valid}
use forge_task_queue.Task.Store.{StreamMessage, text, returned}
use forge_task_queue.Calls.{Call, Log, Environment, recorded_metrics}
use forge_task_queue.Consumer.{Consumer, process_message}
use forge_task_queue.Consumer.Delivery.{recorded}

-- The message that an XADD of a task leaves in a stream.
abbrev pub message_with : String → JsonText → StreamMessage
message_with id j = record { id = id; values = ("payload", text j) ∷ [] }

-- The XADDs of a log that went through, the latest first: message id, stream and task.
abbrev pub saved : Log → List (String × String × Task)
saved [] = []
saved (Call.add s t (ok i) ∷ w) = (i, s, t) ∷ saved w
saved (_ ∷ w) = saved w

-- Where following a task ends: in a stream that the consumer does not read, with no copy saved, or
-- out of fuel.
pub data Fate : Type 0 where
  dead : String → Task → Fate
  settled : Fate
  out_of_fuel : Fate

module _ ⦃times : TimeFormat⦄ (env : Environment) (c : Consumer Log) (worker : ℕ) where
  -- One delivery, from an empty log.
  deliver : StreamMessage → Log
  deliver msg = (process_message recorded_metrics (recorded env c) worker msg []).1

  -- Deliver a message, and then the message that the delivery re-queued, and so on: the number of
  -- deliveries, and the end.
  pub follow : ℕ → StreamMessage → ℕ × Fate
  follow zero msg = (0, out_of_fuel)
  follow (suc fuel) msg = elim (saved (deliver msg)) [
    | [] ↦ (1, settled)
    | (i, s, t) ∷ _ ↦ elim (s == c.stream) [
      | false ↦ (1, dead s t)
      | true ↦ elim (marshal t) [
        | err _ ↦ (1, settled)
        | ok j ↦ (suc (follow fuel (message_with i j)).0, (follow fuel (message_with i j)).1)
      ]
    ]
  ]

-- An environment in which every run of a task fails, with a message that may depend on the task and
-- its retries so far, and leaves the task as it was, and every XADD goes through, with ids given by `ids`.
abbrev pub failing : Environment → (Task → String) → (String → Task → String) → Environment
failing env message ids = record env {
  process = λ w d t. returned t (some (message t));
  add = λ w s t. ok (ids s t);
}

-- With `k + 1` retries left an attempt is followed by another, with `k` left.
pub retries_left :
    (k : ℕ) (a b : ℤ)
    → a +ℤ pos (suc k) ≡ b
    → IsInt64 a
    → IsInt64 b
    → (ltb_ℤ a b ≡ true) × (inc a +ℤ pos k ≡ b) × IsInt64 (inc a)
unfolding ◌+ℤ◌ inc
retries_left k (pos n) b h s u = ground arith
retries_left k (negsuc zero) b h s u = ground arith
retries_left k (negsuc (suc n)) b h s u = ground arith

pub none_left : (a b : ℤ) → a +ℤ pos 0 ≡ b → (ltb_ℤ a b ≡ false) × (a ≡ b)
unfolding ◌+ℤ◌
none_left (pos n) b h = ground arith
none_left (negsuc n) b h = ground arith

pub decoded_again : (p : Option JsonText) → decoded_payload (decoded_payload p) ≡ decoded_payload p
decoded_again none = refl
decoded_again (some j) = refl

-- What can be encoded can be encoded again after a delivery.
pub marshal-again :
    ⦃times : TimeFormat⦄ (t u : Task) (j : JsonText)
    → marshal t ≡ ok j
    → u.payload ≡ decoded_payload t.payload
    → u.created_at ≡ t.created_at
    → (j' : JsonText) × (marshal u ≡ ok j')
marshal-again ⦃times⦄ t u j e same_payload same_time =
    let (valid_payload, in_range) = (marshal-total t).0 (j, e) in
    (marshal-total u).1 (
      (λ s h. decoded-valid t.payload valid_payload s (sym same_payload ∙ h)),
      (λ h. in_range (sym (ap times.write same_time) ∙ h)),
    )

module _ ⦃times : TimeFormat⦄ (env : Environment) (c : Consumer Log) (worker : ℕ) (message : String)
    (ids : String → Task → String) where
  abbrev fails : Environment
  fails = failing env (λ t. message) ids
