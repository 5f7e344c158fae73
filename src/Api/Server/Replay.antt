-- ===== src/Api/Server/Replay.antt =====
-- Replaying the dead-letter stream, in every environment.
use Prim.Native.String.{String, ◌++◌}
use mathlib.Core.List.{Memᴰ}
use forge_task_queue.Common.{
  ap, ◌∙◌, ℕ, suc, ◌+◌, ◌≡◌, refl, ◌⊎◌, Bool, true, false, Option, none, some, List, [], ◌∷◌,
  eq_iff, arith, Option-cases, inl, inr, if◌then◌else◌,
}
use forge_task_queue.Common.Int.{pos}
use forge_task_queue.Task.{Task, Result, ok}
use forge_task_queue.Task.Codec.{TimeFormat, unmarshal}
use forge_task_queue.Task.Store.{StreamMessage, payload_of}
use forge_task_queue.Calls.{
  Call, Log, Environment, recorded_store, recorded_publisher, count_calls, is_saved, adds,
}
use forge_task_queue.Api.Http.{empty_response, Request, Served, served, respond, json, get_header}
use forge_task_queue.Api.Server.{
  Server, replay_body, replay_task, replay_message, replay_messages, replay_dlq, handle_retry_dlq,
}

abbrev pub recorded : Environment → Server Log → Server Log
recorded env s = record s { store = recorded_store env; publisher = recorded_publisher env }

abbrev pub is_delete : Call → Bool
is_delete (Call.delete _ _ _) = true
is_delete _ = false

-- The task that a message of the dead-letter stream holds, with no retries counted.
abbrev pub fresh_task : TimeFormat → StreamMessage → Option Task
fresh_task times msg = elim (payload_of msg) [
  | none ↦ none
  | some p ↦ elim (unmarshal ⦃times = times⦄ p) [
    | none ↦ none
    | some t ↦ some (record t { current_retries = pos 0 })
  ]
]

-- A listed message with these ids that holds this task.
pub Holds : TimeFormat → List StreamMessage → List String → Task → Type 0
Holds times messages ids t =
    (m : StreamMessage) × Memᴰ m messages × (ids ≡ m.id ∷ []) × (fresh_task times m ≡ some t)

-- In a log, the latest call first: an XADD that goes through puts on the stream the task of a listed
-- message, with no retries counted, and the next call is the XDEL of that message from the
-- dead-letter stream; there is no other XDEL.
abbrev pub IsReplay : TimeFormat → Server Log → List StreamMessage → Log → Type 0
IsReplay times s messages [] = Unit
IsReplay times s messages (Call.delete from ids _ ∷ Call.add to t (ok _) ∷ w) =
    (from ≡ s.dlq_stream)
    × (to ≡ s.stream)
    × Holds times messages ids t
    × IsReplay times s messages w
IsReplay times s messages (Call.delete _ _ _ ∷ _) = ⊥
IsReplay times s messages (Call.add to t (ok _) ∷ _) = ⊥
IsReplay times s messages (_ ∷ w) = IsReplay times s messages w

-- The tasks of the messages onto those of a list, the last message first.
abbrev pub fresh_tasks :
    TimeFormat → String → List StreamMessage → List (String × Task) → List (String × Task)
fresh_tasks times stream [] before = before
fresh_tasks times stream (msg ∷ rest) before =
    fresh_tasks times stream rest
      (elim (fresh_task times msg) [ none ↦ before | some t ↦ (stream, t) ∷ before ])

module _ ⦃times : TimeFormat⦄ (env : Environment) (s : Server Log) where
  replay_task-IsReplay :
      (messages : List StreamMessage) (msg : StreamMessage) (t : Task) (w : Log)
      → Holds times messages (msg.id ∷ []) t
      → IsReplay times s messages w
      → IsReplay times s messages (replay_task (recorded env s) msg t w).1
  unfolding replay_task
  replay_task-IsReplay messages msg t w k h = ground arith

  replay_message-IsReplay :
      (messages : List StreamMessage) (msg : StreamMessage) (w : Log)
      → Memᴰ msg messages
      → IsReplay times s messages w
      → IsReplay times s messages (replay_message (recorded env s) msg w).1
  unfolding replay_message Holds
  replay_message-IsReplay messages msg w m h = elim (Option-cases (payload_of msg)) [
    | inl absent ↦ rw (absent, replay_message) h
    | inr (p, present) ↦ elim (Option-cases (unmarshal p)) [
      | inl bad ↦ rw (present, replay_message, bad) h
      | inr (t, good) ↦
          rw (present, replay_message, good)
            (replay_task-IsReplay messages msg (record t { current_retries = pos 0 }) w
              (msg, m, refl, rw (present, fresh_task, good)) h)
    ]
  ]

  replay_messages-IsReplay :
      (messages rest : List StreamMessage) (n : ℕ) (w : Log)
      → ((m : StreamMessage) → Memᴰ m rest → Memᴰ m messages)
      → IsReplay times s messages w
      → IsReplay times s messages (replay_messages (recorded env s) rest n w).1
  unfolding replay_messages
  replay_messages-IsReplay messages [] n w sub h = h
  replay_messages-IsReplay messages (msg ∷ rest) n w sub h =
      replay_messages-IsReplay messages rest _ (replay_message (recorded env s) msg w).1
        (λ m k. sub m (Memᴰ.tail k))
        (replay_message-IsReplay messages msg w (sub msg (Memᴰ.head refl)) h)

  replay_message-adds :
      (msg : StreamMessage) (w : Log)
      → adds (replay_message (recorded env s) msg w).1
        ≡ (elim (fresh_task times msg) [ none ↦ adds w | some t ↦ (s.stream, t) ∷ adds w ])
  unfolding replay_message
  replay_message-adds msg w = ground arith

  replay_message-count :
      (msg : StreamMessage) (w : Log)
      → count_calls is_saved (replay_message (recorded env s) msg w).1
        ≡ (if (replay_message (recorded env s) msg w).0 then 1 else 0) + count_calls is_saved w
  unfolding replay_message
  replay_message-count msg w = ground arith

  replay_messages-count :
      (rest : List StreamMessage) (n : ℕ) (w : Log)
      → count_calls is_saved (replay_messages (recorded env s) rest n w).1 + n
        ≡ (replay_messages (recorded env s) rest n w).0 + count_calls is_saved w
  unfolding replay_messages
  replay_messages-count [] n w = omega arith
  replay_messages-count (msg ∷ rest) n w = ground (
    arith,
    replay_message-count msg w,
    replay_messages-count rest (suc n) (replay_message (recorded env s) msg w).1,
    replay_messages-count rest n (replay_message (recorded env s) msg w).1,
  )

  replay_messages-adds :
      (rest : List StreamMessage) (n : ℕ) (w : Log)
      → adds (replay_messages (recorded env s) rest n w).1
        ≡ fresh_tasks times s.stream rest (adds w)
  unfolding replay_messages
  replay_messages-adds [] n w = refl
  replay_messages-adds (msg ∷ rest) n w =
      replay_messages-adds rest _ (replay_message (recorded env s) msg w).1
      ∙ ap (fresh_tasks times s.stream rest) (replay_message-adds msg w)

-- Whether a request may replay: it is a POST, and carries the API key if there is one.
abbrev pub MayReplay : Server Log → Request → Type 0
MayReplay s r =
    (r.method ≡ "POST")
    × ((s.api_key ≡ "") ⊎ (get_header r "Authorization" ≡ "Bearer " ++ s.api_key))

abbrev pub status_of : Served → Option ℕ
status_of (served resp) = resp.status
status_of (Served.crashed resp _) = resp.status

module _ ⦃times : TimeFormat⦄ (env : Environment) (s : Server Log) (r : Request) where
  abbrev pub answer : Served × Log
  answer = handle_retry_dlq (recorded env s) r empty_response []

  abbrev listed : Result (List StreamMessage)
  listed = env.range [] s.dlq_stream "-" "+" (pos 0)

  -- A request that may not replay is refused with status 401 or 405, and reaches no service.
  replay_refused :
      ¬ (MayReplay s r)
      → (answer.1 ≡ []) × ((status_of answer.0 ≡ some 401) ⊎ (status_of answer.0 ≡ some 405))
  unfolding handle_retry_dlq respond
  replay_refused h = ground (
    arith,
    h,
    eq_iff r.method "POST",
    eq_iff s.api_key "",
    eq_iff (get_header r "Authorization") ("Bearer " ++ s.api_key),
  )

  let_in : MayReplay s r → answer ≡ replay_dlq (recorded env s) empty_response []
  unfolding handle_retry_dlq
  let_in h = ground (
    arith,
    eq_iff r.method "POST",
    eq_iff s.api_key "",
    eq_iff (get_header r "Authorization") ("Bearer " ++ s.api_key),
  )

  replayed :
      (messages : List StreamMessage)
      → listed ≡ ok messages
      → let a = replay_dlq (recorded env s) empty_response [] in
        IsReplay times s messages a.1
        × (adds a.1 ≡ fresh_tasks times s.stream messages [])
        × (a.0
            ≡ served (respond 200 (json (replay_body (count_calls is_saved a.1))) empty_response))
  unfolding replay_dlq
  replayed messages e =
      let w : Log = Call.range s.dlq_stream "-" "+" (pos 0) (ok messages) ∷ [] in
      let counted : (replay_messages (recorded env s) messages 0 w).0
          ≡ count_calls is_saved (replay_messages (recorded env s) messages 0 w).1 =
        omega (arith, replay_messages-count env s messages 0 w) in
      rw e (
        replay_messages-IsReplay env s messages messages 0 w (λ m k. k) tt,
        replay_messages-adds env s messages 0 w,
        ap (λ n. served (respond 200 (json (replay_body n)) empty_response)) counted,
      )

  -- A request that may replay, when the dead-letter stream is read: every message that holds a task
  -- has its task added to the stream once, in order, with no retries counted; a message is deleted
  -- exactly if the XADD of its own task went through, in the next call; and the answer counts the
  -- XADDs that went through.
  pub replay_lem :
      (messages : List StreamMessage)
      → MayReplay s r
      → listed ≡ ok messages
      → IsReplay times s messages answer.1
        × (adds answer.1 ≡ fresh_tasks times s.stream messages [])
        × (answer.0
            ≡ served
                (respond 200 (json (replay_body (count_calls is_saved answer.1))) empty_response))
  unfolding handle_retry_dlq
  replay_lem messages h e = rw (let_in h) (replayed messages e)
