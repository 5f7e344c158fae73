-- ===== src/PriorityConsumer/Fetch/Rounds.antt =====
-- What the fetcher of the priority consumer reads and sends, in every environment.
use Prim.Native.String.{String, ◌++◌}
use forge_task_queue.Common.{
  ℕ, suc, ◌≡◌, refl, ap, ◌∙◌, ◌⊎◌, not, Bool, true, false, List, [], ◌∷◌, arith, if◌then◌else◌,
  Bool-cases, inl, inr,
}
use forge_task_queue.Task.{Result, ok, err, Result-cases}
use forge_task_queue.Task.Store.{StreamMessage, duration}
use forge_task_queue.Calls.{Call, Log, Environment, recorded_dispatch, count_calls}
use forge_task_queue.Producer.{streams}
use forge_task_queue.PriorityConsumer.{PriorityConsumer}
use forge_task_queue.PriorityConsumer.Delivery.{recorded}
use forge_task_queue.PriorityConsumer.Fetch.{
  Round, stopped, searched, create_groups, start_groups, send_all, search, turn,
}

-- The first list, its last element first, before the second.
abbrev pub reverse_onto : {A : Type 0} → List A → List A → List A
reverse_onto [] ys = ys
reverse_onto (x ∷ xs) ys = reverse_onto xs (x ∷ ys)

-- The streams that were read, the messages received and those sent to the workers, the latest first.
abbrev pub reads : Log → List String
reads [] = []
reads (Call.read_group s _ _ _ _ _ ∷ w) = s ∷ reads w
reads (_ ∷ w) = reads w

abbrev pub received : Log → List StreamMessage
received [] = []
received (Call.read_group _ _ _ _ _ (ok ms) ∷ w) = reverse_onto ms (received w)
received (_ ∷ w) = received w

abbrev pub sent : Log → List StreamMessage
sent [] = []
sent (Call.send m true ∷ w) = m ∷ sent w
sent (_ ∷ w) = sent w

abbrev pub is_pause : Call → Bool
is_pause Call.pause = true
is_pause _ = false

abbrev pub is_empty : List StreamMessage → Bool
is_empty [] = true
is_empty (_ ∷ _) = false

-- The groups asked for, the latest first, with the replies.
abbrev pub groups : Log → List (String × Result (Unit {0}))
groups [] = []
groups (Call.create_group s _ r ∷ w) = (s, r) ∷ groups w
groups (_ ∷ w) = groups w

abbrev pub last_reply : List (String × Result (Unit {0})) → Result (Unit {0})
last_reply [] = ok tt
last_reply ((s, r) ∷ _) = r

-- The messages sent are the first of those received, in order.
abbrev pub SentInOrder : Log → Type 0
SentInOrder w = (unsent : List StreamMessage) × (received w ≡ reverse_onto unsent (sent w))

-- What holds after a round that ends so: if all streams were searched, then every message received
-- was sent, and the flag says whether there was one.
abbrev pub After : Round → Log → Type 0
After stopped w = SentInOrder w
After (searched now) w = (received w ≡ sent w) × (now ≡ not (is_empty (sent w)))

-- If all streams were searched, these are the streams that were read.
abbrev AllRead : List String → Round → Log → Type 0
AllRead ss stopped w = Unit
AllRead ss (searched _) w = reads w ≡ ss

Round-cases : (r : Round) → (r ≡ stopped) ⊎ ((now : Bool) × (r ≡ searched now))
Round-cases stopped = inl refl
Round-cases (searched now) = inr (now, refl)

-- The pauses of a turn, from those of its search.
pause_due :
    (now : Bool) {rs ss : List StreamMessage} {n : ℕ}
    → rs ≡ ss
    → now ≡ not (is_empty ss)
    → n ≡ 0
    → (if now then n else suc n) ≡ (if is_empty rs then 1 else 0)
pause_due now h flag zero = ground arith

module _ (env : Environment) (pc : PriorityConsumer Log) where
  abbrev pub one_search : List String → Bool → Log → Round × Log
  one_search = search (recorded env pc) (recorded_dispatch env)

  send_all_lem :
      (ms : List StreamMessage) (found : Bool) (w : Log)
      → received w ≡ reverse_onto ms (sent w)
      → found ≡ not (is_empty (sent w))
      → let (round, w') = send_all (recorded env pc) (recorded_dispatch env) ms found w in
        After round w' × (reads w' ≡ reads w) × (count_calls is_pause w' ≡ count_calls is_pause w)
  unfolding send_all
  send_all_lem [] found w h hf = ((h, hf), refl, refl)
  send_all_lem (m ∷ ms) found w h hf = elim (Bool-cases (env.send w m)) [
    | inl taken ↦ rw taken (send_all_lem ms true (Call.send m true ∷ w) h refl)
    | inr over ↦ rw over ((m ∷ ms, h), refl, refl)
  ]

  search_none :
      (found : Bool) (w : Log)
      → received w ≡ sent w
      → found ≡ not (is_empty (sent w))
      → let (round, w') = one_search [] found w in
        After round w'
        × AllRead (reads w) round w'
        × (count_calls is_pause w' ≡ count_calls is_pause w)
  unfolding search
  search_none found w h hf = ((h, hf), refl, refl)

  abbrev send_batch : List StreamMessage → Bool → Log → Round × Log
  send_batch = send_all (recorded env pc) (recorded_dispatch env)

  abbrev reply : String → Log → Result (List StreamMessage)
  reply s w =
      env.read_group w s pc.group pc.consumer pc.fetch_batch_size (duration pc.block_timeout)

  abbrev read_call : String → Result (List StreamMessage) → Call
  read_call s r =
      Call.read_group s pc.group pc.consumer pc.fetch_batch_size (duration pc.block_timeout) r

  -- One stream of a round.
  search_step :
      (s : String) (ss : List String) (found : Bool) (w : Log)
      → one_search (s ∷ ss) found w ≡ elim (reply s w) [
        | err e ↦
            let w1 : Log = read_call s (reply s w) ∷ w in
            if env.done w1
            then (stopped, Call.done (env.done w1) ∷ w1)
            else one_search ss found (Call.done (env.done w1) ∷ w1)
        | ok ms ↦
            let w1 : Log = read_call s (reply s w) ∷ w in
            elim (send_batch ms found w1).0 [
              | stopped ↦ (stopped, (send_batch ms found w1).1)
              | searched now ↦ one_search ss now (send_batch ms found w1).1
            ]
      ]
  unfolding search
  search_step s ss found w = refl

  search_lem :
      (ss : List String) (found : Bool) (w : Log)
      → received w ≡ sent w
      → found ≡ not (is_empty (sent w))
      → let (round, w') = one_search ss found w in
        After round w'
        × AllRead (reverse_onto ss (reads w)) round w'
        × (count_calls is_pause w' ≡ count_calls is_pause w)
  search_lem [] found w h hf = search_none found w h hf
  search_lem (s ∷ ss) found w h hf = elim (Result-cases (reply s w)) [
    | inl (e, bad) ↦
        let w1 : Log = read_call s (err e) ∷ w in
        elim (Bool-cases (env.done w1)) [
          | inl over ↦ rw (search_step, bad, bad, over) (([], h), tt, refl)
          | inr on ↦
              rw (search_step, bad, bad, on) (search_lem ss found (Call.done false ∷ w1) h hf)
        ]
    | inr (ms, good) ↦
        let w1 : Log = read_call s (ok ms) ∷ w in
        let (after, same, pauses) = send_all_lem ms found w1 (ap (reverse_onto ms) h) hf in
        elim (Round-cases (send_batch ms found w1).0) [
          | inl halt ↦ rw (search_step, good, good, halt, good) (rw halt at after, tt, pauses)
          | inr (now, through) ↦
              let (even, flag) = rw through at after in
              let (later, rest, more) = search_lem ss now (send_batch ms found w1).1 even flag in
              rw (search_step, good, good, through, good) (later, rw same at rest, more ∙ pauses)
        ]
  ]

  abbrev target : List String
  target = (pc.base_stream ++ "_high") ∷ pc.base_stream ∷ (pc.base_stream ++ "_low") ∷ []

  turn_step : turn (recorded env pc) (recorded_dispatch env) [] ≡ (
      if env.done []
      then (false, Call.done (env.done []) ∷ [])
      else (let w0 : Log = Call.done (env.done []) ∷ [] in
          elim (one_search target false w0).0 [
            | stopped ↦ (false, (one_search target false w0).1)
            | searched true ↦ (true, (one_search target false w0).1)
            | searched false ↦ (true, Call.pause ∷ (one_search target false w0).1)
          ]))
  unfolding turn streams
  turn_step = refl

  -- One turn of the priority fetcher's loop that is not the last reads the high stream, the base
  -- stream and the low stream, in this order and once each, sends the workers every message that it
  -- received, in order, and pauses exactly if it received none. In every turn the messages sent are
  -- the first of those received, in order.
  pub turn_lem :
      let (again, w) = turn (recorded env pc) (recorded_dispatch env) [] in
      SentInOrder w
      × (again ≡ true
          → (reads w
              ≡ (pc.base_stream ++ "_low") ∷ pc.base_stream ∷ (pc.base_stream ++ "_high") ∷ [])
            × (received w ≡ sent w)
            × (count_calls is_pause w ≡ (if is_empty (received w) then 1 else 0)))
  turn_lem =
      let w0 : Log = Call.done false ∷ [] in
      let (after, read, pauses) = search_lem target false w0 refl refl in
      elim (Bool-cases (env.done [])) [
        | inl over ↦ rw (turn_step, over) (([], refl), λ e. cc)
        | inr on ↦ elim (Round-cases (one_search target false w0).0) [
          | inl halt ↦ rw (turn_step, on, halt, on) (rw halt at after, λ e. cc)
          | inr (true, through) ↦
              let (even, flag) = rw through at after in
              rw (turn_step, on, through, on)
                (([], even), λ e. (rw through at read, even, pause_due true even flag pauses))
          | inr (false, through) ↦
              let (even, flag) = rw through at after in
              rw (turn_step, on, through, on)
                (([], even), λ e. (rw through at read, even, pause_due false even flag pauses))
        ]
      ]

  -- The start of the priority consumer asks for the groups of the high stream, the base stream and
  -- the low stream, in this order; its result is the reply to the last request, and it succeeds
  -- only after all three were granted.
  start_groups_lem :
      let (r, w) = start_groups (recorded env pc) [] in
      (r ≡ last_reply (groups w))
      × (r ≡ ok tt
          → groups w
            ≡ (pc.base_stream ++ "_low", ok tt)
              ∷ (pc.base_stream, ok tt)
              ∷ (pc.base_stream ++ "_high", ok tt)
              ∷ [])
  unfolding start_groups create_groups streams
  start_groups_lem = ground arith
