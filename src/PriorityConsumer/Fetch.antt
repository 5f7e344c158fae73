-- ===== src/PriorityConsumer/Fetch.antt =====
-- consumer/priority_consumer.go: `Start` up to the goroutines, and `fetchTasks`.
pub mod Rounds
use Prim.Native.String.{String}
use forge_task_queue.Common.{
  ℕ, zero, suc, Bool, true, false, ◌||◌, Option, none, some, List, [], ◌∷◌, Action, pure, ◌>>=◌,
  ◌>>◌, if◌then◌else◌,
}
use forge_task_queue.Task.{Result, ok, err}
use forge_task_queue.Task.Store.{StreamMessage, duration, Dispatch}
use forge_task_queue.Producer.{streams}
use forge_task_queue.PriorityConsumer.{PriorityConsumer}

-- Where a round over the streams ends: the fetcher returns, or it has searched all streams and
-- knows whether a message was found.
pub data Round : Type 0 where
  stopped : Round
  searched : Bool → Round

module _ {W : Type 0} (pc : PriorityConsumer W) where
  -- The loop of `Start` that creates the groups; the error of one ends it. The message that the
  -- error is wrapped in is left out.
  unfoldable pub create_groups : List String → Action W (Result (Unit {0}))
  create_groups [] w = (ok tt, w)
  create_groups (s ∷ rest) w =
      let (r, w) = pc.store.create_group s pc.group w in
      let more = create_groups rest w in elim r [ err e ↦ (err e, w) | ok _ ↦ more ]

  unfoldable pub start_groups : Action W (Result (Unit {0}))
  start_groups = create_groups (streams pc.base_stream)

  module _ (ctx : Dispatch W) where
    -- The loop over the messages of a stream, which sets `foundAny`.
    unfoldable pub send_all : List StreamMessage → Bool → Action W Round
    send_all [] found w = (searched found, w)
    send_all (m ∷ rest) found w =
        let (sent, w) = ctx.send m w in
        let more = send_all rest true w in if sent then more else (stopped, w)

    -- The loop over the streams.
    unfoldable pub search : List String → Bool → Action W Round
    search [] found w = (searched found, w)
    search (s ∷ rest) found w =
        let (r, w) =
          pc.store.read_group s pc.group pc.consumer pc.fetch_batch_size (duration pc.block_timeout)
            w in
        elim r [
          | err _ ↦ let (over, w) = ctx.done w in if over then (stopped, w) else search rest found w
          | ok messages ↦
              let (round, w) = send_all messages found w in
              elim round [ stopped ↦ (stopped, w) | searched now ↦ search rest now w ]
        ]

    -- One turn of the endless loop: whether there is another.
    unfoldable pub turn : Action W Bool
    turn w =
        let (over, w) = ctx.done w in
        if over
        then (false, w)
        else (let (round, w) = search (streams pc.base_stream) false w in
            elim round [
              | stopped ↦ (false, w)
              | searched true ↦ (true, w)
              | searched false ↦ let (u, w) = ctx.pause w in (true, w)
            ])
