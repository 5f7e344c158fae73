-- ===== src/Consumer/Durability/Work.antt =====
-- What becomes of all messages that a worker receives, over the Redis adapter.
use Prim.Native.String.{String}
use forge_task_queue.Common.{
  ℕ, ◌≡◌, ◌≢◌, refl, sym, true, List, [], ◌∷◌, All, All-map, All-both, arith,
}
use forge_task_queue.Task.Codec.{TimeFormat, IsTimeFormat}
use forge_task_queue.Metrics.{Metrics}
use forge_task_queue.RedisAdapter.{message_of, copy_messages}
use forge_task_queue.RedisAdapter.Client.{RedisClient, XMessage}
use forge_task_queue.RedisAdapter.Streams.{Streams}
use forge_task_queue.RedisAdapter.Groups.{ids, Distinct}
use forge_task_queue.RedisAdapter.Pending.{
  Pending, Keeps, Keeps-refl, Keeps-trans, Keeps-fewer, Leaves,
}
use forge_task_queue.Consumer.{Consumer, Exit, finished, escaped, process_message, worker}
use forge_task_queue.Task.Store.{StreamMessage}
use forge_task_queue.Consumer.Durability.{on, IsConsiderate, process_message-Spares}
use forge_task_queue.Consumer.Durability.Fates.{waits, Fates, Fate-kept}
use forge_task_queue.Consumer.Durability.Fates.Delivery.{delivery_fate}

module _ {W : Type 0} ⦃times : TimeFormat⦄ (client : RedisClient W) (metrics : Metrics W)
    (c : Consumer W) where
  worker_next :
      (id : ℕ) (msg : StreamMessage) (rest : List StreamMessage) (w u : W)
      → process_message metrics (on client c) id msg w ≡ (finished, u)
      → worker metrics (on client c) id (msg ∷ rest) w ≡ worker metrics (on client c) id rest u
  unfolding worker
  worker_next id msg rest w u same = ground (arith, same)

  worker_dies :
      (id : ℕ) (msg : StreamMessage) (rest : List StreamMessage) (message : String) (w u : W)
      → process_message metrics (on client c) id msg w ≡ (escaped message, u)
      → (worker metrics (on client c) id (msg ∷ rest) w).1 ≡ (metrics.worker_panics u).1
  unfolding worker
  worker_dies id msg rest message w u same = ground (arith, same)

  -- What holds at the end of a worker that goes on after a message, and of one that recovers from a
  -- panic, holds after the message.
  worker_cases :
      (P : W → Type 0) (id : ℕ) (m : XMessage) (ms : List XMessage) (w u : W) (e : Exit)
      → process_message metrics (on client c) id (message_of m) w ≡ (e, u)
      → P (worker metrics (on client c) id (copy_messages ms) u).1
      → P (metrics.worker_panics u).1
      → P (worker metrics (on client c) id (copy_messages (m ∷ ms)) w).1
  unfolding copy_messages
  worker_cases P id m ms w u finished same on_it dead =
      rw (worker_next id (message_of m) (copy_messages ms) w u same) on_it
  worker_cases P id m ms w u (escaped message) same on_it dead =
      rw (worker_dies id (message_of m) (copy_messages ms) message w u same) dead

module _ {W : Type 0} ⦃times : TimeFormat⦄ {client : RedisClient W} {redis : Streams client}
    (marks : Pending client redis) (metrics : Metrics W) (c : Consumer W) {mine : String → Type 0}
    (calm : IsConsiderate marks metrics c mine) (law : IsTimeFormat times) where
  -- Of `mine` a worker, with what runs during its calls, acknowledges only what it receives, and it
  -- takes nothing from a stream: what another worker with other messages asks of it.
  pub worker-Spares :
      (id : ℕ) (ms : List XMessage)
      → Leaves marks c.stream c.group
          (λ j. mine j × All (λ i. j ≢ i) (ids (copy_messages ms)))
          (worker metrics (on client c) id (copy_messages ms))
  unfolding worker copy_messages
  worker-Spares id [] w = Keeps-refl marks c.stream c.group w
  worker-Spares id (m ∷ ms) w =
      let now : Keeps marks c.stream c.group
          (λ j. mine j × All (λ i. j ≢ i) (ids (copy_messages (m ∷ ms)))) w
          (process_message metrics (on client c) id (message_of m) w).1 =
        Keeps-fewer marks c.stream c.group (λ j a. (a.0, a.1.0))
          (process_message-Spares marks metrics c calm id m w) in
      worker_cases client metrics c
        (Keeps marks c.stream c.group
          (λ j. mine j × All (λ i. j ≢ i) (ids (copy_messages (m ∷ ms)))) w)
        id m ms w _ _ refl
        (Keeps-trans marks c.stream c.group now
          (Keeps-fewer marks c.stream c.group (λ j a. (a.0, a.1.1)) (worker-Spares id ms _)))
        (Keeps-trans marks c.stream c.group now
          (Keeps-fewer marks c.stream c.group (λ j a. a.0) (calm.counts_panic _)))

  -- Pending messages that are spared stay pending.
  still_held :
      (spared : String → Type 0) (is : List String) (w u : W)
      → Keeps marks c.stream c.group spared w u
      → All spared is
      → All (λ j. marks.pending w c.stream c.group j ≡ true) is
      → All (λ j. marks.pending u c.stream c.group j ≡ true) is
  still_held spared [] w u k owns held = tt
  still_held spared (j ∷ is) w u k (own, owns) (p, held) =
      (k.held j own p, still_held spared is w u k owns held)

  -- Messages that wait.
  waiting-Fates :
      (id : ℕ) (ms : List XMessage) (w now : W)
      → All (λ i. marks.pending now c.stream c.group i ≡ true) (ids (copy_messages ms))
      → Fates marks metrics c id ms w now
  unfolding copy_messages
  waiting-Fates id [] w now p = tt
  waiting-Fates id (m ∷ ms) w now p = (waits p.0, waiting-Fates id ms _ now p.1)

  -- A worker over the Redis adapter that receives distinct messages, all pending in its group,
  -- loses no task: at its end each message is still pending, or holds no task, or its task was
  -- taken for a duplicate, or was run with success, or failed and stands as a copy, with one more
  -- retry in the stream if it has retries left and else in the dead-letter stream: whatever XADDs
  -- and XACKs fail and wherever a panic ends the worker, if Redis does what it documents of XADD
  -- and XACK, the other services and the workers that run during their calls take no message from
  -- a stream and acknowledge none of these, instants are read back as written and the tasks' code
  -- leaves numbers of 64 bits.
  pub worker_loses_nothing :
      (id : ℕ) (ms : List XMessage) (w : W)
      → Distinct (ids (copy_messages ms))
      → All mine (ids (copy_messages ms))
      → All (λ i. marks.pending w c.stream c.group i ≡ true) (ids (copy_messages ms))
      → Fates marks metrics c id ms w (worker metrics (on client c) id (copy_messages ms) w).1
  unfolding copy_messages
  worker_loses_nothing id [] w once own held = tt
  worker_loses_nothing id (m ∷ ms) w once own held =
      let u = (process_message metrics (on client c) id (message_of m) w).1 in
      let first = delivery_fate marks metrics c calm law id m w own.0 held.0 in
      let others = process_message-Spares marks metrics c calm id m w in
      let still =
        still_held (λ j. mine j × (j ≢ m.id)) (ids (copy_messages ms)) w u others
          (All-both _ _ _ own.1 once.0) held.1 in
      worker_cases client metrics c (Fates marks metrics c id (m ∷ ms) w) id m ms w _ _ refl
        (
          Fate-kept marks metrics c id w m (worker-Spares id ms u)
              (own.0, All-map _ _ _ (λ i ne e. ne (sym e)) once.0) first,
          worker_loses_nothing id ms u once.1 own.1 still,
        )
        (
          Fate-kept marks metrics c id w m (calm.counts_panic u) own.0 first,
          waiting-Fates id ms u _
              (still_held mine (ids (copy_messages ms)) u _ (calm.counts_panic u) own.1 still),
        )
