-- ===== src/RedisAdapter/Groups.antt =====
-- Consumer groups: which messages the program is handed, given what Redis documents of XREADGROUP
-- with `>`.
use Prim.Native.String.{String}
use forge_task_queue.Common.{
  ◌≡◌, ◌≢◌, refl, Bool, true, false, ◌&&◌, List, [], ◌∷◌, ◌++◌, arith, ◌==◌, eq_iff, if◌then◌else◌,
  Bool-cases, inl, inr, Action, All, All-append, All-map,
}
use forge_task_queue.Common.Int.{ℤ}
use forge_task_queue.Task.{Task, Event, Result, ok, err, Result-cases}
use forge_task_queue.Task.Codec.{TimeFormat, marshal}
use forge_task_queue.Task.Store.{StreamMessage, Block, Value, text}
use forge_task_queue.Task.Json.{JsonText}
use forge_task_queue.RedisAdapter.Client.{RedisClient, XStream}
use forge_task_queue.RedisAdapter.{
  add, read_group, ack, create_group, range, delete, check, publish, all_messages, block_duration,
}

abbrev pub ids : List StreamMessage → List String
ids [] = []
ids (m ∷ ms) = m.id ∷ ids ms

abbrev pub Distinct : List String → Type 0
Distinct [] = Unit
Distinct (i ∷ is) = All (λ j. j ≢ i) is × Distinct is

-- What a group has been handed of a stream, and that no command takes it back. A read of what is
-- new hands out messages that the group has not been handed before, each once.
pub record Groups {W : Type 0} (client : RedisClient W) : Type 0 where
  -- stream, group, message id
  pub handed : W → String → String → String → Bool
  pub reads_new :
      (s g c : String) (n d : ℤ) (w : W) (reply : List XStream)
      → (client.xread_group g c (s ∷ ">" ∷ []) n d w).0 ≡ ok reply
      → All (λ i. handed w s g i ≡ false) (ids (all_messages reply))
        × Distinct (ids (all_messages reply))
        × All
            (λ i. handed (client.xread_group g c (s ∷ ">" ∷ []) n d w).1 s g i ≡ true)
            (ids (all_messages reply))
  pub xread_keeps :
      (g c : String) (ss : List String) (n d : ℤ) (w : W) (s h i : String)
      → handed w s h i ≡ true
      → handed (client.xread_group g c ss n d w).1 s h i ≡ true
  pub xadd_keeps :
      (t : String) (fields : List (String × Value)) (w : W) (s h i : String)
      → handed w s h i ≡ true
      → handed (client.xadd t fields w).1 s h i ≡ true
  pub xack_keeps :
      (t g j : String) (w : W) (s h i : String)
      → handed w s h i ≡ true
      → handed (client.xack t g j w).1 s h i ≡ true
  pub xgroup_keeps :
      (t g j : String) (w : W) (s h i : String)
      → handed w s h i ≡ true
      → handed (client.xgroup_create_mkstream t g j w).1 s h i ≡ true
  pub xrange_keeps :
      (t a b : String) (n : ℤ) (w : W) (s h i : String)
      → handed w s h i ≡ true
      → handed (client.xrange_n t a b n w).1 s h i ≡ true
  pub xdel_keeps :
      (t : String) (js : List String) (w : W) (s h i : String)
      → handed w s h i ≡ true
      → handed (client.xdel t js w).1 s h i ≡ true
  pub set_nx_keeps :
      (key v : String) (ttl : ℤ) (w : W) (s h i : String)
      → handed w s h i ≡ true
      → handed (client.set_nx key v ttl w).1 s h i ≡ true
  pub publish_keeps :
      (channel : String) (j : JsonText) (w : W) (s h i : String)
      → handed w s h i ≡ true
      → handed (client.publish channel j w).1 s h i ≡ true

-- A call of the adapters.
pub data Op : Type 0 where
  adds : String → Task → Op
  reads : String → String → String → ℤ → Block → Op
  acks : String → String → String → Op
  creates : String → String → Op
  ranges : String → String → String → ℤ → Op
  deletes : String → List String → Op
  publishes : String → Event → Op
  checks : String → ℤ → Op

Distinct-append :
    (xs ys : List String)
    → Distinct xs
    → Distinct ys
    → All (λ i. All (λ j. j ≢ i) ys) xs
    → Distinct (xs ++ ys)
Distinct-append [] ys d e a = e
Distinct-append (x ∷ xs) ys (n, d) e (m, a) = (All-append _ xs ys n m, Distinct-append xs ys d e a)

abbrev pub read_ids : Result (List StreamMessage) → List String
read_ids (ok ms) = ids ms
read_ids (err _) = []

module _ {W : Type 0} ⦃times : TimeFormat⦄ (client : RedisClient W) where
  -- One call: the ids that it hands to this group of this stream.
  unfoldable pub run_op : String → String → Op → Action W (List String)
  run_op s g (adds t task) w = ([], (add client t task w).1)
  run_op s g (reads t h c n b) w =
      let (r, w) = read_group client t h c n b w in (if t == s && h == g then read_ids r else [], w)
  run_op s g (acks t h i) w = ([], (ack client t h i w).1)
  run_op s g (creates t h) w = ([], (create_group client t h w).1)
  run_op s g (ranges t a b n) w = ([], (range client t a b n w).1)
  run_op s g (deletes t is) w = ([], (delete client t is w).1)
  run_op s g (publishes channel e) w =
      ([], (publish (record { client = client; channel = channel }) e w).1)
  run_op s g (checks key ttl) w = ([], (check (record { client = client; ttl = ttl }) key w).1)

  -- The ids that a history of calls hands to this group of this stream.
  unfoldable pub handed_by : String → String → List Op → W → List String
  handed_by s g [] w = []
  handed_by s g (op ∷ ops) w = let (is, w) = run_op s g op w in is ++ handed_by s g ops w

module _ {W : Type 0} ⦃times : TimeFormat⦄ (client : RedisClient W) (redis : Groups client) where
  -- A call leaves what was handed out before as it was.
  run_op-keeps :
      (s g : String) (op : Op) (w : W) (t h i : String)
      → redis.handed w t h i ≡ true
      → redis.handed (run_op client s g op w).1 t h i ≡ true
  unfolding run_op add read_group ack create_group range delete publish check
  run_op-keeps s g (adds u task) w t h i k = elim (Result-cases (marshal task)) [
    | inl (m, bad) ↦ rw (bad, run_op, add) k
    | inr (j, good) ↦
        rw (good, run_op, add) (redis.xadd_keeps u (("payload", text j) ∷ []) w t h i k)
  ]
  run_op-keeps s g (reads u v c n b) w t h i k =
      redis.xread_keeps v c (u ∷ ">" ∷ []) n (block_duration b) w t h i k
  run_op-keeps s g (acks u v j) w t h i k = redis.xack_keeps u v j w t h i k
  run_op-keeps s g (creates u v) w t h i k = redis.xgroup_keeps u v "0" w t h i k
  run_op-keeps s g (ranges u a b n) w t h i k = redis.xrange_keeps u a b n w t h i k
  run_op-keeps s g (deletes u is) w t h i k = redis.xdel_keeps u is w t h i k
  run_op-keeps s g (publishes channel e) w t h i k = redis.publish_keeps channel _ w t h i k
  run_op-keeps s g (checks key ttl) w t h i k = redis.set_nx_keeps _ "1" ttl w t h i k

  -- The reply of a read of what is new.
  read_new :
      (s g c : String) (n d : ℤ) (w : W) (r : Result (List XStream))
      → (client.xread_group g c (s ∷ ">" ∷ []) n d w).0 ≡ r
      → let is = read_ids (elim r [ err e ↦ err e | ok streams ↦ ok (all_messages streams) ]) in
        All (λ i. redis.handed w s g i ≡ false) is
        × Distinct is
        × All (λ i. redis.handed (client.xread_group g c (s ∷ ">" ∷ []) n d w).1 s g i ≡ true) is
  read_new s g c n d w (ok reply) e = redis.reads_new s g c n d w reply e
  read_new s g c n d w (err m) e = (tt, tt, tt)

  -- What a call hands out is new, each message once.
  run_op-new :
      (s g : String) (op : Op) (w : W)
      → All (λ i. redis.handed w s g i ≡ false) (run_op client s g op w).0
        × Distinct (run_op client s g op w).0
        × All (λ i. redis.handed (run_op client s g op w).1 s g i ≡ true) (run_op client s g op w).0
  unfolding run_op read_group
  run_op-new s g (reads t h c n b) w = elim (Bool-cases (t == s && h == g)) [
    | inr other ↦ rw other (tt, tt, tt)
    | inl here ↦
        let e : t ≡ s = ground (arith, here, eq_iff t s) in
        let f : h ≡ g = ground (arith, here, eq_iff h g) in
        rw (here, e, f) (read_new s g c n (block_duration b) w _ refl)
  ]
  run_op-new s g _ w = (tt, tt, tt)

  -- Over any history of calls of the adapters, by one process or by several in turn, the ids that a
  -- group of a stream is handed are ids that it had not been handed at the start, and no id comes
  -- twice, if a read of what is new hands out what Redis documents: what a worker did not
  -- acknowledge is never handed out again.
  pub handed_once :
      (s g : String) (ops : List Op) (w : W)
      → All (λ i. redis.handed w s g i ≡ false) (handed_by client s g ops w)
        × Distinct (handed_by client s g ops w)
  unfolding handed_by
  handed_once s g [] w = (tt, tt)
  handed_once s g (op ∷ ops) w =
      let (fresh, once, taken) = run_op-new s g op w in
      let (later, distinct) = handed_once s g ops (run_op client s g op w).1 in
      (
        All-append _ _ _ fresh (
            All-map _ _ _
              (λ i new. elim (Bool-cases (redis.handed w s g i)) [
                | inr untouched ↦ untouched
                | inl given ↦ absurd (cc (run_op-keeps s g op w s g i given))
              ])
              later),
        Distinct-append _ _ once distinct
            (All-map _ _ _ (λ i given. All-map _ _ _ (λ j new e. cc) later) taken),
      )
