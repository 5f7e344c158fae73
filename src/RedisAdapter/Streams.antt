-- ===== src/RedisAdapter/Streams.antt =====
-- Streams as lists of tasks: what the adapter promises, given what Redis documents of XADD.
use Prim.Native.String.{String}
use forge_task_queue.Common.{
  ◌≡◌, ◌≢◌, Option, none, some, List, [], ◌∷◌, ◌++◌, map, refl, sym, ap, ◌∙◌, inl, inr, map-member,
  member_of_map,
}
use mathlib.Core.Path.{subst}
use mathlib.Core.List.Memᴰ
use mathlib.Core.List.{map-append, Memᴰ}
use forge_task_queue.Task.{Task, ok, err, Result-cases}
use forge_task_queue.Task.Json.{JsonText}
use forge_task_queue.Task.Codec.{TimeFormat, IsTimeFormat, marshal, unmarshal}
use forge_task_queue.Task.Codec.RoundTrip.{decoded_payload, IsSized, unmarshal-marshal}
use forge_task_queue.Task.Store.{Value, text, payload_of}
use forge_task_queue.RedisAdapter.Client.{RedisClient, XMessage}
use forge_task_queue.RedisAdapter.{message_of, add}

-- The messages that a stream holds, as XRANGE lists them, and what XADD does to them: a reply with
-- an id means that the message stands at the end of the stream, and no other stream changes; after
-- an error the message may have been added or not, as when the connection breaks before the reply,
-- but no message has left a stream.
pub record Streams {W : Type 0} (client : RedisClient W) : Type 0 where
  pub entries : W → String → List XMessage
  pub xadd_ok :
      (s : String) (fields : List (String × Value)) (i : String) (w : W)
      → (client.xadd s fields w).0 ≡ ok i
      → (entries (client.xadd s fields w).1 s
          ≡ entries w s ++ record { id = i; values = fields } ∷ [])
        × ((o : String) → o ≢ s → entries (client.xadd s fields w).1 o ≡ entries w o)
  pub xadd_err :
      (s : String) (fields : List (String × Value)) (e : String) (w : W)
      → (client.xadd s fields w).0 ≡ err e
      → (o : String) (m : XMessage) → Memᴰ m (entries w o)
      → Memᴰ m (entries (client.xadd s fields w).1 o)

module _ {W : Type 0} ⦃times : TimeFormat⦄ (client : RedisClient W) (redis : Streams client) where
  -- The task of a message, `none` where it holds none.
  abbrev pub task_in : XMessage → Option Task
  task_in m = elim (payload_of (message_of m)) [ none ↦ none | some p ↦ unmarshal p ]

  -- The abstract view of a stream: its tasks in order.
  abbrev pub tasks : W → String → List (Option Task)
  tasks w s = map task_in (redis.entries w s)

  pub tasks-eq :
      (u w : W) (s : String) → redis.entries u s ≡ redis.entries w s → tasks u s ≡ tasks w s
  tasks-eq u w s e = ap (map task_in) e

  pub add_encoded :
      (s : String) (t : Task) (j : JsonText) (w : W)
      → marshal t ≡ ok j
      → add client s t w ≡ client.xadd s (("payload", text j) ∷ []) w
  unfolding add
  add_encoded s t j w e = rw (e, add)

  pub add_refused :
      (s : String) (t : Task) (e : String) (w : W)
      → marshal t ≡ err e
      → add client s t w ≡ (err e, w)
  unfolding add
  add_refused s t e w h = rw (h, add)

  -- The message that an XADD of a task that returns an id leaves in its stream.
  pub add_entry :
      (s : String) (t : Task) (i : String) (w : W)
      → (add client s t w).0 ≡ ok i
      → (j : JsonText) × (marshal t ≡ ok j)
        × (redis.entries (add client s t w).1 s
            ≡ redis.entries w s ++ record { id = i; values = ("payload", text j) ∷ [] } ∷ [])
        × ((o : String) → o ≢ s → redis.entries (add client s t w).1 o ≡ redis.entries w o)
  add_entry s t i w e = elim (Result-cases (marshal t)) [
    | inl (m, bad) ↦ absurd (cc (add_refused s t m w bad))
    | inr (j, good) ↦
        let same = add_encoded s t j w good in
        let (here, others) = redis.xadd_ok s (("payload", text j) ∷ []) i w (rw same at e) in
        rw same (j, good, here, others)
  ]

  -- An XADD of a task that returns an id puts the task at the end of its stream, as it is later
  -- decoded, and leaves the other streams alone, if Redis appends as documented, instants are read
  -- back as written and the task's numbers have 64 bits.
  pub add_ok :
      (s : String) (t : Task) (i : String) (w : W)
      → IsTimeFormat times
      → IsSized t
      → (add client s t w).0 ≡ ok i
      → (tasks (add client s t w).1 s
          ≡ tasks w s ++ some (record t { payload = decoded_payload t.payload }) ∷ [])
        × ((o : String) → o ≢ s → tasks (add client s t w).1 o ≡ tasks w o)
  unfolding payload_of
  add_ok s t i w law sized e =
      let (j, good, here, others) = add_entry s t i w e in
      (
        ap (map task_in) here
            ∙ map-append task_in (redis.entries w s) _
            ∙ ap (λ o. tasks w s ++ o ∷ []) (unmarshal-marshal t j law sized good),
        λ o ne. ap (map task_in) (others o ne),
      )

  -- A message that holds this task stands in a stream.
  abbrev pub Stands : W → String → Task → Type 0
  Stands w s t = (x : XMessage) × Memᴰ x (redis.entries w s) × (task_in x ≡ some t)

  -- An XADD that goes through leaves such a message.
  pub add-Stands :
      (s : String) (t : Task) (i : String) (w : W)
      → IsTimeFormat times
      → IsSized t
      → (add client s t w).0 ≡ ok i
      → Stands (add client s t w).1 s (record t { payload = decoded_payload t.payload })
  unfolding payload_of
  add-Stands s t i w law sized e =
      let (j, good, here, others) = add_entry s t i w e in
      (
        record { id = i; values = ("payload", text j) ∷ [] },
        subst (Memᴰ _) (sym here) (Memᴰ.append_right _ (Memᴰ.head refl)),
        unmarshal-marshal t j law sized good,
      )

  -- An XADD of a task that returns an error, also where the task cannot be encoded, takes no message
  -- from a stream.
  pub add_err :
      (s : String) (t : Task) (e : String) (w : W)
      → (add client s t w).0 ≡ err e
      → (o : String) (m : XMessage) → Memᴰ m (redis.entries w o)
      → Memᴰ m (redis.entries (add client s t w).1 o)
  add_err s t e w h o m here = elim (Result-cases (marshal t)) [
    | inl (x, bad) ↦ rw (add_refused s t x w bad) here
    | inr (j, good) ↦
        let same = add_encoded s t j w good in
        rw same (redis.xadd_err s (("payload", text j) ∷ []) e w (rw same at h) o m here)
  ]

  -- What takes no message from a stream takes no task.
  pub tasks_kept :
      (u w : W) (s : String) {t : Option Task}
      → ((m : XMessage) → Memᴰ m (redis.entries w s) → Memᴰ m (redis.entries u s))
      → Memᴰ t (tasks w s)
      → Memᴰ t (tasks u s)
  tasks_kept u w s kept here =
      let (m, there, e) = member_of_map task_in (redis.entries w s) here in
      subst (λ o. Memᴰ o (tasks u s)) (sym e) (map-member task_in (kept m there))
