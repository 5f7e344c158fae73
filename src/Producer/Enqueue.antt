-- ===== src/Producer/Enqueue.antt =====
-- What producing a task calls, and how priorities choose streams.
use Prim.Native.String.{String, ◌++◌}
use mathlib.Core.List.{Memᴰ}
use forge_task_queue.Common.{
  ◌≡◌, Bool, false, ◌&&◌, eq_refl, refl, ◌≢◌, ◌↔◌, inl, inr, [], ◌∷◌, arith, ◌==◌, eq_iff,
  Bool-cases,
}
use forge_task_queue.Common.Text.{append-ne_self}
use forge_task_queue.Task.{Task, ok, err}
use forge_task_queue.Calls.{
  adds, is_saved, Call, Log, Environment, count_calls, recorded_store, recorded_publisher,
}
use forge_task_queue.Producer.{
  Producer, PriorityProducer, new, produce, produce_by_priority, stream_for_priority, streams,
}
use text.Mathlib.TextLemmas.{append_cancel_left}

abbrev pub is_pending : Task → Call → Bool
is_pending t (Call.publish e _) = e.type == "Pending" && e.task_id == t.id
is_pending t _ = false

-- Producing makes one XADD, of the task and to the producer's stream, and returns its reply; the
-- event Pending of the task is published once if the XADD went through, and else not at all.
produce_lem :
    (env : Environment) (p : Producer Log) (t : Task)
    → let (r, w) =
        produce
          (record p { store = recorded_store env; publisher = recorded_publisher env })
          t
          [] in
      (r ≡ env.add [] p.stream t)
      × (adds w ≡ (p.stream, t) ∷ [])
      × (count_calls (is_pending t) w ≡ count_calls is_saved w)
      × (count_calls is_saved w ≡ elim r [ ok _ ↦ 1 | err _ ↦ 0 ])
unfolding produce
produce_lem env p t = ground (arith, eq_refl t.id)

-- The priority producer does what a plain producer on the stream of the task's priority does,
-- whatever the services do.
pub produce_by_priority-eq-produce :
    {W : Type 0} (pp : PriorityProducer W) (t : Task) (w : W)
    → produce_by_priority pp t w
      ≡ produce (new pp.store pp.publisher (stream_for_priority pp.base_stream t.priority)) t w
unfolding produce produce_by_priority new
produce_by_priority-eq-produce pp t w = refl

high-ne-low : (base : String) → base ++ "_high" ≢ base ++ "_low"
high-ne-low base e = absurd (suffixes_differ (append_cancel_left base "_high" "_low" e))
  where
    suffixes_differ : ¬ (◌≡◌ {A = String} "_high" "_low")
    suffixes_differ q = ground (arith, eq_iff "_high" "_low")

-- Two priorities share a stream exactly if neither of them is told from the other by "high" or
-- "low": only these two words have streams of their own.
pub stream_for_priority_iff :
    (base p q : String)
    → (stream_for_priority base p ≡ stream_for_priority base q)
      ↔ (((p ≡ "high") ↔ (q ≡ "high")) × ((p ≡ "low") ↔ (q ≡ "low")))
unfolding stream_for_priority
stream_for_priority_iff base p q = ground (
  arith,
  eq_iff p "high",
  eq_iff p "low",
  eq_iff q "high",
  eq_iff q "low",
  high-ne-low base,
  append-ne_self base "_high",
  append-ne_self base "_low",
)

-- Every task goes to a stream that `Streams` lists.
pub stream_for_priority-listed :
    (base p : String) → Memᴰ (stream_for_priority base p) (streams base)
unfolding stream_for_priority streams
stream_for_priority-listed base p = elim (Bool-cases (p == "high")) [
  | inl high ↦ rw high (Memᴰ.head refl)
  | inr other ↦ elim (Bool-cases (p == "low")) [
    | inl low ↦ rw (other, low) (Memᴰ.tail (Memᴰ.tail (Memᴰ.head refl)))
    | inr normal ↦ rw (other, normal) (Memᴰ.tail (Memᴰ.head refl))
  ]
]
