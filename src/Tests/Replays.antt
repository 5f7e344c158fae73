-- ===== src/Tests/Replays.antt =====
-- A replay over a Redis with a dead letter and room for one task.
use Prim.Native.String.{String}
use mathlib.Core.Path.{subst}
use mathlib.Core.List.Memᴰ
use mathlib.Core.List.{Memᴰ}
use forge_task_queue.Common.{
  ◌≡◌, ◌≢◌, refl, sym, ap, Bool, true, false, ◌&&◌, Option, none, some, List, [], ◌∷◌, ◌++◌, All,
  arith, ◌==◌, eq_iff, if◌then◌else◌,
}
use forge_task_queue.Task.{Result, ok, err}
use forge_task_queue.Task.Store.{Value, text}
use forge_task_queue.Api.Http.{Request, empty_response}
use forge_task_queue.Api.Server.{Server, handle_retry_dlq}
use forge_task_queue.Api.Server.Conservation.{Kept, over}
use forge_task_queue.Api.Server.Conservation.Requests.{replay_loses_nothing}
use forge_task_queue.Task.Store.{payload_of}
use forge_task_queue.Task.Codec.{marshal, unmarshal}
use forge_task_queue.RedisAdapter.{store, add, range, delete}
use forge_task_queue.RedisAdapter.Client.{RedisClient, XMessage}
use forge_task_queue.RedisAdapter.Streams.{Streams}
use forge_task_queue.RedisAdapter.Entries.{Entries}
use forge_task_queue.Tests.Values.{unary_times, unary_times-IsTimeFormat, mail, text_of}

record World : Type 0 where
  dead : Bool
  sent : Option (List (String × Value))

abbrev letter : XMessage
letter = record { id = "1-0"; values = ("payload", text (text_of mail)) ∷ [] }

-- The message of a stream.
abbrev held : World → String → Option XMessage
held w s =
    if s == "tasks"
    then (elim w.sent [ none ↦ none | some f ↦ some (record { id = "5-0"; values = f }) ])
    else if s == "tasks_dlq"
    then (if w.dead then some letter else none)
    else none

abbrev listed : Option XMessage → List XMessage
listed none = []
listed (some m) = m ∷ []

abbrev added : String → List (String × Value) → World → Result String × World
added s f w =
    if s == "tasks"
    then (elim w.sent [ none ↦ (ok "5-0", record w { sent = some f }) | some _ ↦ (err "full", w) ])
    else (err "no such stream", w)

abbrev deleted : String → List String → World → World
deleted s [] w = w
deleted s (i ∷ _) w = if s == "tasks_dlq" && i == "1-0" then record w { dead = false } else w

abbrev redis : RedisClient World
redis = record {
  xadd = added;
  xread_group = λ g c ss n b w. (ok [], w);
  xack = λ s g i w. (ok tt, w);
  xgroup_create_mkstream = λ s g i w. (ok tt, w);
  xrange_n = λ s a b n w. (ok (listed (held w s)), w);
  xdel = λ s is w. (ok tt, deleted s is w);
  set_nx = λ key v ttl w. (ok true, w);
  publish = λ channel j w. (ok tt, w);
}

added_ok :
    (s : String) (f : List (String × Value)) (i : String) (w : World)
    → (added s f w).0 ≡ ok i
    → (listed (held (added s f w).1 s) ≡ listed (held w s) ++ record { id = i; values = f } ∷ [])
      × ((o : String) → o ≢ s → listed (held (added s f w).1 o) ≡ listed (held w o))
added_ok s f i w e = (
  ground (arith, e),
  λ o ne. ground (arith, e, ne, eq_iff o s, eq_iff s "tasks", eq_iff o "tasks"),
)

added_err :
    (s : String) (f : List (String × Value)) (e : String) (w : World) (o : String)
    → (added s f w).0 ≡ err e
    → listed (held (added s f w).1 o) ≡ listed (held w o)
added_err s f e w o h = ground (arith, h)

redis_streams : Streams redis
redis_streams = record {
  entries = λ w s. listed (held w s);
  xadd_ok = added_ok;
  xadd_err = λ s f e w h o m here. subst (Memᴰ m) (sym (added_err s f e w o h)) here;
}

mem_listed : (m : XMessage) (o : Option XMessage) → Memᴰ m (listed o) → o ≡ some m
mem_listed m none (there) = absurd (Memᴰ.not-nil there)
mem_listed m (some n) (Memᴰ.head e) = ap some (sym e)
mem_listed m (some n) (Memᴰ.tail there) = absurd (Memᴰ.not-nil there)

listed_mem : (m : XMessage) (o : Option XMessage) → o ≡ some m → Memᴰ m (listed o)
listed_mem m o e = rw e (Memᴰ.head refl)

All-listed : (o : Option XMessage) → All (λ m. Memᴰ m (listed o)) (listed o)
All-listed none = tt
All-listed (some m) = (Memᴰ.head refl, tt)

deleted_keeps :
    (s i : String) (w : World) (m : XMessage)
    → m.id ≢ i
    → held w s ≡ some m
    → held (deleted s (i ∷ []) w) s ≡ some m
deleted_keeps s i w m ne h = ground (arith, eq_iff i "1-0", eq_iff s "tasks_dlq", eq_iff s "tasks")

deleted_others :
    (s i : String) (w : World) (o : String) → o ≢ s → held (deleted s (i ∷ []) w) o ≡ held w o
deleted_others s i w o ne = ground (arith, eq_iff o "tasks_dlq", eq_iff s "tasks_dlq")

redis-Entries : Entries redis redis_streams
unfolding redis_streams
redis-Entries = record {
  xrange_ok = λ s a b n w ms h.
      let same : listed (held w s) ≡ ms = cc in
      subst (All (λ m. Memᴰ m (listed (held w s)))) same (All-listed (held w s));
  xrange_keeps = λ s a b n w o. refl;
  xdel_keeps =
      λ s i w m ne h. listed_mem m _ (deleted_keeps s i w m ne (mem_listed m (held w s) h));
  xdel_others = λ s i w o ne. ap listed (deleted_others s i w o ne);
  one_id = λ w s m n h k e.
      let found = mem_listed m (held w s) h in let same = mem_listed n (held w s) k in cc;
}

abbrev server : Server World
server = record {
  store = store redis;
  publisher = record { publish = λ e w. (ok tt, w) };
  ping = λ w. (ok tt, w);
  uptime = λ w. ("1s", w);
  can_flush = true;
  subscription = λ w. ([], w);
  stream = "tasks";
  dlq_stream = "tasks_dlq";
  api_key = "";
  origins = [];
}

abbrev request : Request
request = record { method = "POST"; path = "/api/retry-dlq"; remote_addr = "a:1"; headers = [] }

abbrev one_dead : World
one_dead = record { dead = true; sent = none }

streams_differ : ◌≢◌ {A = String} "tasks_dlq" "tasks"
streams_differ e = ground (arith, eq_iff "tasks_dlq" "tasks")

replay_loses_nothing_example :
    Kept redis redis_streams "tasks" "tasks_dlq"
      (handle_retry_dlq (over redis server) request empty_response one_dead).1
      letter
unfolding redis_streams
replay_loses_nothing_example =
    replay_loses_nothing redis redis_streams redis-Entries server (λ e w o. refl)
      unary_times-IsTimeFormat streams_differ request empty_response one_dead letter
      (Memᴰ.head refl)

-- Here the task is moved.
letter_moved : (handle_retry_dlq (over redis server) request empty_response one_dead).1.dead ≡ false
unfolding handle_retry_dlq range payload_of unmarshal marshal add delete
letter_moved = refl
