-- ===== src/Tests/Groups.antt =====
-- A small Redis whose streams hold two messages each, read by groups.
use Prim.Native.String.{String}
use forge_task_queue.Common.{
  ◌≡◌, refl, sym, Bool, true, false, ◌&&◌, Option, none, some, List, [], ◌∷◌, arith, ◌==◌, eq_refl,
  if◌then◌else◌, Bool-cases, inl, inr, All,
}
use forge_task_queue.Common.Int.{pos}
use forge_task_queue.Task.{Result, ok}
use forge_task_queue.Task.Store.{duration}
use forge_task_queue.RedisAdapter.Client.{RedisClient, XStream}
use forge_task_queue.RedisAdapter.{all_messages, read_group, create_group, ack}
use forge_task_queue.RedisAdapter.Groups.{
  Groups, ids, Distinct, Op, reads, creates, acks, run_op, handed_by, handed_once,
}
use forge_task_queue.Tests.Values.{unary_times}

-- The messages that the groups of the streams have been handed: stream, group, id.
abbrev Given : Type 0
Given = String → String → String → Bool

-- The first message that a group has not been handed.
abbrev waiting : Given → String → String → Option String
waiting given s g =
    if given s g "1-0" then (if given s g "2-0" then none else some "2-0") else some "1-0"

abbrev hand : Given → String → String → String → Given
hand given s g i t h j = if t == s && h == g && j == i then true else given t h j

abbrev reply : String → Option String → List XStream
reply s none = []
reply s (some i) = record { stream = s; messages = record { id = i; values = [] } ∷ [] } ∷ []

abbrev handing : Given → String → String → Option String → Given
handing given s g none = given
handing given s g (some i) = hand given s g i

abbrev read : String → List String → Given → Result (List XStream) × Given
read g [] given = (ok [], given)
read g (s ∷ _) given = (ok (reply s (waiting given s g)), handing given s g (waiting given s g))

abbrev redis : RedisClient Given
redis = record {
  xadd = λ s fields w. (ok "3-0", w);
  xread_group = λ g c ss n b w. read g ss w;
  xack = λ s g i w. (ok tt, w);
  xgroup_create_mkstream = λ s g i w. (ok tt, w);
  xrange_n = λ s a b n w. (ok [], w);
  xdel = λ s is w. (ok tt, w);
  set_nx = λ key v ttl w. (ok true, w);
  publish = λ channel j w. (ok tt, w);
}

handing-keeps :
    (given : Given) (s g : String) (o : Option String) (t h j : String)
    → given t h j ≡ true
    → handing given s g o t h j ≡ true
handing-keeps given s g none t h j k = k
handing-keeps given s g (some i) t h j k = ground arith

read-keeps :
    (g : String) (ss : List String) (given : Given) (t h j : String)
    → given t h j ≡ true
    → (read g ss given).1 t h j ≡ true
read-keeps g [] given t h j k = k
read-keeps g (s ∷ _) given t h j k = handing-keeps given s g (waiting given s g) t h j k

waiting_new : (given : Given) (s g i : String) → waiting given s g ≡ some i → given s g i ≡ false
waiting_new given s g i e = elim (Bool-cases (given s g "1-0")) [
  | inr new ↦ cc (rw new at e)
  | inl old ↦ elim (Bool-cases (given s g "2-0")) [
    | inr new ↦ cc (rw (old, new) at e)
    | inl older ↦ cc (rw (old, older) at e)
  ]
]

reply-new :
    (given : Given) (s g : String) (o : Option String)
    → waiting given s g ≡ o
    → All (λ i. given s g i ≡ false) (ids (all_messages (reply s o)))
      × Distinct (ids (all_messages (reply s o)))
      × All (λ i. handing given s g o s g i ≡ true) (ids (all_messages (reply s o)))
unfolding all_messages
reply-new given s g none e = (tt, tt, tt)
reply-new given s g (some i) e = (
  (waiting_new given s g i e, tt),
  (tt, tt),
  (ground (arith, eq_refl s, eq_refl g, eq_refl i), tt),
)

redis_groups : Groups redis
redis_groups = record {
  handed = λ given s g i. given s g i;
  reads_new = λ s g c n d given r e.
      let same : reply s (waiting given s g) ≡ r = cc in
      rw (sym same) (reply-new given s g (waiting given s g) refl);
  xread_keeps = λ g c ss n d given s h i k. read-keeps g ss given s h i k;
  xadd_keeps = λ t fields given s h i k. k;
  xack_keeps = λ t g j given s h i k. k;
  xgroup_keeps = λ t g j given s h i k. k;
  xrange_keeps = λ t a b n given s h i k. k;
  xdel_keeps = λ t js given s h i k. k;
  set_nx_keeps = λ key v ttl given s h i k. k;
  publish_keeps = λ channel j given s h i k. k;
}

-- A worker reads the first message of the stream and dies of it; the program is started again, and
-- reads until there is nothing left.
abbrev restarted : List Op
restarted =
    creates "tasks" "workers"
    ∷ reads "tasks" "workers" "a" (pos 10) (duration (pos 2_000_000_000))
    ∷ creates "tasks" "workers"
    ∷ reads "tasks" "workers" "b" (pos 10) (duration (pos 2_000_000_000))
    ∷ acks "tasks" "workers" "2-0"
    ∷ reads "tasks" "workers" "b" (pos 10) (duration (pos 2_000_000_000))
    ∷ []

abbrev nothing_given : Given
nothing_given = λ s g i. false

restarted_ids : handed_by redis "tasks" "workers" restarted nothing_given ≡ "1-0" ∷ "2-0" ∷ []
unfolding handed_by run_op read_group create_group ack all_messages
restarted_ids = refl

handed_once_example :
    All
      (λ i. nothing_given "tasks" "workers" i ≡ false)
      (handed_by redis "tasks" "workers" restarted nothing_given)
    × Distinct (handed_by redis "tasks" "workers" restarted nothing_given)
unfolding redis_groups
handed_once_example = handed_once redis redis_groups "tasks" "workers" restarted nothing_given
