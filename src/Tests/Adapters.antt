-- ===== src/Tests/Adapters.antt =====
-- The adapters over a small Redis.
use Prim.Native.String.{String}
use forge_task_queue.Common.{
  ◌≡◌, refl, Bool, true, false, not, List, [], ◌∷◌, ◌++◌, arith, ◌==◌, eq_refl, eq-false,
  if◌then◌else◌,
}
use forge_task_queue.Common.Int.{pos}
use forge_task_queue.Task.{ok}
use forge_task_queue.Task.Codec.{marshal}
use forge_task_queue.RedisAdapter.Client.{RedisClient, XMessage}
use forge_task_queue.RedisAdapter.{IdempotencyStore, add, check}
use forge_task_queue.RedisAdapter.Streams.{Streams}
use forge_task_queue.RedisAdapter.Idempotency.{Keys}
use forge_task_queue.Tests.Values.{unary_times, mail}

-- Streams and keys as functions.
pub record World : Type 0 where
  pub entries : String → List XMessage
  pub keys : String → Bool

abbrev pub redis : RedisClient World
redis = record {
  xadd = λ s fields w. (
    ok "5-0",
    record w {
      entries = λ o.
          if o == s
          then w.entries s ++ record { id = "5-0"; values = fields } ∷ []
          else w.entries o;
    },
  );
  xread_group = λ g c ss n b w. (ok [], w);
  xack = λ s g i w. (ok tt, w);
  xgroup_create_mkstream = λ s g i w. (ok tt, w);
  xrange_n = λ s a b n w. (ok (w.entries s), w);
  xdel = λ s is w. (ok tt, w);
  set_nx = λ key v ttl w.
      (ok (not (w.keys key)), record w { keys = λ o. if o == key then true else w.keys o });
  publish = λ channel j w. (ok tt, w);
}

unfoldable pub redis_streams : Streams redis
redis_streams = record {
  entries = λ w s. w.entries s;
  xadd_ok =
      λ s fields i w h. (ground (arith, h, eq_refl s), λ o ne. ground (arith, eq-false o s ne));
  xadd_err = λ s fields e w h o m here. absurd (cc h);
}

redis-Keys : Keys redis
redis-Keys = record {
  exists = λ w key. w.keys key;
  set_nx_ok = λ key v ttl w b h.
      (ground (arith, h), ground (arith, eq_refl key), λ o ne. ground (arith, eq-false o key ne));
}

abbrev pub empty_world : World
empty_world = record { entries = λ s. []; keys = λ key. false }

mail_added : (add redis "tasks" mail empty_world).0 ≡ ok "5-0"
unfolding add marshal
mail_added = refl

abbrev day_store : IdempotencyStore World
day_store = record { client = redis; ttl = pos 86_400_000_000_000 }

key_new : (check day_store "k" empty_world).0 ≡ ok true
unfolding check
key_new = refl
