-- ===== src/RedisAdapter/Entries.antt =====
-- Reading and deleting the messages of a stream, given what Redis documents of XRANGE and XDEL.
use Prim.Native.String.{String}
use mathlib.Core.List.{Memᴰ}
use forge_task_queue.Common.{◌≡◌, ◌≢◌, List, [], ◌∷◌, All}
use forge_task_queue.Common.Int.{ℤ}
use forge_task_queue.Task.{ok}
use forge_task_queue.RedisAdapter.Client.{RedisClient, XMessage}
use forge_task_queue.RedisAdapter.Streams.{Streams}

-- XRANGE lists messages of the stream and changes nothing; XDEL of an id touches no message with
-- another id and no other stream; an id stands for one message of a stream.
pub record Entries {W : Type 0} (client : RedisClient W) (redis : Streams client) : Type 0 where
  pub xrange_ok :
      (s a b : String) (n : ℤ) (w : W) (ms : List XMessage)
      → (client.xrange_n s a b n w).0 ≡ ok ms
      → All (λ m. Memᴰ m (redis.entries w s)) ms
  pub xrange_keeps :
      (s a b : String) (n : ℤ) (w : W) (o : String)
      → redis.entries (client.xrange_n s a b n w).1 o ≡ redis.entries w o
  pub xdel_keeps :
      (s i : String) (w : W) (m : XMessage)
      → m.id ≢ i
      → Memᴰ m (redis.entries w s)
      → Memᴰ m (redis.entries (client.xdel s (i ∷ []) w).1 s)
  pub xdel_others :
      (s i : String) (w : W) (o : String)
      → o ≢ s
      → redis.entries (client.xdel s (i ∷ []) w).1 o ≡ redis.entries w o
  pub one_id :
      (w : W) (s : String) (m n : XMessage)
      → Memᴰ m (redis.entries w s)
      → Memᴰ n (redis.entries w s)
      → m.id ≡ n.id
      → m ≡ n
