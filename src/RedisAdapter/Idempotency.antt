-- ===== src/RedisAdapter/Idempotency.antt =====
-- Idempotency keys, given what Redis documents of SET NX.
use Prim.Native.String.{String, ◌++◌}
use text.Mathlib.TextLemmas.{append_cancel_left}
use forge_task_queue.Common.{◌≡◌, ◌≢◌, Bool, false, true, not, ap, ◌∙◌}
use forge_task_queue.Common.Int.{ℤ}
use forge_task_queue.Task.{ok}
use forge_task_queue.RedisAdapter.Client.{RedisClient}
use forge_task_queue.RedisAdapter.{IdempotencyStore, check}

-- Whether a key exists, and what SET NX does within the key's time to live: it replies whether the
-- key was absent, the key exists afterwards, and no other key changes.
pub record Keys {W : Type 0} (client : RedisClient W) : Type 0 where
  pub exists : W → String → Bool
  pub set_nx_ok :
      (key value : String) (ttl : ℤ) (w : W) (b : Bool)
      → (client.set_nx key value ttl w).0 ≡ ok b
      → (b ≡ not (exists w key))
        × (exists (client.set_nx key value ttl w).1 key ≡ true)
        × ((other : String)
            → other ≢ key
            → exists (client.set_nx key value ttl w).1 other ≡ exists w other)

module _ {W : Type 0} (s : IdempotencyStore W) (keys : Keys s.client) where
  -- Whether an idempotency key has been seen.
  abbrev seen : W → String → Bool
  seen w key = keys.exists w ("idemp:" ++ key)

  -- A check that gets a reply says that the key is new exactly if it has not been seen; then it has
  -- been seen, and no other idempotency key is touched, if SET NX does what Redis documents.
  check_lem :
      (key : String) (w : W) (b : Bool)
      → (check s key w).0 ≡ ok b
      → (b ≡ not (seen w key))
        × (seen (check s key w).1 key ≡ true)
        × ((other : String) → other ≢ key → seen (check s key w).1 other ≡ seen w other)
  unfolding check
  check_lem key w b h =
      let (is_new, marked, others) = keys.set_nx_ok ("idemp:" ++ key) "1" s.ttl w b h in
      (
        is_new,
        marked,
        λ other ne. others ("idemp:" ++ other) (λ e. ne (append_cancel_left "idemp:" other key e)),
      )

  -- Of two checks of one key in a row, the second never says that the key is new.
  second_check :
      (key : String) (w : W) (b b' : Bool)
      → (check s key w).0 ≡ ok b
      → (check s key (check s key w).1).0 ≡ ok b'
      → b' ≡ false
  second_check key w b b' h h' =
      (check_lem key (check s key w).1 b' h').0 ∙ ap not (check_lem key w b h).1
