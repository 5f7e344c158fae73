-- ===== src/Api/Server/Serving.antt =====
-- The end of `Start` in api/server.go, from the `http.Server` on: the goroutine that listens, the
-- channel `errCh` for one error, and the select between the context and the channel.
pub mod Ends
use Prim.Native.String.{String}
use forge_task_queue.Common.{◌≡◌, ◌≢◌, Bool, true, false, Option, none, some}
use forge_task_queue.Task.{Result, ok, err}

-- The goroutine: in `ListenAndServe`, before the send of its error, before the closing of the
-- channel, or returned.
pub data Listener : Type 0 where
  listening : Listener
  sending : String → Listener
  closing : Listener
  gone : Listener

-- `Start` itself: before its select, in `Shutdown`, or returned.
pub data Waiter : Type 0 where
  selecting : Waiter
  shutting : Waiter
  returned : Result (Unit {0}) → Waiter

pub record Serving : Type 0 where
  pub listener : Listener
  -- what `errCh` holds, and whether it is closed
  pub err_ch : Option String
  pub err_ch_closed : Bool
  pub waiter : Waiter

unfoldable pub serve : Serving
serve = record { listener = listening; err_ch = none; err_ch_closed = false; waiter = selecting }

-- One step, with the context cancelled or not.
pub data Step (cancelled : Bool) (s : Serving) : Serving → Type 0 where
  -- `ListenAndServe` returns `http.ErrServerClosed`, which it does only once `Shutdown` was called.
  listen_closed :
      s.listener ≡ listening
      → s.waiter ≢ selecting
      → Step cancelled s (record s { listener = closing })
  -- It returns another error.
  listen_failed :
      (e : String) → s.listener ≡ listening → Step cancelled s (record s { listener = sending e })
  -- `errCh <- err`, with room in the channel
  put :
      (e : String)
      → s.listener ≡ sending e
      → s.err_ch ≡ none
      → Step cancelled s (record s { listener = closing; err_ch = some e })
  -- `close(errCh)`
  close :
      s.listener ≡ closing → Step cancelled s (record s { listener = gone; err_ch_closed = true })
  -- `case <-ctx.Done()`
  select_done :
      s.waiter ≡ selecting → cancelled ≡ true → Step cancelled s (record s { waiter = shutting })
  -- `srv.Shutdown` returns
  shut :
      (r : Result (Unit {0}))
      → s.waiter ≡ shutting
      → Step cancelled s (record s { waiter = returned r })
  -- `case err := <-errCh`, with an error in the channel
  select_err :
      (e : String)
      → s.waiter ≡ selecting
      → s.err_ch ≡ some e
      → Step cancelled s (record s { err_ch = none; waiter = returned (err e) })
  -- and with the channel empty and closed
  select_closed :
      s.waiter ≡ selecting
      → s.err_ch ≡ none
      → s.err_ch_closed ≡ true
      → Step cancelled s (record s { waiter = returned (ok tt) })

-- The states that can be reached, and whether the context is cancelled there.
pub data Reach : Bool → Serving → Type 0 where
  begin : Reach false serve
  cancel : {c : Bool} {s : Serving} → Reach c s → Reach true s
  next : {c : Bool} {s t : Serving} → Reach c s → Step c s t → Reach c t
