-- ===== src/Api/Server/Serving/Ends.antt =====
-- How `Start` of the server ends.
use Prim.Native.String.{String}
use forge_task_queue.Common.{◌≡◌, ◌≢◌, refl, ◌⊎◌, inl, Bool, true, Option, none, some, arith}
use forge_task_queue.Task.{ok, err}
use forge_task_queue.Api.Server.Serving.{
  Listener, listening, sending, closing, gone, Waiter, selecting, shutting, returned, Serving,
  serve, Step, listen_closed, listen_failed, put, close, select_done, shut, select_err,
  select_closed, Reach, begin, cancel, next,
}

-- What the waiter's place and the goroutine's say of each other and of the context.
record Invariant (c : Bool) (s : Serving) : Type 0 where
  room : (e : String) → s.listener ≡ sending e → s.err_ch ≡ none
  early : s.listener ≡ listening → s.err_ch ≡ none
  last : s.err_ch_closed ≡ true → s.listener ≡ gone
  told : s.waiter ≡ selecting → (s.listener ≡ gone) ⊎ (s.listener ≡ closing) → s.err_ch ≢ none
  done : s.waiter ≡ shutting → c ≡ true
  over : s.waiter ≡ returned (ok tt) → c ≡ true

Step-Invariant : {c : Bool} {s t : Serving} → Step c s t → Invariant c s → Invariant c t
Step-Invariant (listen_closed l w) i = grind arith
Step-Invariant (listen_failed e l) i = grind arith
Step-Invariant (put e l r) i = grind arith
Step-Invariant (close l) i = grind arith
Step-Invariant (select_done w d) i = grind arith
Step-Invariant (shut r w) i = grind arith
Step-Invariant (select_err e w h) i = grind arith
Step-Invariant (select_closed w h d) i = grind arith

Reach-Invariant : {c : Bool} {s : Serving} → Reach c s → Invariant c s
unfolding serve
Reach-Invariant begin = ground arith
Reach-Invariant (cancel r) = let i = Reach-Invariant r in grind arith
Reach-Invariant (next r s) = Step-Invariant s (Reach-Invariant r)

-- A goroutine that is about to send finds room in the channel.
abbrev pub HasRoom : Listener → Option String → Type 0
HasRoom (sending e) ch = ch ≡ none
HasRoom _ ch = Unit

-- `Start` finds an error where it waits and the goroutine has returned; it shuts down, and returns
-- nil, only after the cancellation.
abbrev pub EndsWell : Bool → Waiter → Listener → Option String → Type 0
EndsWell c selecting gone ch = (e : String) × (ch ≡ some e)
EndsWell c selecting _ ch = Unit
EndsWell c shutting l ch = c ≡ true
EndsWell c (returned (ok _)) l ch = c ≡ true
EndsWell c (returned (err _)) l ch = Unit

held : (o : Option String) → o ≢ none → (e : String) × (o ≡ some e)
held none h = absurd (h refl)
held (some e) h = (e, refl)

room_found :
    {c : Bool} {s : Serving} → Invariant c s → (l : Listener) → s.listener ≡ l → HasRoom l s.err_ch
room_found i listening h = tt
room_found i (sending e) h = i.room e h
room_found i closing h = tt
room_found i gone h = tt

well_ended :
    {c : Bool} {s : Serving}
    → Invariant c s
    → (v : Waiter) (l : Listener) → s.waiter ≡ v
    → s.listener ≡ l
    → EndsWell c v l s.err_ch
well_ended i selecting gone w l = held _ (i.told w (inl l))
well_ended i selecting closing w l = tt
well_ended i selecting listening w l = tt
well_ended i selecting (sending e) w l = tt
well_ended i shutting m w l = i.done w
well_ended i (returned (ok tt)) m w l = i.over w
well_ended i (returned (err e)) m w l = tt

-- However the server's goroutine, its Start and the cancellation interleave: a goroutine that is
-- about to send its error finds the channel empty; where Start still waits and the goroutine has
-- returned, the channel holds an error; and Start shuts the server down, and returns without an
-- error, only after the cancellation.
pub Reach-EndsWell :
    {c : Bool} {s : Serving}
    → Reach c s
    → HasRoom s.listener s.err_ch × EndsWell c s.waiter s.listener s.err_ch
Reach-EndsWell {s} r =
    let i = Reach-Invariant r in
    (room_found i s.listener refl, well_ended i s.waiter s.listener refl refl)
