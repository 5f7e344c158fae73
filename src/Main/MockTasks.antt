-- ===== src/Main/MockTasks.antt =====
-- The tasks that the producer of mock tasks adds.
use Prim.Native.String.{String, ◌++◌}
use package.text.Mathlib.TextLemmas.{append_cancel_left}
use forge_task_queue.Common.{
  ℕ, zero, suc, ◌+◌, ◌≤◌, ◌<◌, ◌≡◌, ◌≢◌, refl, sym, ap, ◌∙◌, List, [], ◌∷◌, length, Action, arith,
  some,
}
use forge_task_queue.Common.Int.{ℤ, pos, max_int}
use forge_task_queue.Common.Text.{decimal}
use forge_task_queue.Config.Strconv.{atoi}
use forge_task_queue.Config.Numbers.{atoi-decimal}
use forge_task_queue.Task.{Task}
use forge_task_queue.Calls.{Log, Environment, adds, recorded_store, recorded_publisher}
use forge_task_queue.Producer.{Producer, produce}
use forge_task_queue.Main.{mock_task, produce_mock_tasks}

-- Every id of the list differs from this one.
abbrev pub Fresh : String → List (String × Task) → Type 0
Fresh id [] = Unit
Fresh id ((s, t) ∷ rest) = (t.id ≢ id) × Fresh id rest

-- No two tasks of the list have the same id.
abbrev pub AllDistinct : List (String × Task) → Type 0
AllDistinct [] = Unit
AllDistinct ((s, t) ∷ rest) = Fresh t.id rest × AllDistinct rest

-- The tasks have numbers below `n`.
abbrev NumberedBelow : ℕ → List (String × Task) → Type 0
NumberedBelow n [] = Unit
NumberedBelow n ((s, t) ∷ rest) =
    ((k : ℕ) × (k < n) × (t.id ≡ "task-" ++ decimal k)) × NumberedBelow n rest

decimal-injective : (m n : ℕ) → m ≤ max_int → n ≤ max_int → decimal m ≡ decimal n → m ≡ n
decimal-injective m n hm hn e =
    let same : some (pos m) ≡ some (pos n) =
      sym (atoi-decimal m hm) ∙ ap atoi e ∙ atoi-decimal n hn in
    ground arith

NumberedBelow-suc :
    (n : ℕ) (ts : List (String × Task)) → NumberedBelow n ts → NumberedBelow (suc n) ts
NumberedBelow-suc n [] h = tt
NumberedBelow-suc n ((s, t) ∷ rest) ((k, below, e), h) =
    ((k, omega arith, e), NumberedBelow-suc n rest h)

NumberedBelow-Fresh :
    (n : ℕ) (ts : List (String × Task))
    → n ≤ max_int
    → NumberedBelow n ts
    → Fresh ("task-" ++ decimal n) ts
NumberedBelow-Fresh n [] le h = tt
NumberedBelow-Fresh n ((s, t) ∷ rest) le ((k, below, e), h) = (
  (λ same.
      let equal : k ≡ n =
        decimal-injective k n (omega arith) le
          (append_cancel_left "task-" (decimal k) (decimal n) (sym e ∙ same)) in
      absurd (omega (arith, equal, below))),
  NumberedBelow-Fresh n rest le h,
)

module _ (env : Environment) (p : Producer Log) (clock : Log → ℕ) (retries : ℤ) where
  -- The producer over a recorded environment.
  abbrev pub mocked : ℕ → ℕ → Action Log (Unit {0})
  mocked =
      produce_mock_tasks
        (record p { store = recorded_store env; publisher = recorded_publisher env })
        (λ w. (clock w, w)) retries

  produce-adds :
      (t : Task) (w : Log)
      → adds
          (produce
            (record p { store = recorded_store env; publisher = recorded_publisher env })
            t
            w).1
        ≡ (p.stream, t) ∷ adds w
  unfolding produce
  produce-adds t w = ground arith

  mocked-AllDistinct :
      (ticks n : ℕ) (w : Log)
      → n + ticks ≤ max_int
      → NumberedBelow n (adds w)
      → AllDistinct (adds w)
      → AllDistinct (adds (mocked ticks n w).1)
        × (length (adds (mocked ticks n w).1) ≡ ticks + length (adds w))
  unfolding produce_mock_tasks mock_task
  mocked-AllDistinct zero n w le h d = (d, omega arith)
  mocked-AllDistinct (suc ticks) n w le h d =
      let t : Task = mock_task n (clock w) retries in
      let one = produce-adds t w in
      let (all, count) =
        mocked-AllDistinct ticks (suc n) _ (omega arith)
          (rw one ((n, omega arith, refl), NumberedBelow-suc n (adds w) h))
          (rw one (NumberedBelow-Fresh n (adds w) (omega arith) h, d)) in
      (all, omega (arith, count, ap length one))

  -- Over fewer than 2^63 - 1 ticks, the producer of mock tasks makes one XADD in each tick, also
  -- after failures, and no two of the tasks have the same id.
  mock_tasks_lem :
      (ticks : ℕ)
      → 1 + ticks ≤ max_int
      → AllDistinct (adds (mocked ticks 1 []).1) × (length (adds (mocked ticks 1 []).1) ≡ ticks)
  mock_tasks_lem ticks le =
      let (all, count) = mocked-AllDistinct ticks 1 [] le tt tt in (all, omega (arith, count))
