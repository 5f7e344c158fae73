-- ===== src/Task/Defs.antt =====
-- The types of task/task.go.
use Prim.Native.String.{String}
use forge_task_queue.Common.{ℕ, Option, ◌≡◌, refl, ◌⊎◌, inl, inr}
use forge_task_queue.Common.Int.{ℤ}
use forge_task_queue.Task.Json.{JsonText}

-- Priority levels for task scheduling.
abbrev pub priority_high : String
priority_high = "high"

abbrev pub priority_normal : String
priority_normal = "normal"

abbrev pub priority_low : String
priority_low = "low"

-- A unit of work. `payload` is `none` for a nil `json.RawMessage`; `created_at` is an instant, as a
-- number that `TimeFormat` reads and writes; `timeout` is `none` for a nil pointer, and counts
-- nanoseconds.
pub record Task : Type 0 where
  pub id : String
  pub type : String
  pub payload : Option JsonText
  pub created_at : ℕ
  pub max_retries : ℤ
  pub current_retries : ℤ
  pub error : String
  pub idempotency_key : String
  pub priority : String
  pub timeout : Option ℤ

-- A state change of a task.
pub record Event : Type 0 where
  pub type : String
  pub task_id : String
  pub worker_id : String

-- A value, or an error with its message.
pub data Result (A : Type 0) : Type 0 where
  ok : A → Result A
  err : String → Result A

pub Result-cases :
    {A : Type 0} (r : Result A) → ((e : String) × (r ≡ err e)) ⊎ ((a : A) × (r ≡ ok a))
Result-cases (err e) = inl (e, refl)
Result-cases (ok a) = inr (a, refl)
