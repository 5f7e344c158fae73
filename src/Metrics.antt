-- ===== src/Metrics.antt =====
-- metrics/metrics.go: the counters of the program, each through the call by which the code changes
-- it. The observed durations are left out.
use Prim.Native.String.{String}
use forge_task_queue.Common.{Action}

pub record Metrics (W : Type 0) : Type 0 where
  -- TasksProcessedTotal: task type, status
  pub tasks_processed : String → String → Action W (Unit {0})
  -- TasksFailedTotal, TasksDLQTotal, TaskDurationSeconds: task type
  pub tasks_failed : String → Action W (Unit {0})
  pub tasks_dlq : String → Action W (Unit {0})
  pub task_duration : String → Action W (Unit {0})
  pub worker_panics : Action W (Unit {0})
  pub tasks_duplicate : Action W (Unit {0})
