-- ===== src/Task.antt =====
-- task/task.go and task/store.go: the task and its JSON form, the interfaces of the services,
-- a world that records the calls made through them.
mod Defs
pub mod Json
pub mod Codec
pub mod Store
pub use Defs.*
