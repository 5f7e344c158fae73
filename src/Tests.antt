-- ===== src/Tests.antt =====
-- The theorems on concrete inputs.
pub mod Values
mod Tasks
mod Consumers
mod Apis
mod Configs
mod Pools
mod Adapters
mod Groups
mod Workers
mod Pipeline
mod Replays
mod Processes
mod Deliveries
