-- ===== src/Examples.antt =====
-- The theorems at concrete inputs, on the database in memory.
pub mod Data
mod Scripts
mod Limiters
mod Managed
mod Threads
mod Python
mod System
mod Async
mod Asgi
mod Backends
mod Brokers
mod Acquire
mod Lifespan
mod Shutdown
mod Reports
mod Metrics
