-- ===== src/Scripts.antt =====
-- The Lua scripts of src/redis_rate_limiter/lua/, as functions of the clock, the keys, the arguments
-- and the database. A script runs alone on the server, so that it is one step.
pub mod Clock
pub mod Task
pub mod Acquire
pub mod Consume
pub mod Lease
