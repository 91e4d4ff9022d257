-- ===== src/Context.antt =====
-- include/co_net/context: the task loop, the workers and the main loop.
pub mod Loops
pub mod Process
pub mod Flight
pub mod Workers
pub mod Spawn
pub mod TaskLoop
pub mod Accept
pub mod Startup
pub mod Traits
