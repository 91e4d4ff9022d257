-- ===== src/Async.antt =====
-- include/co_net/async: coroutines and what the loop keeps of them.
pub mod Scheduled
pub mod Frame
pub mod Task
