-- ===== src/Async.antt =====
-- pkg/async: tasks with retries, and the worker pool.
pub mod Task
pub mod Pool
