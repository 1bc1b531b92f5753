-- ===== src/Tests/Support.antt =====
-- Shutdown, replicas, errors, answers, tokens and the pool at concrete values.
mod Sorting
mod App
mod Tokens
pub mod Pool
