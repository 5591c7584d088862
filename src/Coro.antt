-- ===== src/Coro.antt =====
-- The coroutine runtime, include/xsl/coro.
pub mod Signal
pub mod Channel
pub mod Executor
pub mod PubSub
