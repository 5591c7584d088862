-- ===== src/Coro/Signal.antt =====
-- include/xsl/coro/signal/core.h: the two tiers of the coroutine signal.
pub mod State
pub mod Unsafe
pub mod Mpsc
pub mod Tiers
pub mod Threads
