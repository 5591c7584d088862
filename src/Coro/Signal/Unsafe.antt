-- ===== src/Coro/Signal/Unsafe.antt =====
-- `UnsafeSignal`: the single-threaded tier. An operation gives first whether the coroutine is ready,
-- stays suspended or is woken.
use net_cpp.Prelude.{Bool, true, false}
use net_cpp.Coro.Signal.State.{State, idle, signaled, stopped, waiting}

-- `UnsafeSignal::await_ready`
unfoldable pub await_ready : State → Bool × State
await_ready signaled = (true, idle)
await_ready stopped = (true, stopped)
await_ready s = (false, s)

-- `UnsafeSignal::await_suspend`, which always suspends.
unfoldable pub await_suspend : State → Bool × State
await_suspend s = (true, waiting)

-- `UnsafeSignal::await_resume`
unfoldable pub await_resume : State → Bool
await_resume stopped = false
await_resume s = true

-- `UnsafeSignal::release`
unfoldable pub release : State → Bool × State
release idle = (false, signaled)
release waiting = (true, idle)
release s = (false, s)

-- `UnsafeSignal::stop`
unfoldable pub stop : State → Bool × State
stop stopped = (false, stopped)
stop waiting = (true, stopped)
stop s = (false, stopped)
