-- ===== src/Coro/Signal/Mpsc.antt =====
-- `MPSCSignal`: the atomic tier, each operation run without interruption. An operation gives first
-- whether the coroutine is ready, stays suspended or is woken.
use net_cpp.Prelude.{Bool, true, false, not, ◌||◌, if◌then◌else◌}
use net_cpp.Coro.Signal.State.{State, idle, signaled, stopped, waiting}

-- `_state.exchange(new)`
abbrev pub exchange : State → State → State × State
exchange new s = (s, new)

-- `_state.compare_exchange_strong(expected, new)`, of which only the effect is used.
abbrev pub is_signaled : State → Bool
is_signaled signaled = true
is_signaled s = false

abbrev pub is_stopped : State → Bool
is_stopped stopped = true
is_stopped s = false

abbrev pub is_waiting : State → Bool
is_waiting waiting = true
is_waiting s = false

abbrev pub is_idle : State → Bool
is_idle idle = true
is_idle s = false

abbrev pub compare_exchange : State → State → State
compare_exchange new s = if is_signaled s then new else s

-- `MPSCSignal::await_ready`
unfoldable pub await_ready : State → Bool × State
await_ready s = if is_signaled s then (true, compare_exchange idle s) else (is_stopped s, s)

-- `MPSCSignal::await_suspend`: whether the coroutine stays suspended.
unfoldable pub await_suspend : State → Bool × State
await_suspend s =
    let (old, s1) = exchange waiting s in
    let (got, s2) = exchange (if is_stopped old then stopped else idle) s1 in
    if is_idle old then (true, s1) else (not (is_waiting got), s2)

-- `MPSCSignal::await_resume`
unfoldable pub await_resume : State → Bool
await_resume s = not (is_stopped s)

-- `MPSCSignal::release`
unfoldable pub release : State → Bool × State
release s =
    let (old, s1) = exchange signaled s in
    if is_idle old || is_signaled old
    then (false, s1)
    else if is_stopped old
    then (false, stopped)
    else (true, idle)

-- `MPSCSignal::stop`
unfoldable pub stop : State → Bool × State
stop s = let (old, s1) = exchange stopped s in (is_waiting old, s1)
