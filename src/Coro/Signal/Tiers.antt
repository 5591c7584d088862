-- ===== src/Coro/Signal/Tiers.antt =====
-- The two tiers are one state machine.
use net_cpp.Prelude.{◌≡◌, refl, ◌≢◌, Bool, false, if◌then◌else◌}
use net_cpp.Coro.Signal.State.{State, idle, signaled, stopped, waiting}
use net_cpp.Coro.Signal.Unsafe
use net_cpp.Coro.Signal.Mpsc

-- What a consumer calls when it awaits: the second call only if the first did not find it ready.
-- The result is whether the coroutine stays suspended.
abbrev pub await_by : (State → Bool × State) → (State → Bool × State) → State → Bool × State
await_by ready suspend s = let (r, s1) = ready s in if r then (false, s1) else suspend s1

-- Without interruption the atomic tier does what the single-threaded tier does, for every operation
-- of a producer in every state, and for an await unless one is outstanding already: the same new
-- state, the same decision to suspend or to wake, the same result.
pub await_agrees :
    (s : State)
    → s ≢ waiting
    → await_by Mpsc.await_ready Mpsc.await_suspend s
      ≡ await_by Unsafe.await_ready Unsafe.await_suspend s
unfolding Mpsc.await_ready Mpsc.await_suspend Unsafe.await_ready Unsafe.await_suspend
await_agrees idle h = refl
await_agrees signaled h = refl
await_agrees stopped h = refl
await_agrees waiting h = absurd (h refl)

-- For the other operations the same holds in every state: the result of an await, whether a coroutine
-- is woken, and the new state.
producers_agree :
    (s : State)
    → (Mpsc.await_resume s ≡ Unsafe.await_resume s)
      × (Mpsc.release s ≡ Unsafe.release s)
      × (Mpsc.stop s ≡ Unsafe.stop s)
unfolding Mpsc.await_resume Mpsc.release Mpsc.stop Unsafe.await_resume Unsafe.release Unsafe.stop
producers_agree idle = (refl, refl, refl)
producers_agree signaled = (refl, refl, refl)
producers_agree stopped = (refl, refl, refl)
producers_agree waiting = (refl, refl, refl)
