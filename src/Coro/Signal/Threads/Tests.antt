-- ===== src/Coro/Signal/Threads/Tests.antt =====
-- Runs of the signal under threads.
use net_cpp.Prelude.{◌<◌, ◌≡◌, refl, ◌≢◌, false, some, List, [], ◌∷◌, arith}
use net_cpp.Coro.Signal.State.{idle, signaled, stopped, waiting}
use net_cpp.Coro.Signal.Threads.{
  Sys, Action, consume, publish, release, restore, resume, stop, invoke, step, run, initial,
}
use net_cpp.Coro.Signal.Threads.Owner.{Owned, run-Owned}
use net_cpp.Coro.Signal.Threads.Lost.{restore_loses_waiter, resume_forgets_stop, no_stop-lost}

-- A waiter that a producer resumes.
abbrev woken : List Action
woken = publish ∷ release ∷ resume ∷ invoke ∷ []

woken_test : run woken initial ≡ some initial
unfolding run step
woken_test = refl

run-Owned_example : Owned initial
run-Owned_example = run-Owned woken initial initial refl woken_test

no_stop-lost_example : (initial.lost ≡ 0) × (initial.word ≢ stopped)
no_stop-lost_example = no_stop-lost woken initial refl woken_test

-- A producer has taken STOPPED from the word, and the coroutine has found the signal since.
abbrev restoring_sys : Sys
restoring_sys = record initial { restoring = 1 }

restoring_test : run (stop ∷ release ∷ consume ∷ []) initial ≡ some restoring_sys
unfolding run step
restoring_test = refl

one_restoring : 0 < restoring_sys.restoring
one_restoring = omega arith

restore_loses_waiter_example :
    (s' : Sys) × (run (publish ∷ restore ∷ []) restoring_sys ≡ some s')
    × (s'.word ≡ stopped)
    × (s'.running ≡ false)
    × (s'.lost ≡ 1)
restore_loses_waiter_example = restore_loses_waiter restoring_sys one_restoring refl refl

abbrev resuming_sys : Sys
resuming_sys = record initial { word = signaled; running = false; resuming = 1 }

resuming_test : run (publish ∷ release ∷ []) initial ≡ some resuming_sys
unfolding run step
resuming_test = refl

one_resuming : 0 < resuming_sys.resuming
one_resuming = omega arith

resume_forgets_stop_example :
    (t s' u : Sys) × (step stop resuming_sys ≡ some t)
    × (t.word ≡ stopped)
    × (step resume t ≡ some s')
    × (s'.word ≡ idle)
    × (run (invoke ∷ consume ∷ publish ∷ []) s' ≡ some u)
    × (u.word ≡ waiting)
    × (u.running ≡ false)
resume_forgets_stop_example = resume_forgets_stop resuming_sys one_resuming
