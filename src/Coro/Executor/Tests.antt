-- ===== src/Coro/Executor/Tests.antt =====
-- Two workers and three tasks.
use net_cpp.Prelude.{◌≡◌, refl, true, some, List, [], ◌∷◌, ◌++◌, get_elem?}
use net_cpp.Coro.Executor.{
  ready, busy, returned, Pool, create, Action, schedule, signal_stop, wake, end_task, on_tasks,
  on_ready, on_busy, step, run,
}
use net_cpp.Coro.Executor.Fifo.{scheduled, HasReturned, run_in_order}
use net_cpp.Coro.Executor.Drain.{rounds, drains}

abbrev steps : List Action
steps =
    schedule 5 ∷ schedule 6 ∷ wake 1 ∷ wake 0 ∷ end_task 1 ∷ signal_stop ∷ wake 1 ∷ schedule 7 ∷ []

abbrev pool : Pool
pool = record { workers = busy 6 ∷ returned ∷ []; tasks = 7 ∷ []; stop = true; begun = 5 ∷ 6 ∷ [] }

reached : run steps (create 2) ≡ some pool
unfolding run step on_ready on_tasks on_busy create
reached = refl

run_in_order_example :
    (pool.begun ++ pool.tasks ≡ scheduled steps) × (HasReturned pool.workers → pool.stop ≡ true)
run_in_order_example = run_in_order 2 steps pool reached

abbrev waiting : Pool
waiting = record pool { workers = ready ∷ returned ∷ [] }

drains_example :
    (p : Pool) × (run (rounds 0 (7 ∷ [])) waiting ≡ some p)
    × (p.tasks ≡ [])
    × (p.begun ≡ waiting.begun ++ (7 ∷ []))
    × (p.stop ≡ waiting.stop)
    × (get_elem? p.workers 0 ≡ some ready)
drains_example = drains 0 (7 ∷ []) waiting refl refl
