-- ===== src/Coro/Executor/Drain.antt =====
-- The tasks that wait are all begun, also after a stop.
use net_cpp.Prelude.{
  ℕ, zero, suc, ◌<◌, ◌≡◌, refl, sym, ◌∙◌, some, List, [], ◌∷◌, ◌++◌, append-nil, append_assoc,
  arith, length, get_elem?, set, length-set,
}
use net_cpp.Prelude.Lists.{get_elem?-lt}
use net_cpp.Coro.Executor.{
  Worker, ready, busy, Pool, Action, wake, end_task, on_tasks, on_ready, on_busy, step, run,
}

set-here :
    (ws : List Worker) (i : ℕ) (w : Worker) → i < length ws → get_elem? (set ws i w) i ≡ some w
set-here [] i w h = absurd (omega arith)
set-here (v ∷ ws) zero w h = refl
set-here (v ∷ ws) (suc i) w h = set-here ws i w (omega arith)

-- The steps of one worker through all tasks.
abbrev pub rounds : ℕ → List ℕ → List Action
rounds i [] = []
rounds i (t ∷ ts) = wake i ∷ end_task i ∷ rounds i ts

-- From a pool where some worker is ready, stopped or not, that worker alone can begin all the tasks
-- that wait, in their order, and come back to its wait.
pub drains :
    (i : ℕ) (ts : List ℕ) (p : Pool)
    → p.tasks ≡ ts
    → get_elem? p.workers i ≡ some ready
    → (p' : Pool) × (run (rounds i ts) p ≡ some p')
      × (p'.tasks ≡ [])
      × (p'.begun ≡ p.begun ++ ts)
      × (p'.stop ≡ p.stop)
      × (get_elem? p'.workers i ≡ some ready)
unfolding run step on_ready on_tasks on_busy
drains i [] p e h = (p, refl, e, sym (append-nil p.begun), refl, h)
drains i (t ∷ ts) p e h =
    let l = get_elem?-lt p.workers i ready h in
    let ws = set p.workers i (busy t) in
    let p1 : Pool = record p {
      workers = set ws i ready;
      tasks = ts;
      begun = p.begun ++ (t ∷ []);
    } in
    let here = set-here p.workers i (busy t) l in
    let back = set-here ws i ready (omega (arith, length-set p.workers i (busy t))) in
    let (p', r, a, b, c, d) = drains i ts p1 refl back in
    (p', rw (h, e) (rw here r), a, b ∙ append_assoc p.begun (t ∷ []) ts, c, d)
