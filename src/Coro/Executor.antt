-- ===== src/Coro/Executor.antt =====
-- src/coro/core/executor.cpp, include/xsl/coro/core/executor.h: the pool of threads under interleaving.
-- A task is a number. A step is what a thread does while it holds the mutex, or the end of a task; a
-- worker that waits on the condition variable is ready just when the predicate of its wait holds,
-- since whoever makes it hold notifies behind the mutex.
use net_cpp.Prelude.{
  ℕ, zero, suc, ◌+◌, ◌-◌, ◌*◌, ◌/◌, ◌%◌, ◌^◌, ◌≤◌, ◌<◌, min, bit_and, bit_or, ◌≡◌, refl, sym, ap,
  ap₂, ◌∙◌, ◌≢◌, ◌↔◌, ◌⊎◌, inl, inr, Bool, true, false, not, ◌&&◌, ◌||◌, Option, none, some, List,
  [], ◌∷◌, ◌++◌, append-nil, append_assoc, arith, ltb, leb, ◌==◌, if◌then◌else◌, ltb→lt, lt→ltb,
  leb→le, le→leb, some_inj, ==_iff, Bool-cases, Option-cases, length, get_elem?, get_or, set, take,
  drop, replicate, length-append, length-set, get_or-set_self, get_or-set_ne, take-append,
  drop-append, length-take, length-drop, Str, codes, str_eq, str_eq→eq, str_eq_refl, eq→str_eq,
  str_eq_iff, all_below, all_below_sound,
}
mod Fifo
mod Drain
mod Tests

-- A worker in its loop: before the wait, in a task, or returned.
pub data Worker : Type 0 where
  ready : Worker
  busy : ℕ → Worker
  returned : Worker

-- `ThreadPoolExecutor::State`, with the tasks that were begun, in order.
pub record Pool : Type 0 where
  pub workers : List Worker
  pub tasks : List ℕ
  pub stop : Bool
  pub begun : List ℕ

-- `ThreadPoolExecutor(n)`
pub create : ℕ → Pool
create n = record { workers = replicate n ready; tasks = []; stop = false; begun = [] }

pub data Action : Type 0 where
  schedule : ℕ → Action
  signal_stop : Action
  wake : ℕ → Action  -- a worker leaves its wait
  end_task : ℕ → Action  -- a worker comes back from `task()`

-- The predicate of the wait, and what follows it; `none` is a worker that goes on waiting.
pub on_tasks : ℕ → Pool → List ℕ → Option Pool
on_tasks i p (t ∷ ts) =
    some (record p { workers = set p.workers i (busy t); tasks = ts; begun = p.begun ++ (t ∷ []) })
on_tasks i p [] = if p.stop then some (record p { workers = set p.workers i returned }) else none

pub on_ready : ℕ → Pool → Option Worker → Option Pool
on_ready i p (some ready) = on_tasks i p p.tasks
on_ready i p _ = none

pub on_busy : ℕ → Pool → Option Worker → Option Pool
on_busy i p (some (busy t)) = some (record p { workers = set p.workers i ready })
on_busy i p _ = none

-- A step; `none` is one that cannot be taken.
pub step : Action → Pool → Option Pool
step (schedule t) p = some (record p { tasks = p.tasks ++ (t ∷ []) })
step signal_stop p = some (record p { stop = true })
step (wake i) p = on_ready i p (get_elem? p.workers i)
step (end_task i) p = on_busy i p (get_elem? p.workers i)

abbrev then_step : (Pool → Option Pool) → Option Pool → Option Pool
then_step f none = none
then_step f (some p) = f p

pub run : List Action → Pool → Option Pool
run [] p = some p
run (a ∷ as') p = then_step (run as') (step a p)
