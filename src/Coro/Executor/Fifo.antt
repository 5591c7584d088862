-- ===== src/Coro/Executor/Fifo.antt =====
-- Tasks are begun in the order in which they were scheduled.
use net_cpp.Prelude.{
  ℕ, zero, suc, ◌≡◌, refl, sym, ap, ◌∙◌, ◌⊎◌, inl, inr, true, Option, none, some, List, [], ◌∷◌,
  ◌++◌, append-nil, append_assoc, Bool-cases, set, replicate,
}
use mathlib.Core.Path.{subst}
use net_cpp.Coro.Executor.{
  Worker, ready, busy, returned, Pool, create, Action, schedule, signal_stop, wake, end_task,
  on_tasks, on_ready, on_busy, step, then_step, run,
}

-- The tasks that a sequence of steps schedules.
abbrev pub scheduled : List Action → List ℕ
scheduled [] = []
scheduled (schedule t ∷ as') = t ∷ scheduled as'
scheduled (_ ∷ as') = scheduled as'

abbrev IsReturned : Worker → Type 0
IsReturned returned = Unit {0}
IsReturned _ = ⊥

abbrev pub HasReturned : List Worker → Type 0
HasReturned [] = ⊥
HasReturned (w ∷ ws) = IsReturned w ⊎ HasReturned ws

-- A pool after the tasks `all` were scheduled: those begun and then those waiting are all of them,
-- and no worker has returned unless the pool is stopped.
record Sound (all : List ℕ) (p : Pool) : Type 0 where
  order : p.begun ++ p.tasks ≡ all
  stop_seen : HasReturned p.workers → p.stop ≡ true

abbrev SoundIf : List ℕ → Option Pool → Type 0
SoundIf all none = Unit {0}
SoundIf all (some p) = Sound all p

set-HasReturned :
    (ws : List Worker) (i : ℕ) (w : Worker)
    → HasReturned (set ws i w)
    → IsReturned w ⊎ HasReturned ws
set-HasReturned [] i w h = absurd h
set-HasReturned (v ∷ ws) zero w (inl h) = inl h
set-HasReturned (v ∷ ws) zero w (inr h) = inr (inr h)
set-HasReturned (v ∷ ws) (suc i) w (inl h) = inr (inl h)
set-HasReturned (v ∷ ws) (suc i) w (inr h) = elim (set-HasReturned ws i w h) [
  | inl g ↦ inl g
  | inr g ↦ inr (inr g)
]

-- A worker that has not returned takes the place of another.
still_stopped :
    (p : Pool) (i : ℕ) (w : Worker)
    → (IsReturned w → ⊥)
    → (HasReturned p.workers → p.stop ≡ true)
    → HasReturned (set p.workers i w)
    → p.stop ≡ true
still_stopped p i w n h r = elim (set-HasReturned p.workers i w r) [
  | inl g ↦ absurd (n g)
  | inr g ↦ h g
]

on_tasks-Sound :
    (i : ℕ) (all : List ℕ) (p : Pool) (ts : List ℕ)
    → p.tasks ≡ ts
    → Sound all p
    → SoundIf all (on_tasks i p ts)
unfolding on_tasks
on_tasks-Sound i all p (t ∷ ts) e h = record {
  order = append_assoc p.begun (t ∷ []) ts ∙ ap (λ l. p.begun ++ l) (sym e) ∙ h.order;
  stop_seen = still_stopped p i (busy t) (λ z. z) h.stop_seen;
}
on_tasks-Sound i all p [] e h = elim (Bool-cases p.stop) [
  | inl s ↦ rw s (record { order = h.order; stop_seen = λ r. refl })
  | inr s ↦ rw s tt
]

on_ready-Sound :
    (i : ℕ) (all : List ℕ) (p : Pool) (w : Option Worker)
    → Sound all p
    → SoundIf all (on_ready i p w)
unfolding on_ready
on_ready-Sound i all p none h = tt
on_ready-Sound i all p (some ready) h = on_tasks-Sound i all p p.tasks refl h
on_ready-Sound i all p (some (busy t)) h = tt
on_ready-Sound i all p (some returned) h = tt

on_busy-Sound :
    (i : ℕ) (all : List ℕ) (p : Pool) (w : Option Worker)
    → Sound all p
    → SoundIf all (on_busy i p w)
unfolding on_busy
on_busy-Sound i all p none h = tt
on_busy-Sound i all p (some ready) h = tt
on_busy-Sound i all p (some (busy t)) h = record {
  order = h.order;
  stop_seen = still_stopped p i ready (λ z. z) h.stop_seen;
}
on_busy-Sound i all p (some returned) h = tt

step-Sound :
    (a : Action) (all : List ℕ) (p : Pool)
    → Sound all p
    → SoundIf (all ++ scheduled (a ∷ [])) (step a p)
unfolding step
step-Sound (schedule t) all p h = record {
  order = sym (append_assoc p.begun p.tasks (t ∷ [])) ∙ ap (λ l. l ++ (t ∷ [])) h.order;
  stop_seen = h.stop_seen;
}
step-Sound signal_stop all p h = record {
  order = h.order ∙ sym (append-nil all);
  stop_seen = λ r. refl;
}
step-Sound (wake i) all p h = rw (append-nil all) (on_ready-Sound i all p _ h)
step-Sound (end_task i) all p h = rw (append-nil all) (on_busy-Sound i all p _ h)

scheduled-cons :
    (a : Action) (as' : List Action) → scheduled (a ∷ []) ++ scheduled as' ≡ scheduled (a ∷ as')
scheduled-cons (schedule t) as' = refl
scheduled-cons signal_stop as' = refl
scheduled-cons (wake i) as' = refl
scheduled-cons (end_task i) as' = refl

run-Sound :
    (as' : List Action) (all : List ℕ) (o : Option Pool)
    → SoundIf all o
    → SoundIf (all ++ scheduled as') (then_step (run as') o)
unfolding run
run-Sound as' all none h = tt
run-Sound [] all (some p) h = rw (append-nil all) h
run-Sound (a ∷ as') all (some p) h =
    subst (λ l. SoundIf l (then_step (run as') (step a p)))
      (append_assoc all (scheduled (a ∷ [])) (scheduled as')
        ∙ ap (λ l. all ++ l) (scheduled-cons a as'))
      (run-Sound as' (all ++ scheduled (a ∷ [])) (step a p) (step-Sound a all p h))

none_returned : (n : ℕ) → HasReturned (replicate n ready) → ⊥
none_returned zero h = h
none_returned (suc n) (inl h) = h
none_returned (suc n) (inr h) = none_returned n h

create-Sound : (n : ℕ) → Sound [] (create n)
unfolding create
create-Sound n = record { order = refl; stop_seen = λ r. absurd (none_returned n r) }

-- In every run of a new pool, however its threads interleave, the tasks that were begun followed by
-- those that wait are the tasks that were scheduled, in that order: each is begun at most once, and
-- none is lost. A worker has returned only if the pool was stopped.
pub run_in_order :
    (n : ℕ) (as' : List Action) (p : Pool)
    → run as' (create n) ≡ some p
    → (p.begun ++ p.tasks ≡ scheduled as') × (HasReturned p.workers → p.stop ≡ true)
run_in_order n as' p e =
    let h =
      subst (SoundIf (scheduled as')) e (run-Sound as' [] (some (create n)) (create-Sound n)) in
    (h.order, h.stop_seen)
