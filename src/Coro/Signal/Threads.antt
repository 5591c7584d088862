-- ===== src/Coro/Signal/Threads.antt =====
-- `MPSCSignal` under threads: each atomic access to `_state` is a step of its own, and the steps of
-- any number of producers and of the one consumer come in any order. A thread that stands between
-- two of its accesses is counted by what it does next.
pub mod Owner
pub mod Lost
mod Tests
use net_cpp.Prelude.{
  ℕ, zero, suc, ◌+◌, ◌-◌, ◌*◌, ◌/◌, ◌%◌, ◌^◌, ◌≤◌, ◌<◌, min, bit_and, bit_or, ◌≡◌, refl, sym, ap,
  ap₂, ◌∙◌, ◌≢◌, ◌↔◌, ◌⊎◌, inl, inr, Bool, true, false, not, ◌&&◌, ◌||◌, Option, none, some, List,
  [], ◌∷◌, ◌++◌, append-nil, append_assoc, arith, ltb, leb, ◌==◌, if◌then◌else◌, ltb→lt, lt→ltb,
  leb→le, le→leb, some_inj, ==_iff, Bool-cases, Option-cases, length, get_elem?, get_or, set, take,
  drop, replicate, length-append, length-set, get_or-set_self, get_or-set_ne, take-append,
  drop-append, length-take, length-drop, Str, codes, str_eq, str_eq→eq, str_eq_refl, eq→str_eq,
  str_eq_iff, all_below, all_below_sound,
}
use net_cpp.Coro.Signal.State.{State, idle, signaled, stopped, waiting}

pub record Sys : Type 0 where
  pub word : State  -- `_state`
  pub running : Bool  -- the coroutine runs: no continuation of it is registered
  pub retract_idle : ℕ  -- in `await_suspend` before the second exchange, with IDLE
  pub retract_stopped : ℕ  -- the same with STOPPED
  pub restoring : ℕ  -- in `release` before the store of STOPPED
  pub resuming : ℕ  -- in `release` before the store of IDLE, with the continuation
  pub invoking : ℕ  -- before the call of the continuation
  pub lost : ℕ  -- registrations that a store has overwritten

pub data Action : Type 0 where
  consume : Action  -- the compare-exchange of `await_ready`
  publish : Action  -- the first exchange of `await_suspend`
  retract : (to : State) → Action  -- its second exchange
  release : Action  -- the exchange of `release`
  restore : Action  -- its store of STOPPED
  resume : Action  -- its store of IDLE
  stop : Action  -- the exchange of `stop`
  invoke : Action  -- `fn(h)` of `release` and of `stop`

-- What a thread goes on to after its access found `_state` as given.
abbrev pub on_consume : State → Sys → Sys
on_consume signaled s = record s { word = idle }
on_consume _ s = s

abbrev pub on_publish : State → Sys → Sys
on_publish idle s = record s { word = waiting; running = false }
on_publish signaled s = record s {
  word = waiting;
  running = false;
  retract_idle = suc s.retract_idle;
}
on_publish stopped s = record s {
  word = waiting;
  running = false;
  retract_stopped = suc s.retract_stopped;
}
on_publish waiting s = s

abbrev pub on_retract : State → State → Sys → Sys
on_retract to waiting s = record s { word = to; running = true }
on_retract to _ s = record s { word = to }

abbrev pub on_release : State → Sys → Sys
on_release stopped s = record s { word = signaled; restoring = suc s.restoring }
on_release waiting s = record s { word = signaled; resuming = suc s.resuming }
on_release _ s = record s { word = signaled }

abbrev pub on_stop : State → Sys → Sys
on_stop waiting s = record s { word = stopped; invoking = suc s.invoking }
on_stop _ s = record s { word = stopped }

-- A plain store does not look at the word: a registration that stands there is gone.
abbrev pub store : State → State → Sys → Sys
store new waiting s = record s { word = new; lost = suc s.lost }
store new _ s = record s { word = new }

abbrev pub only : Bool → Sys → Option Sys
only true s = some s
only false s = none

-- One step, `none` if no thread stands where it can take it.
pub step : Action → Sys → Option Sys
step consume s = only s.running (on_consume s.word s)
step publish s = only s.running (on_publish s.word s)
step (retract idle) s =
    only (ltb 0 s.retract_idle)
      (on_retract idle s.word (record s { retract_idle = s.retract_idle - 1 }))
step (retract stopped) s =
    only (ltb 0 s.retract_stopped)
      (on_retract stopped s.word (record s { retract_stopped = s.retract_stopped - 1 }))
step (retract _) s = none
step release s = some (on_release s.word s)
step restore s =
    only (ltb 0 s.restoring) (store stopped s.word (record s { restoring = s.restoring - 1 }))
step resume s =
    only (ltb 0 s.resuming)
      (store idle s.word (record s { resuming = s.resuming - 1; invoking = suc s.invoking }))
step stop s = some (on_stop s.word s)
step invoke s = only (ltb 0 s.invoking) (record s { invoking = s.invoking - 1; running = true })

abbrev pub after : Option Sys → (Sys → Option Sys) → Option Sys
after none k = none
after (some s) k = k s

pub run : List Action → Sys → Option Sys
unfolding step
run [] s = some s
run (a ∷ more) s = after (step a s) (run more)

-- The signal as it is constructed.
abbrev pub initial : Sys
initial = record {
  word = idle;
  running = true;
  retract_idle = 0;
  retract_stopped = 0;
  restoring = 0;
  resuming = 0;
  invoking = 0;
  lost = 0;
}
