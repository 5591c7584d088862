-- ===== src/Coro/Signal/Threads/Lost.antt =====
-- When a registration or a stop is lost.
use net_cpp.Prelude.{
  ℕ, suc, ◌+◌, ◌-◌, ◌<◌, ◌≡◌, refl, ◌≢◌, Bool, true, false, Option, none, some, List, [], ◌∷◌,
  arith, ltb, some_inj,
}
use mathlib.Core.Bool.{false≢true}
use mathlib.Core.Path.{subst}
use net_cpp.Coro.Signal.State.{State, idle, signaled, stopped, waiting}
use net_cpp.Coro.Signal.Threads.{
  Sys, Action, consume, publish, retract, release, restore, resume, stop, invoke, on_consume,
  on_publish, only, on_retract, on_release, on_stop, store, step, after, run, initial,
}
use net_cpp.Coro.Signal.Threads.Owner.{Owned, AllOwned, step-Owned}

-- A release that took STOPPED from the word stores STOPPED again without a look at the word: if the
-- coroutine has found the word idle and has suspended in between, its registration is overwritten
-- and it stays suspended.
pub restore_loses_waiter :
    (s : Sys)
    → 0 < s.restoring
    → s.running ≡ true
    → s.word ≡ idle
    → (s' : Sys) × (run (publish ∷ restore ∷ []) s ≡ some s')
      × (s'.word ≡ stopped)
      × (s'.running ≡ false)
      × (s'.lost ≡ suc s.lost)
unfolding run step
restore_loses_waiter s p r w =
    let here : ltb 0 s.restoring ≡ true = ground arith in
    let t = record s { word = waiting; running = false; restoring = s.restoring - 1 } in
    (record t { word = stopped; lost = suc t.lost }, rw (r, w) (rw here), refl, refl, refl)

-- A coroutine that is resumed and finds the word idle suspends when it waits.
resumed_suspends :
    (s : Sys)
    → s.word ≡ idle
    → 0 < s.invoking
    → (u : Sys) × (run (invoke ∷ consume ∷ publish ∷ []) s ≡ some u)
      × (u.word ≡ waiting)
      × (u.running ≡ false)
unfolding run step
resumed_suspends s w p =
    let here : ltb 0 s.invoking ≡ true = ground arith in
    let t = record s { word = waiting; running = false; invoking = s.invoking - 1 } in
    (t, rw (here, w), refl, refl)

-- A release that took the registration from the word stores IDLE without a look at the word: a stop
-- that comes in between does set STOPPED, but then the word is IDLE again, and the coroutine that is
-- resumed finds no stop and suspends when it waits next, although a stop is meant to be sticky.
pub resume_forgets_stop :
    (s : Sys)
    → 0 < s.resuming
    → (t s' u : Sys) × (step stop s ≡ some t)
      × (t.word ≡ stopped)
      × (step resume t ≡ some s')
      × (s'.word ≡ idle)
      × (run (invoke ∷ consume ∷ publish ∷ []) s' ≡ some u)
      × (u.word ≡ waiting)
      × (u.running ≡ false)
unfolding run step
resume_forgets_stop s p = forget s.word
  where
    here : ltb 0 s.resuming ≡ true
    here = ground arith

    freed : Sys → Sys
    freed t = record t { word = idle; resuming = t.resuming - 1; invoking = suc t.invoking }

    forget :
        (w : State)
        → (t s' u : Sys) × (some (on_stop w s) ≡ some t)
          × (t.word ≡ stopped)
          × (step resume t ≡ some s')
          × (s'.word ≡ idle)
          × (run (invoke ∷ consume ∷ publish ∷ []) s' ≡ some u)
          × (u.word ≡ waiting)
          × (u.running ≡ false)
    forget idle =
        let t = on_stop idle s in
        let (u, e, f, g) = resumed_suspends (freed t) refl (omega arith) in
        (t, freed t, u, refl, refl, rw here, refl, e, f, g)
    forget signaled =
        let t = on_stop signaled s in
        let (u, e, f, g) = resumed_suspends (freed t) refl (omega arith) in
        (t, freed t, u, refl, refl, rw here, refl, e, f, g)
    forget stopped =
        let t = on_stop stopped s in
        let (u, e, f, g) = resumed_suspends (freed t) refl (omega arith) in
        (t, freed t, u, refl, refl, rw here, refl, e, f, g)
    forget waiting =
        let t = on_stop waiting s in
        let (u, e, f, g) = resumed_suspends (freed t) refl (omega arith) in
        (t, freed t, u, refl, refl, rw here, refl, e, f, g)

-- The traces of a stop.
abbrev traces : State → ℕ
traces stopped = 1
traces _ = 0

abbrev Calm : Sys → Type 0
Calm s = traces s.word + (s.retract_stopped + (s.restoring + s.lost)) ≡ 0

abbrev AllCalm : Option Sys → Type 0
AllCalm none = Unit {0}
AllCalm (some s) = Calm s

abbrev pub no_stop : List Action → Bool
no_stop [] = true
no_stop (stop ∷ more) = false
no_stop (_ ∷ more) = no_stop more

only-AllCalm : (c : Bool) (s : Sys) → (c ≡ true → Calm s) → AllCalm (only c s)
only-AllCalm true s h = h refl
only-AllCalm false s h = tt

on_consume-Calm : (w : State) (s : Sys) → s.word ≡ w → Calm s → Calm (on_consume w s)
on_consume-Calm idle s e h = h
on_consume-Calm signaled s e h = rw e at h
on_consume-Calm stopped s e h = h
on_consume-Calm waiting s e h = h

on_publish-Calm : (w : State) (s : Sys) → s.word ≡ w → Calm s → Calm (on_publish w s)
on_publish-Calm idle s e h = rw e at h
on_publish-Calm signaled s e h = rw e at h
on_publish-Calm stopped s e h = absurd (ground (arith, rw e at h))
on_publish-Calm waiting s e h = h

on_retract-Calm : (w : State) (s : Sys) → s.word ≡ w → Calm s → Calm (on_retract idle w s)
on_retract-Calm idle s e h = rw e at h
on_retract-Calm signaled s e h = rw e at h
on_retract-Calm stopped s e h = absurd (ground (arith, rw e at h))
on_retract-Calm waiting s e h = rw e at h

on_release-Calm : (w : State) (s : Sys) → s.word ≡ w → Calm s → Calm (on_release w s)
on_release-Calm idle s e h = rw e at h
on_release-Calm signaled s e h = rw e at h
on_release-Calm stopped s e h = absurd (ground (arith, rw e at h))
on_release-Calm waiting s e h = rw e at h

-- The store of IDLE finds no registration, since the release that makes it owns the only one.
store-Calm : (w : State) (s : Sys) → s.word ≡ w → w ≢ waiting → Calm s → Calm (store idle w s)
store-Calm idle s e n h = rw e at h
store-Calm signaled s e n h = rw e at h
store-Calm stopped s e n h = absurd (ground (arith, rw e at h))
store-Calm waiting s e n h = absurd (n refl)

owner_elsewhere : (s : Sys) → 0 < s.resuming → Owned s → s.word ≢ waiting
owner_elsewhere s p o e = ground (arith, rw e at o)

step-Calm : (a : Action) (s : Sys) → no_stop (a ∷ []) ≡ true → Owned s → Calm s → AllCalm (step a s)
unfolding step
step-Calm consume s n o h = only-AllCalm _ _ (λ r. on_consume-Calm s.word s refl h)
step-Calm publish s n o h = only-AllCalm _ _ (λ r. on_publish-Calm s.word s refl h)
step-Calm (retract idle) s n o h = only-AllCalm _ _ (λ r. on_retract-Calm s.word _ refl h)
step-Calm (retract stopped) s n o h = only-AllCalm _ _ (λ r. absurd (ground arith))
step-Calm (retract _) s n o h = tt
step-Calm release s n o h = on_release-Calm s.word s refl h
step-Calm restore s n o h = only-AllCalm _ _ (λ r. absurd (ground arith))
step-Calm resume s n o h =
    only-AllCalm _ _ (λ r. store-Calm s.word _ refl (owner_elsewhere s (ground arith) o) h)
step-Calm stop s n o h = absurd (false≢true n)
step-Calm invoke s n o h = only-AllCalm _ _ (λ r. h)

no_stop-split :
    (a : Action) (more : List Action)
    → no_stop (a ∷ more) ≡ true
    → (no_stop (a ∷ []) ≡ true) × (no_stop more ≡ true)
no_stop-split stop more h = absurd (false≢true h)
no_stop-split _ more h = (refl, h)

run-Calm :
    (actions : List Action) (s s' : Sys)
    → no_stop actions ≡ true
    → Owned s
    → Calm s
    → run actions s ≡ some s'
    → Calm s'
unfolding run
run-Calm [] s s' n o h e = subst Calm (some_inj e) h
run-Calm (a ∷ more) s s' n o h e =
    let (first, others) = no_stop-split a more n in
    go (step a s) (step-Owned a s o) (step-Calm a s first o h)
      (λ t k c f. run-Calm more t s' others k c f) e
  where
    go :
        (r : Option Sys)
        → AllOwned r
        → AllCalm r
        → ((t : Sys) → Owned t → Calm t → run more t ≡ some s' → Calm s')
        → after r (run more) ≡ some s'
        → Calm s'
    go none k c ih f = absurd (none_some f)
      where
        none_some : ◌≡◌ {A = Option Sys} none (some s') → ⊥
        none_some g = cc
    go (some t) k c ih f = ih t k c f

Calm-lost : (s : Sys) → Calm s → (s.lost ≡ 0) × (s.word ≢ stopped)
Calm-lost s h = (omega arith, λ e. ground (arith, rw e at h))

-- Without a stop no registration is ever lost: whatever the order of the steps from a new signal, no
-- store overwrites a waiter, and the word does not become STOPPED.
pub no_stop-lost :
    (actions : List Action) (s : Sys)
    → no_stop actions ≡ true
    → run actions initial ≡ some s
    → (s.lost ≡ 0) × (s.word ≢ stopped)
no_stop-lost actions s n e = Calm-lost s (run-Calm actions initial s n refl refl e)
