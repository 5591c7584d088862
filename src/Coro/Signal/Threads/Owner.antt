-- ===== src/Coro/Signal/Threads/Owner.antt =====
-- A suspended coroutine has one owner.
use net_cpp.Prelude.{
  ℕ, suc, ◌+◌, ◌-◌, ◌<◌, ◌≡◌, refl, Bool, true, false, Option, none, some, List, [], ◌∷◌, arith,
  if◌then◌else◌, some_inj,
}
use mathlib.Core.Path.{subst}
use net_cpp.Coro.Signal.State.{State, idle, signaled, stopped, waiting}
use net_cpp.Coro.Signal.Threads.{
  Sys, Action, consume, publish, retract, release, restore, resume, stop, invoke, on_consume,
  on_publish, only, on_retract, on_release, on_stop, store, step, after, run,
}

abbrev pub registered : State → ℕ
registered waiting = 1
registered _ = 0

-- The places from which the continuation can be resumed, and the registrations that were lost.
abbrev pub owners : Sys → ℕ
owners s = registered s.word + (s.resuming + (s.invoking + s.lost))

-- A coroutine that runs has no owner; one that is suspended has exactly one.
abbrev pub Owned : Sys → Type 0
Owned s = owners s ≡ (if s.running then 0 else 1)

abbrev pub AllOwned : Option Sys → Type 0
AllOwned none = Unit {0}
AllOwned (some s) = Owned s

only-Owned : (c : Bool) (s : Sys) → (c ≡ true → Owned s) → AllOwned (only c s)
only-Owned true s h = h refl
only-Owned false s h = tt

consume-Owned : (w : State) (s : Sys) → s.word ≡ w → Owned s → Owned (on_consume w s)
consume-Owned idle s e h = h
consume-Owned signaled s e h = rw e at h
consume-Owned stopped s e h = h
consume-Owned waiting s e h = h

publish-Owned :
    (w : State) (s : Sys) → s.word ≡ w → s.running ≡ true → Owned s → Owned (on_publish w s)
publish-Owned idle s e r h = ground (arith, rw (e, r) at h)
publish-Owned signaled s e r h = ground (arith, rw (e, r) at h)
publish-Owned stopped s e r h = ground (arith, rw (e, r) at h)
publish-Owned waiting s e r h = h

retract-Owned :
    (to w : State) (s : Sys) → registered to ≡ 0 → s.word ≡ w → Owned s → Owned (on_retract to w s)
retract-Owned to waiting s n e h = rw n (ground (arith, rw e at h))
retract-Owned to idle s n e h = rw n (rw e at h)
retract-Owned to signaled s n e h = rw n (rw e at h)
retract-Owned to stopped s n e h = rw n (rw e at h)

release-Owned : (w : State) (s : Sys) → s.word ≡ w → Owned s → Owned (on_release w s)
release-Owned idle s e h = rw e at h
release-Owned signaled s e h = rw e at h
release-Owned stopped s e h = rw e at h
release-Owned waiting s e h = omega (arith, rw e at h)

stop-Owned : (w : State) (s : Sys) → s.word ≡ w → Owned s → Owned (on_stop w s)
stop-Owned idle s e h = rw e at h
stop-Owned signaled s e h = rw e at h
stop-Owned stopped s e h = rw e at h
stop-Owned waiting s e h = omega (arith, rw e at h)

restore-Owned : (w : State) (s : Sys) → s.word ≡ w → Owned s → Owned (store stopped w s)
restore-Owned idle s e h = rw e at h
restore-Owned signaled s e h = rw e at h
restore-Owned stopped s e h = rw e at h
restore-Owned waiting s e h = omega (arith, rw e at h)

-- A release that resumes a coroutine is its owner, so no registration stands in the word.
resume-Owned :
    (w : State) (s : Sys)
    → s.word ≡ w
    → 0 < s.resuming
    → Owned s
    → Owned (store idle w (record s { resuming = s.resuming - 1; invoking = suc s.invoking }))
resume-Owned idle s e p h = omega (arith, rw e at h)
resume-Owned signaled s e p h = omega (arith, rw e at h)
resume-Owned stopped s e p h = omega (arith, rw e at h)
resume-Owned waiting s e p h = ground (arith, rw e at h)

invoke-Owned :
    (s : Sys)
    → 0 < s.invoking
    → Owned s
    → Owned (record s { invoking = s.invoking - 1; running = true })
invoke-Owned s p h = ground arith

pub step-Owned : (a : Action) (s : Sys) → Owned s → AllOwned (step a s)
unfolding step
step-Owned consume s h = only-Owned _ _ (λ r. consume-Owned s.word s refl h)
step-Owned publish s h = only-Owned _ _ (λ r. publish-Owned s.word s refl r h)
step-Owned (retract idle) s h = only-Owned _ _ (λ r. retract-Owned idle s.word _ refl refl h)
step-Owned (retract stopped) s h = only-Owned _ _ (λ r. retract-Owned stopped s.word _ refl refl h)
step-Owned (retract _) s h = tt
step-Owned release s h = release-Owned s.word s refl h
step-Owned restore s h = only-Owned _ _ (λ r. restore-Owned s.word _ refl h)
step-Owned resume s h = only-Owned _ _ (λ r. resume-Owned s.word s refl (ground arith) h)
step-Owned stop s h = stop-Owned s.word s refl h
step-Owned invoke s h = only-Owned _ _ (λ r. invoke-Owned s (ground arith) h)

-- In whatever order the threads take their steps from a state where this holds, it goes on to hold
-- that a coroutine that runs has no continuation left to resume, and that the continuation of one
-- that is suspended stands in one place only: in the word, with one producer that took it, or nowhere
-- because a store has overwritten it.
pub run-Owned : (actions : List Action) (s s' : Sys) → Owned s → run actions s ≡ some s' → Owned s'
unfolding run
run-Owned [] s s' h e = subst Owned (some_inj e) h
run-Owned (a ∷ more) s s' h e =
    go (step a s) (step-Owned a s h) (λ t k f. run-Owned more t s' k f) e
  where
    go :
        (o : Option Sys)
        → AllOwned o
        → ((t : Sys) → Owned t → run more t ≡ some s' → Owned s')
        → after o (run more) ≡ some s'
        → Owned s'
    go none k ih f = absurd (none_some f)
      where
        none_some : ◌≡◌ {A = Option Sys} none (some s') → ⊥
        none_some g = cc
    go (some t) k ih f = ih t k f
