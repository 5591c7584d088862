-- ===== src/Coro/PubSub/Wakes.antt =====
-- Who is woken.
use net_cpp.Prelude.{
  ℕ, ◌≡◌, refl, ap, ◌∙◌, inl, inr, Bool, true, false, ◌&&◌, ◌||◌, List, [], ◌∷◌, arith,
  if◌then◌else◌, Bool-cases,
}
use net_cpp.Coro.Signal.State.{State, idle, signaled, stopped, waiting}
use net_cpp.Coro.Signal.Mpsc
use net_cpp.Coro.PubSub.{Signals, Published, in_front, found, publish, stop}

abbrev pub is_waiting : State → Bool
is_waiting waiting = true
is_waiting s = false

-- The keys that satisfy the predicate and whose consumers wait.
abbrev pub waiters : (ℕ → Bool) → Signals → List ℕ
waiters pred [] = []
waiters pred ((k, s) ∷ m) =
    let rest = waiters pred m in if pred k && is_waiting s then k ∷ rest else rest

abbrev pub any_key : (ℕ → Bool) → Signals → Bool
any_key pred [] = false
any_key pred ((k, s) ∷ m) = pred k || any_key pred m

-- A release of each signal whose key satisfies the predicate.
abbrev pub released : (ℕ → Bool) → Signals → Signals
released pred [] = []
released pred ((k, s) ∷ m) = (k, if pred k then (Mpsc.release s).1 else s) ∷ released pred m

in_front-release :
    (k : ℕ) (s : State) (b : Bool) (ws : List ℕ) (m : Signals)
    → in_front k (Mpsc.release s) (b, ws, m)
      ≡ (b, (if is_waiting s then k ∷ ws else ws), (k, (Mpsc.release s).1) ∷ m)
unfolding Mpsc.release
in_front-release k idle b ws m = refl
in_front-release k signaled b ws m = refl
in_front-release k stopped b ws m = refl
in_front-release k waiting b ws m = refl

-- A `publish` that nothing interrupts wakes just the consumers that wait at keys which satisfy the predicate, in the order of
-- the keys; it releases the signals of these keys and leaves the others as they are; and it tells
-- whether there is such a key.
pub publish_lem :
    (pred : ℕ → Bool) (m : Signals)
    → publish pred m ≡ (any_key pred m, waiters pred m, released pred m)
unfolding publish
publish_lem pred [] = refl
publish_lem pred ((k, s) ∷ m) = elim (Bool-cases (pred k)) [
  | inl e ↦ rw (e, publish_lem pred m) (ap found (in_front-release k s _ _ _))
  | inr e ↦ rw (e, publish_lem pred m) refl
]

abbrev pub all_stopped : Signals → Signals
all_stopped [] = []
all_stopped ((k, s) ∷ m) = (k, stopped) ∷ all_stopped m

in_front-stop :
    (k : ℕ) (s : State) (b : Bool) (ws : List ℕ) (m : Signals)
    → in_front k (Mpsc.stop s) (b, ws, m)
      ≡ (b, (if is_waiting s then k ∷ ws else ws), (k, stopped) ∷ m)
unfolding Mpsc.stop
in_front-stop k idle b ws m = refl
in_front-stop k signaled b ws m = refl
in_front-stop k stopped b ws m = refl
in_front-stop k waiting b ws m = refl

stop-all : (m : Signals) → stop m ≡ (false, waiters (λ k. true) m, all_stopped m)
unfolding stop
stop-all [] = refl
stop-all ((k, s) ∷ m) = rw (stop-all m) (in_front-stop k s _ _ _)

released_stopped : (pred : ℕ → Bool) (m : Signals) → released pred (all_stopped m) ≡ all_stopped m
unfolding Mpsc.release
released_stopped pred [] = refl
released_stopped pred ((k, s) ∷ m) = elim (Bool-cases (pred k)) [
  | inl e ↦ rw e (ap (λ l. (k, stopped) ∷ l) (released_stopped pred m))
  | inr e ↦ rw e (ap (λ l. (k, stopped) ∷ l) (released_stopped pred m))
]

no_waiters : (pred : ℕ → Bool) (m : Signals) → waiters pred (all_stopped m) ≡ []
no_waiters pred [] = refl
no_waiters pred ((k, s) ∷ m) =
    let none_waits : (pred k && false) ≡ false = ground arith in rw none_waits (no_waiters pred m)

-- A `stop` that nothing interrupts wakes every consumer that waits, in the order of the keys, and
-- stops every signal. A `publish` that begins after it has ended, and that nothing interrupts, wakes
-- nobody and leaves the signals stopped.
pub stop_lasts :
    (pred : ℕ → Bool) (m : Signals)
    → ((stop m).1 ≡ waiters (λ k. true) m)
      × ((stop m).2 ≡ all_stopped m)
      × ((publish pred (stop m).2).1 ≡ [])
      × ((publish pred (stop m).2).2 ≡ all_stopped m)
stop_lasts pred m =
    let signals : (stop m).2 ≡ all_stopped m = ap (λ (r : Published). r.2) (stop-all m) in
    let later = publish_lem pred (all_stopped m) in
    (
      ap (λ (r : Published). r.1) (stop-all m),
      signals,
      ap (λ (s : Signals). (publish pred s).1) signals
          ∙ ap (λ (r : Published). r.1) later
          ∙ no_waiters pred m,
      ap (λ (s : Signals). (publish pred s).2) signals
          ∙ ap (λ (r : Published). r.2) later
          ∙ released_stopped pred m,
    )
