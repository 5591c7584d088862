-- ===== src/Sync/Spsc/Tests.antt =====
-- A queue of three values, in a buffer of four.
use net_cpp.Prelude.{ℕ, ◌≡◌, sym, Bool, true, some, List, [], ◌∷◌, ◌++◌, arith}
use mathlib.Core.Path.{subst}
use net_cpp.Sync.Spsc.{Storage, construct, push, pop_begin, pop_end, pop}
use net_cpp.Sync.Spsc.Queue.{Holds, push_room}
use net_cpp.Sync.Spsc.Pop.{pushes, pop_first, pop_interrupted, construct-Holds}

abbrev empty_queue : Storage ℕ
empty_queue = construct 3

empty-Holds : Holds 2 0 empty_queue [] []
empty-Holds = construct-Holds {A = ℕ} 2

push_room_example : (q' : Storage ℕ) × (push 7 empty_queue ≡ (true, q')) × Holds 2 0 q' [] (7 ∷ [])
push_room_example = push_room 2 0 empty_queue [] [] 7 empty-Holds (omega arith)

abbrev one_value : Storage ℕ
one_value = (pushes (7 ∷ []) empty_queue)

one-Holds : Holds 2 0 one_value [] (7 ∷ [])
one-Holds =
    let (q, e, h) = push_room 2 0 empty_queue [] [] 7 empty-Holds (omega arith) in
    subst (λ (r : Bool × Storage ℕ). Holds 2 0 r.1 [] (7 ∷ [])) (sym e) h

two-Holds : Holds 2 0 (pushes (7 ∷ 8 ∷ []) empty_queue) [] (7 ∷ 8 ∷ [])
two-Holds =
    let (q, e, h) = push_room 2 0 one_value [] (7 ∷ []) 8 one-Holds (omega arith) in
    subst (λ (r : Bool × Storage ℕ). Holds 2 0 r.1 [] (7 ∷ 8 ∷ [])) (sym e) h

abbrev full : Storage ℕ
full = pushes (7 ∷ 8 ∷ 9 ∷ []) empty_queue

full-Holds : Holds 2 0 full [] (7 ∷ 8 ∷ 9 ∷ [])
full-Holds =
    let (q, e, h) =
      push_room 2 0 (pushes (7 ∷ 8 ∷ []) empty_queue) [] (7 ∷ 8 ∷ []) 9 two-Holds (omega arith) in
    subst (λ (r : Bool × Storage ℕ). Holds 2 0 r.1 [] (7 ∷ 8 ∷ 9 ∷ [])) (sym e) h

pop_first_example : (q' : Storage ℕ) × (pop full ≡ (some 7, q')) × Holds 2 1 q' [] (8 ∷ 9 ∷ [])
pop_first_example = pop_first 2 0 full 7 (8 ∷ 9 ∷ []) full-Holds

pop_interrupted_example :
    (q1 q2 : Storage ℕ) × (more : List ℕ) × (pop_begin full ≡ (true, q1))
    × (pop_end full.head.ctl (pushes (4 ∷ 5 ∷ []) q1) ≡ (some 7, q2))
    × Holds 2 1 q2 [] ((8 ∷ 9 ∷ []) ++ more)
pop_interrupted_example = pop_interrupted 2 0 full 7 (8 ∷ 9 ∷ []) (4 ∷ 5 ∷ []) full-Holds
