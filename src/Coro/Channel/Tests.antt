-- ===== src/Coro/Channel/Tests.antt =====
-- A channel for one value, in a buffer of two.
use net_cpp.Prelude.{ℕ, ◌≡◌, refl, sym, Bool, true, false, some, [], ◌∷◌, arith}
use mathlib.Core.Path.{subst}
use net_cpp.Sync.Spsc.{Storage, construct}
use net_cpp.Sync.Spsc.Queue.{Holds, push_room}
use net_cpp.Sync.Spsc.Pop.{pushes, construct-Holds}
use net_cpp.Coro.Channel.{Channel, suspended, await, await_resume, push}
use net_cpp.Coro.Channel.Wakeup.{push_wakes}

abbrev new_channel : Channel ℕ
new_channel = record { queue = construct 1; callback = false; closed = false }

new-Holds : Holds 1 0 new_channel.queue [] []
new-Holds = construct-Holds {A = ℕ} 1

abbrev waiting_channel : Channel ℕ
waiting_channel = record new_channel { callback = true }

waiting_test : await new_channel ≡ (suspended, waiting_channel)
unfolding await
waiting_test = refl

push_wakes_example :
    (c' c'' : Channel ℕ) × (push 7 waiting_channel ≡ (true, (true, c')))
    × (await_resume c' ≡ (some 7, c''))
    × Holds 1 1 c''.queue [] []
    × (c''.callback ≡ false)
push_wakes_example = push_wakes 1 0 waiting_channel 7 new-Holds refl refl (omega arith)

abbrev filled : Channel ℕ
filled = record { queue = pushes (7 ∷ []) (construct 1); callback = false; closed = true }

filled-Holds : Holds 1 0 filled.queue [] (7 ∷ [])
filled-Holds =
    let (q, e, h) = push_room 1 0 (construct {A = ℕ} 1) [] [] 7 new-Holds (omega arith) in
    subst (λ (r : Bool × Storage ℕ). Holds 1 0 r.1 [] (7 ∷ [])) (sym e) h
