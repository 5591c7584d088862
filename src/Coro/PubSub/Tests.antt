-- ===== src/Coro/PubSub/Tests.antt =====
-- A read signal whose consumer waits, and a write signal.
use net_cpp.Prelude.{ℕ, ◌≡◌, refl, Bool, true, false, [], ◌∷◌, ◌==◌}
use net_cpp.Coro.Signal.State.{idle, waiting}
use net_cpp.Coro.PubSub.{Signals, publish, stop, epoll_handle}
use net_cpp.Coro.PubSub.Wakes.{waiters, any_key, released, all_stopped, publish_lem, stop_lasts}
use net_cpp.Coro.Signal.Mpsc

abbrev signals : Signals
signals = (1, waiting) ∷ (4, idle) ∷ []

abbrev is_read : ℕ → Bool
is_read k = k == 1

publish_lem_example :
    publish is_read signals
    ≡ (any_key is_read signals, waiters is_read signals, released is_read signals)
publish_lem_example = publish_lem is_read signals

stop_lasts_example :
    ((stop signals).1 ≡ waiters (λ k. true) signals)
    × ((stop signals).2 ≡ all_stopped signals)
    × ((publish is_read (stop signals).2).1 ≡ [])
    × ((publish is_read (stop signals).2).2 ≡ all_stopped signals)
stop_lasts_example = stop_lasts is_read signals

-- An event that reads wakes the reader, and a hang-up deletes the handler.
read_test : epoll_handle 1 signals ≡ (false, 1 ∷ [], (1, idle) ∷ (4, idle) ∷ [])
unfolding epoll_handle publish Mpsc.release
read_test = refl

hup_test : epoll_handle 17 signals ≡ (true, [], signals)
unfolding epoll_handle publish
hup_test = refl
