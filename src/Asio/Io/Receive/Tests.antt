-- ===== src/Asio/Io/Receive/Tests.antt =====
-- A read after a wait.
use net_cpp.Prelude.{◌≤◌, ◌<◌, ◌≡◌, ◌↔◌, true, some, List, [], ◌∷◌, ◌++◌, arith, length, codes}
use net_cpp.Errc.{ok}
use net_cpp.Asio.Io.Receive.{Arrival, bytes, closed, blocked, Received, recv}
use net_cpp.Asio.Io.Receive.Laws.{all_bytes, Pieces, recv-Right}

abbrev arrivals : List Arrival
arrivals = blocked true ∷ bytes (codes "hello") ∷ closed ∷ []

pieces : Pieces arrivals
pieces = (omega arith, tt)

recv-Right_example :
    (r : Received) × (recv arrivals 3 ≡ some r)
    × (length r.text ≡ r.result.size)
    × (r.result.size ≤ 3)
    × (r.text ++ all_bytes r.rest ≡ all_bytes arrivals)
    × ((r.result.ec ≡ ok) ↔ (0 < r.result.size))
recv-Right_example = recv-Right arrivals 3 pieces tt (omega arith)
