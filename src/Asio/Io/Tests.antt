-- ===== src/Asio/Io/Tests.antt =====
-- Writes on short courses of calls.
use net_cpp.Prelude.{
  ◌≤◌, ◌<◌, ◌≡◌, refl, true, some, List, [], ◌∷◌, arith, length, take, drop, Str, codes,
}
use net_cpp.Errc.{ok}
use net_cpp.Asio.Io.{
  Turn, room, blocked, fault, Sent, ends, then_wire, send_from, send, joined, sendv, opened,
  send_file,
}
use net_cpp.Asio.Io.Whole.{Works, send-Good}
use net_cpp.Asio.Io.Chunks.{sendv-send}
use net_cpp.Asio.Io.Files.{send_file-send}

abbrev hello : Str
hello = codes "hello"

abbrev turns : List Turn
turns = room 2 ∷ blocked true ∷ room 9 ∷ room 1 ∷ room 1 ∷ room 1 ∷ room 1 ∷ []

send-Good_example :
    (s : Sent) × (send turns hello ≡ some s)
    × (s.result.size ≤ length hello)
    × (s.wire ≡ take s.result.size hello)
    × (Works turns → (s.result.size ≡ length hello) × (s.result.ec ≡ ok))
send-Good_example = send-Good turns hello (omega arith)

abbrev chunks : List Str
chunks = codes "he" ∷ [] ∷ codes "llo" ∷ []

some_bytes : 0 < length (joined chunks)
unfolding joined
some_bytes = omega arith

sendv-send_example : sendv turns chunks ≡ send turns (joined chunks)
sendv-send_example = sendv-send turns chunks (omega arith) some_bytes

send_file-send_example :
    send_file turns (opened (codes "say hello!")) 4 5
    ≡ send turns (take 5 (drop 4 (codes "say hello!")))
send_file-send_example = send_file-send turns (codes "say hello!") 4 5 (omega arith) (omega arith)

-- A write that fails in the middle keeps its count.
fault_test : (s : Sent) × (send (room 2 ∷ fault 32 ∷ []) hello ≡ some s) × (s.result.size ≡ 2)
unfolding send send_from then_wire ends
fault_test = (_, refl, refl)
