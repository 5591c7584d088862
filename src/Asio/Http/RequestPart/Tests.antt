-- ===== src/Asio/Http/RequestPart/Tests.antt =====
-- The head of a request.
use net_cpp.Prelude.{
  ℕ, zero, suc, ◌+◌, ◌*◌, ◌<◌, ◌≡◌, refl, ap, none, some, List, [], arith, length, replicate, Str,
  codes,
}
use net_cpp.Errc.{ok}
use net_cpp.Asio.Io.{Turn, room}
use net_cpp.Asio.Io.Whole.{rooms, Works}
use net_cpp.Asio.Http.RequestPart.{
  RequestPartBuilder, block_size, append, check_append, to_string, blocks_text, Wrote, write,
}
use net_cpp.Asio.Http.RequestPart.Text.{IsValid, append_stuck}
use net_cpp.Asio.Http.RequestPart.Write.{write-to_string}

abbrev begun : RequestPartBuilder
begun = record { full = []; last = codes "GET / HTTP/1.1" }

begun-IsValid : IsValid begun
unfolding IsValid
begun-IsValid = omega arith

abbrev long : Str
long = replicate 8192 b'a'

length-replicate : (n c : ℕ) → length (replicate n c) ≡ n
length-replicate zero c = refl
length-replicate (suc n) c = ap suc (length-replicate n c)

long_enough : 2 * block_size < length long + length (check_append begun).last
unfolding check_append
long_enough = omega (arith, length-replicate 8192 b'a')

append_stuck_example : append 9 long begun ≡ none
append_stuck_example = append_stuck 9 long begun begun-IsValid long_enough

abbrev many : ℕ → List Turn
many n = replicate n (room 5)

many-Works : (n : ℕ) → Works (many n)
many-Works zero = tt
many-Works (suc n) = (omega arith, many-Works n)

enough : length (to_string begun) + length begun.full + 2 < rooms (many 40)
unfolding to_string blocks_text
enough = omega arith

write-to_string_example :
    (w : Wrote) × (write 1 (many 40) (some begun) ≡ some w)
    × (w.ec ≡ ok)
    × (w.wire ≡ to_string begun)
write-to_string_example =
    write-to_string 1 (many 40) begun begun-IsValid (omega arith) (many-Works 40) enough
