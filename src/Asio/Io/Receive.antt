-- ===== src/Asio/Io/Receive.antt =====
-- include/xsl/asio/io.h: `imm_recv`, `recv` and `NetAsyncRx::recvfrom`.
use net_cpp.Prelude.{
  ℕ, zero, suc, ◌+◌, ◌-◌, ◌*◌, ◌/◌, ◌%◌, ◌^◌, ◌≤◌, ◌<◌, min, bit_and, bit_or, ◌≡◌, refl, sym, ap,
  ap₂, ◌∙◌, ◌≢◌, ◌↔◌, ◌⊎◌, inl, inr, Bool, true, false, not, ◌&&◌, ◌||◌, Option, none, some, List,
  [], ◌∷◌, ◌++◌, append-nil, append_assoc, arith, ltb, leb, ◌==◌, if◌then◌else◌, ltb→lt, lt→ltb,
  leb→le, le→leb, some_inj, ==_iff, Bool-cases, Option-cases, length, get_elem?, get_or, set, take,
  drop, replicate, length-append, length-set, get_or-set_self, get_or-set_ne, take-append,
  drop-append, length-take, length-drop, Str, codes, str_eq, str_eq→eq, str_eq_refl, eq→str_eq,
  str_eq_iff, all_below, all_below_sound,
}
use net_cpp.Errc.{Errc, ok, not_connected, from_errno}
use net_cpp.Asio.Io.{Result}
mod Laws
mod Tests

-- What a read call of the system meets: bytes of the peer, of which a stream keeps those that do not
-- fit into the buffer for the next call; the end of the stream; EAGAIN with what the coroutine's
-- `co_await sig` then gives; or another value of `errno`.
pub data Arrival : Type 0 where
  bytes : Str → Arrival
  closed : Arrival
  blocked : Bool → Arrival
  fault : ℕ → Arrival

-- The result, the bytes in the buffer, and the arrivals that are left.
pub record Received : Type 0 where
  result : Result
  text : Str
  rest : List Arrival

pub gives : Str → Errc → List Arrival → Option Received
gives text ec as' =
    some (record { result = record { size = length text; ec = ec }; text = text; rest = as' })

abbrev pub keep_rest : Str → List Arrival → List Arrival
keep_rest [] as' = as'
keep_rest (c ∷ cs) as' = bytes (c ∷ cs) ∷ as'

-- `imm_recv`, into a buffer of `size` bytes; without a further arrival the call is still waiting.
pub imm_recv : List Arrival → ℕ → Option Received
imm_recv [] size = none
imm_recv (bytes s ∷ as') size = gives (take size s) ok (keep_rest (drop size s) as')
imm_recv (closed ∷ as') size = gives [] ok (closed ∷ as')
imm_recv (blocked true ∷ as') size = imm_recv as' size
imm_recv (blocked false ∷ as') size = gives [] not_connected as'
imm_recv (fault e ∷ as') size = gives [] (from_errno e) as'

-- `recv`: what follows `imm_recv` on a connection.
pub checked : Option Received → Option Received
checked none = none
checked (some r) =
    if r.result.size == 0
    then some (record r { result = record { size = 0; ec = not_connected } })
    else some r

pub recv : List Arrival → ℕ → Option Received
recv as' size = checked (imm_recv as' size)

-- `recvfrom`: one datagram; what does not fit into the buffer is lost.
pub recvfrom : List Arrival → ℕ → Option Received
recvfrom [] size = none
recvfrom (bytes s ∷ as') size = gives (take size s) ok as'
recvfrom (closed ∷ as') size = gives [] ok as'
recvfrom (blocked true ∷ as') size = recvfrom as' size
recvfrom (blocked false ∷ as') size = gives [] not_connected as'
recvfrom (fault e ∷ as') size = gives [] (from_errno e) as'
