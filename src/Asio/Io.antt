-- ===== src/Asio/Io.antt =====
-- include/xsl/asio/io.h, include/xsl/io/def.h: reading from and writing to a device without blocking.
use net_cpp.Prelude.{
  ℕ, zero, suc, ◌+◌, ◌-◌, ◌*◌, ◌/◌, ◌%◌, ◌^◌, ◌≤◌, ◌<◌, min, bit_and, bit_or, ◌≡◌, refl, sym, ap,
  ap₂, ◌∙◌, ◌≢◌, ◌↔◌, ◌⊎◌, inl, inr, Bool, true, false, not, ◌&&◌, ◌||◌, Option, none, some, List,
  [], ◌∷◌, ◌++◌, append-nil, append_assoc, arith, ltb, leb, ◌==◌, if◌then◌else◌, ltb→lt, lt→ltb,
  leb→le, le→leb, some_inj, ==_iff, Bool-cases, Option-cases, length, get_elem?, get_or, set, take,
  drop, replicate, length-append, length-set, get_or-set_self, get_or-set_ne, take-append,
  drop-append, length-take, length-drop, Str, codes, str_eq, str_eq→eq, str_eq_refl, eq→str_eq,
  str_eq_iff, all_below, all_below_sound,
}
use net_cpp.Errc.{Errc, ok, not_connected, invalid_argument, no_message, from_errno}
pub mod Chunks
pub mod Whole
mod Files
pub mod Receive
mod Datagrams
mod Tests

-- `io::Result`
pub record Result : Type 0 where
  pub size : ℕ
  pub ec : Errc

-- What a write call of the system meets: room for at most so many bytes, EAGAIN with what the
-- coroutine's `co_await sig` then gives, or another value of `errno`.
pub data Turn : Type 0 where
  room : ℕ → Turn
  blocked : Bool → Turn
  fault : ℕ → Turn

-- The result, the bytes that the system took, and the turns that are left.
pub record Sent : Type 0 where
  pub result : Result
  pub wire : Str
  pub rest : List Turn

pub ends : ℕ → Errc → List Turn → Option Sent
ends size ec ts = some (record { result = record { size = size; ec = ec }; wire = []; rest = ts })

pub then_wire : Str → Option Sent → Option Sent
then_wire bytes none = none
then_wire bytes (some s) = some (record s { wire = bytes ++ s.wire })

-- `send` from `total` on. Without a further turn the call is still waiting.
pub send_from : List Turn → Str → ℕ → Option Sent
send_from [] msg total = none
send_from (room k ∷ ts) msg total =
    let n = min k (length msg - total) in
    let rest = send_from ts msg (total + n) in
    if n == 0
    then ends total ok ts
    else then_wire (take n (drop total msg))
        (if ltb (total + n) (length msg) then rest else ends (total + n) ok ts)
send_from (blocked true ∷ ts) msg total =
    let rest = send_from ts msg total in if ltb total (length msg) then rest else ends total ok ts
send_from (blocked false ∷ ts) msg total = ends total not_connected ts
send_from (fault e ∷ ts) msg total = ends total (from_errno e) ts

pub send : List Turn → Str → Option Sent
send ts msg = send_from ts msg 0

-- The `iovec`s without the empty ones.
pub keep : Str → List Str → List Str
keep [] cs = cs
keep (x ∷ xs) cs = (x ∷ xs) ∷ cs

pub gather : ℕ → List Str → List Str
gather offset [] = []
gather offset (c ∷ cs) = keep (drop offset c) (gather 0 cs)

pub joined : List Str → Str
joined [] = []
joined (c ∷ cs) = c ++ joined cs

-- The loop that moves `idx` and `offset` behind the chunks that are written; the chunks are those
-- from `idx` on.
pub skip_written : ℕ → List Str → ℕ × List Str
skip_written offset [] = (offset, [])
skip_written offset (c ∷ cs) =
    let rest = skip_written (offset - length c) cs in
    if leb (length c) offset then rest else (offset, c ∷ cs)

pub unless_empty : List Str → ℕ → List Turn → Option Sent → Option Sent
unless_empty [] written ts r = ends written ok ts
unless_empty (c ∷ cs) written ts r = r

pub sendv_from : List Turn → ℕ → List Str → ℕ → ℕ → Option Sent
sendv_from [] offset cs written total = unless_empty (gather offset cs) written [] none
sendv_from (room k ∷ ts) offset cs written total =
    let iov = gather offset cs in
    let w = min k (length (joined iov)) in
    let (offset', cs') = skip_written (offset + w) cs in
    let rest = sendv_from ts offset' cs' (written + w) total in
    unless_empty iov written (room k ∷ ts) (
      if w == 0
      then ends written ok ts
      else then_wire (take w (joined iov))
          (if ltb (written + w) total then rest else ends (written + w) ok ts))
sendv_from (blocked true ∷ ts) offset cs written total =
    let rest = sendv_from ts offset cs written total in
    unless_empty (gather offset cs) written (blocked true ∷ ts)
      (if ltb written total then rest else ends written ok ts)
sendv_from (blocked false ∷ ts) offset cs written total =
    unless_empty (gather offset cs) written (blocked false ∷ ts) (ends written not_connected ts)
sendv_from (fault e ∷ ts) offset cs written total =
    unless_empty (gather offset cs) written (fault e ∷ ts) (ends written (from_errno e) ts)

abbrev pub writev_max_chunks : ℕ
writev_max_chunks = 8

pub sum_sizes : List Str → ℕ
sum_sizes [] = 0
sum_sizes (c ∷ cs) = length c + sum_sizes cs

pub sendv : List Turn → List Str → Option Sent
sendv ts chunks =
    let total = sum_sizes chunks in
    if ltb writev_max_chunks (length chunks)
    then ends 0 invalid_argument ts
    else if total == 0
    then ends 0 ok ts
    else sendv_from ts 0 chunks 0 total

-- `open`: the bytes of the file, or the value of `errno`.
pub data Opened : Type 0 where
  opened : Str → Opened
  refused : ℕ → Opened

-- `send_file` from `offset` on, with the offset of the hint and the end.
pub send_file_from : List Turn → Str → ℕ → ℕ → ℕ → Option Sent
send_file_from [] file first offset end = none
send_file_from (room k ∷ ts) file first offset end =
    let n = min k (min (end - offset) (length file - offset)) in
    let rest = send_file_from ts file first (offset + n) end in
    if n == 0
    then (if offset == end
        then ends (offset - first) no_message ts
        else ends (offset - first) ok ts)
    else then_wire (take n (drop offset file))
        (if offset + n == end then ends (offset + n - first) ok ts else rest)
send_file_from (blocked true ∷ ts) file first offset end =
    let rest = send_file_from ts file first offset end in
    if offset == end then ends (offset - first) ok ts else rest
send_file_from (blocked false ∷ ts) file first offset end = ends (offset - first) not_connected ts
send_file_from (fault e ∷ ts) file first offset end = ends (offset - first) (from_errno e) ts

pub send_file : List Turn → Opened → ℕ → ℕ → Option Sent
send_file ts (refused e) offset size = ends 0 (from_errno e) ts
send_file ts (opened file) offset size = send_file_from ts file offset offset (size + offset)

-- `sendto` from `begin` on; the second test of the result, `sz == 0`, is behind `sz >= 0`.
pub sendto_from : List Turn → Str → ℕ → Option Sent
sendto_from [] buf begin = none
sendto_from (room k ∷ ts) buf begin =
    let sz = min k (length buf - begin) in
    let rest = sendto_from ts buf (begin + sz) in
    then_wire (take sz (drop begin buf))
      (if ltb 0 (length buf - (begin + sz)) then rest else ends (begin + sz) ok ts)
sendto_from (blocked true ∷ ts) buf begin =
    let rest = sendto_from ts buf begin in
    if ltb 0 (length buf - begin) then rest else ends begin ok ts
sendto_from (blocked false ∷ ts) buf begin = ends begin not_connected ts
sendto_from (fault e ∷ ts) buf begin = ends begin (from_errno e) ts

pub sendto : List Turn → Str → Option Sent
sendto ts buf = sendto_from ts buf 0
