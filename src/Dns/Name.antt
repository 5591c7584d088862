-- ===== src/Dns/Name.antt =====
-- src/net/dns/utils.cpp and include/xsl/net/dns/utils.h: names with message compression.
-- A message is the list of its bytes and a pointer into it is an offset. What the source leaves
-- undefined, or asserts, is `fault`: a read outside the message, a write outside the buffer of 255
-- bytes, a label that begins past offset 0x3fff.
pub mod Encode
pub mod Decompress
pub mod Cycle
pub mod Skip
mod Tests
use net_cpp.Prelude.{
  ℕ, zero, suc, ◌+◌, ◌-◌, ◌*◌, ◌/◌, ◌%◌, ◌^◌, ◌≤◌, ◌<◌, min, bit_and, bit_or, ◌≡◌, refl, sym, ap,
  ap₂, ◌∙◌, ◌≢◌, ◌↔◌, ◌⊎◌, inl, inr, Bool, true, false, not, ◌&&◌, ◌||◌, Option, none, some, List,
  [], ◌∷◌, ◌++◌, append-nil, append_assoc, arith, ltb, leb, ◌==◌, if◌then◌else◌, ltb→lt, lt→ltb,
  leb→le, le→leb, some_inj, ==_iff, Bool-cases, Option-cases, length, get_elem?, get_or, set, take,
  drop, replicate, length-append, length-set, get_or-set_self, get_or-set_ne, take-append,
  drop-append, length-take, length-drop, Str, codes, str_eq, str_eq→eq, str_eq_refl, eq→str_eq,
  str_eq_iff, all_below, all_below_sound,
}
use net_cpp.Errc.{Errc, ok, illegal_byte_sequence}

abbrev pub max_label : ℕ
max_label = 63

abbrev pub max_name : ℕ
max_name = 255

pub data Outcome : Type 0 where
  -- The buffer up to `buf_end`, and for `decompress` the number of bytes read.
  finished : (buf : Str) (size : ℕ) → Outcome
  refused : Errc → Outcome
  fault : Outcome

-- `*ptr & 0xc0`
abbrev pub high_bits : ℕ → ℕ
high_bits b = bit_and b 0xc0

-- `(ptr[0] & 0x3f) << 8 | ptr[1]`
unfoldable pub target : ℕ → ℕ → ℕ
target b c = bit_or (bit_and b 0x3f * 2 ^ 8) c

-- `memcpy(buf + buf_end, ptr + 1, len); buf[buf_end + len] = '.'; buf_end += len + 1;`
pub copy_label : Str → ℕ → ℕ → Str → Option Str
copy_label msg ptr len buf =
    if ltb ptr 0x4000 && leb (ptr + 1 + len) (length msg) && leb (length buf + len + 1) max_name
    then some (buf ++ (take len (drop (ptr + 1) msg) ++ b'.' ∷ []))
    else none

-- Go on with what was read or copied, if that was inside the message and the buffer.
abbrev pub or_fault {ℓ} : {A : Type ℓ} → Option A → (A → Option Outcome) → Option Outcome
or_fault none k = some fault
or_fault (some a) k = k a

-- `prepare_rest`, where `size` is what `decompress` will return. The flag says that the code stands
-- inside the loop over pointers, where a zero byte is not tested for. `none` when the fuel has run out.
pub prepare_rest : ℕ → Bool → Str → ℕ → Str → ℕ → Option Outcome
prepare_rest zero inner msg ptr buf size = none
prepare_rest (suc f) inner msg ptr buf size = or_fault (get_elem? msg ptr) λ b.
    let copied =
      or_fault (copy_label msg ptr b buf)
        (λ buf'. prepare_rest f false msg (ptr + (b + 1)) buf' size) in
    let jumped =
      or_fault (get_elem? msg (ptr + 1)) (λ c. prepare_rest f true msg (target b c) buf size) in
    if not inner && b == 0
    then some (finished buf size)
    else if high_bits b == 0
    then copied
    else if high_bits b == 0xc0
    then jumped
    else some (refused illegal_byte_sequence)

-- The loop of `decompress(const byte *)`: labels up to the end of the name or to the first pointer.
pub decompress_from : ℕ → Str → ℕ → Str → ℕ → Option Outcome
decompress_from zero msg ptr buf size = none
decompress_from (suc f) msg ptr buf size = or_fault (get_elem? msg ptr) λ b.
    let copied =
      or_fault (copy_label msg ptr b buf)
        (λ buf'. decompress_from f msg (ptr + (b + 1)) buf' (size + 1 + b)) in
    let jumped =
      or_fault (get_elem? msg (ptr + 1))
        (λ c. prepare_rest f false msg (target b c) buf (size + 2)) in
    if b == 0
    then some (finished buf (size + 1))
    else if high_bits b == 0
    then copied
    else if high_bits b == 0xc0
    then jumped
    else some (refused illegal_byte_sequence)

-- `DnDecompressor::decompress(const byte *)`
pub decompress : ℕ → Str → ℕ → Option Outcome
unfolding decompress_from
decompress f msg ptr = decompress_from f msg ptr [] 0

pub data Skipped : Type 0 where
  rest : Str → Skipped
  bad : Skipped
  outside : Skipped

-- `src_.subspan(n)`
abbrev pub subspan : ℕ → Str → Skipped
subspan n src = if leb n (length src) then rest (drop n src) else outside

abbrev pub or_outside : Option ℕ → (ℕ → Option Skipped) → Option Skipped
or_outside none k = some outside
or_outside (some b) k = k b

-- `skip_dn` at `src[offset]`; `none` when the fuel has run out.
pub skip_from : ℕ → Str → ℕ → Option Skipped
skip_from zero src offset = none
skip_from (suc f) src offset = or_outside (get_elem? src offset) λ b.
    let next = skip_from f src (offset + (b + 1)) in
    if b == 0
    then some (subspan (offset + 1) src)
    else if high_bits b == 0
    then next
    else if b == 0xc0
    then some (subspan (offset + 1 + 1) src)
    else some bad

-- `skip_dn`: a round goes on by at least one byte, so `src.size() + 1` rounds suffice.
pub skip_dn : Str → Option Skipped
unfolding skip_from
skip_dn src = skip_from (suc (length src)) src 0

-- `skip_question`, include/xsl/net/dns/proto/question.h
pub skip_question : Str → Option Skipped
unfolding skip_dn
skip_question src = elim (skip_dn src) [
  | none ↦ none
  | some s ↦ elim s [ rest r ↦ some (subspan 4 r) | other ↦ some other ]
]
