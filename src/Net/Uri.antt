-- ===== src/Net/Uri.antt =====
-- src/net/uri.cpp: `percent_decode`, which appends to a buffer.
pub mod RoundTrip
mod Tests
use net_cpp.Prelude.{
  ℕ, zero, suc, ◌+◌, ◌-◌, ◌*◌, ◌/◌, ◌%◌, ◌^◌, ◌≤◌, ◌<◌, min, bit_and, bit_or, ◌≡◌, refl, sym, ap,
  ap₂, ◌∙◌, ◌≢◌, ◌↔◌, ◌⊎◌, inl, inr, Bool, true, false, not, ◌&&◌, ◌||◌, Option, none, some, List,
  [], ◌∷◌, ◌++◌, append-nil, append_assoc, arith, ltb, leb, ◌==◌, if◌then◌else◌, ltb→lt, lt→ltb,
  leb→le, le→leb, some_inj, ==_iff, Bool-cases, Option-cases, length, get_elem?, get_or, set, take,
  drop, replicate, length-append, length-set, get_or-set_self, get_or-set_ne, take-append,
  drop-append, length-take, length-drop, Str, codes, str_eq, str_eq→eq, str_eq_refl, eq→str_eq,
  str_eq_iff, all_below, all_below_sound,
}
use net_cpp.Prelude.Search.{find_char}

-- The value of a hexadecimal digit.
abbrev pub hex_digit : ℕ → Option ℕ
hex_digit c =
    if leb b'0' c && leb c b'9'
    then some (c - b'0')
    else if leb b'a' c && leb c b'f'
    then some (c - b'a' + 10)
    else if leb b'A' c && leb c b'F'
    then some (c - b'A' + 10)
    else none

-- `std::from_chars` to base 16 on the two characters: the longest prefix of digits, an error if there
-- is none. A minus sign is taken too: the value is then not positive, and only zero is accepted.
abbrev pub second_digit : ℕ → Option ℕ → ℕ
second_digit v none = v
second_digit v (some w) = v * 16 + w

abbrev pub signed : Option ℕ → Option ℕ
signed (some zero) = some 0
signed _ = none

abbrev pub digits_value : Option ℕ → Option ℕ → Option ℕ
digits_value none d = none
digits_value (some v) d = some (second_digit v d)

abbrev pub from_chars : ℕ → ℕ → Option ℕ
from_chars a b =
    if a == b'-' then signed (hex_digit b) else digits_value (hex_digit a) (hex_digit b)

-- The result, and the buffer after the call.
pub data Decoded : Type 0 where
  decoded : (text buffer : Str) → Decoded
  illegal : (buffer : Str) → Decoded

-- A round at `percent_pos`, with the value of the two characters behind it and what follows them.
abbrev pub on_value : Str → (Str → Str → Option Decoded) → Option ℕ → Str → Option Decoded
on_value buffer k none rest = some (illegal buffer)
on_value buffer k (some value) rest = k (buffer ++ value ∷ []) rest

abbrev pub after_percent : Str → (Str → Str → Option Decoded) → Str → Option Decoded
after_percent buffer k (p ∷ a ∷ b ∷ rest) = on_value buffer k (from_chars a b) rest
after_percent buffer k _ = some (illegal buffer)

-- The text that the call has appended to a buffer of `initial_size` characters.
abbrev pub finish : ℕ → Str → Str → Decoded
finish initial_size buffer sv =
    if length buffer == initial_size
    then decoded [] buffer
    else decoded (drop initial_size (buffer ++ sv)) (buffer ++ sv)

-- The loop of `percent_decode`; `none` when the fuel has run out.
unfoldable pub decode_from : ℕ → ℕ → Str → Str → Option Decoded
decode_from zero initial_size buffer sv = none
decode_from (suc f) initial_size buffer sv = elim (find_char b'%' sv) [
  | none ↦ some (finish initial_size buffer sv)
  | some pos ↦ after_percent (buffer ++ take pos sv) (decode_from f initial_size) (drop pos sv)
]

-- `percent_decode`: a round takes at least three characters, so `sv.size() + 1` rounds suffice.
unfoldable pub percent_decode : Str → Str → Option Decoded
unfolding decode_from
percent_decode buffer sv = decode_from (suc (length sv)) (length buffer) buffer sv
