-- ===== src/Asio/Http/RequestPart.antt =====
-- include/xsl/asio/http/request.h, src/asio/http/request.cpp: `RequestPartBuilder`.
use net_cpp.Prelude.{
  ℕ, zero, suc, ◌+◌, ◌-◌, ◌*◌, ◌/◌, ◌%◌, ◌^◌, ◌≤◌, ◌<◌, min, bit_and, bit_or, ◌≡◌, refl, sym, ap,
  ap₂, ◌∙◌, ◌≢◌, ◌↔◌, ◌⊎◌, inl, inr, Bool, true, false, not, ◌&&◌, ◌||◌, Option, none, some, List,
  [], ◌∷◌, ◌++◌, append-nil, append_assoc, arith, ltb, leb, ◌==◌, if◌then◌else◌, ltb→lt, lt→ltb,
  leb→le, le→leb, some_inj, ==_iff, Bool-cases, Option-cases, length, get_elem?, get_or, set, take,
  drop, replicate, length-append, length-set, get_or-set_self, get_or-set_ne, take-append,
  drop-append, length-take, length-drop, Str, codes, str_eq, str_eq→eq, str_eq_refl, eq→str_eq,
  str_eq_iff, all_below, all_below_sound,
}
use net_cpp.Errc.{Errc, ok, invalid_argument}
use net_cpp.Http.Proto.{version_to_string, method_to_string}
use net_cpp.Asio.Io.{Turn, Sent, send}
use net_cpp.Asio.Http.Response.{crlf, map_option}
use net_cpp.Asio.Http.Response.Sendto.{is_ok}
mod Text
mod Write
mod Tests

abbrev pub block_size : ℕ
block_size = 4096

-- The full blocks, the bytes written to the last one, and `offset`, which is their number.
pub record RequestPartBuilder : Type 0 where
  full : List Str
  last : Str

pub new_part : RequestPartBuilder
new_part = record { full = []; last = [] }

pub check_append : RequestPartBuilder → RequestPartBuilder
check_append b =
    if length b.last == block_size then record { full = b.full ++ (b.last ∷ []); last = [] } else b

pub append_char : ℕ → RequestPartBuilder → RequestPartBuilder
append_char c b = let b' = check_append b in record b' { last = b'.last ++ (c ∷ []) }

-- The loop on what is longer than a block: it writes a block and takes nothing off the data, so it
-- ends only if it does not begin.
pub copy_blocks : ℕ → Str → RequestPartBuilder → Option RequestPartBuilder
copy_blocks zero text b = none
copy_blocks (suc f) text b =
    let rest =
      copy_blocks f text (record { full = b.full ++ (take block_size text ∷ []); last = [] }) in
    if ltb block_size (length text) then rest else some b

abbrev pub written : Str → RequestPartBuilder → RequestPartBuilder
written [] b = b
written (c ∷ cs) b = record b { last = c ∷ cs }

-- What is left of the text behind the block that is filled up.
pub append_rest : ℕ → Str → RequestPartBuilder → Option RequestPartBuilder
append_rest f text b =
    let remaining = block_size - length b.last in
    let filled = b.last ++ take remaining text in
    map_option (written (drop remaining text))
      (copy_blocks f (drop remaining text) (record { full = b.full ++ (filled ∷ []); last = [] }))

-- `append` of a text, with a fuel for its loop.
pub append : ℕ → Str → RequestPartBuilder → Option RequestPartBuilder
append f [] b = some b
append f (c ∷ cs) b =
    let b' = check_append b in
    let rest = append_rest f (c ∷ cs) b' in
    if leb (length b'.last + length (c ∷ cs)) block_size
    then some (record b' { last = b'.last ++ (c ∷ cs) })
    else rest

-- Calls one after the other; `none` is a loop that does not end.
abbrev append_to : ℕ → Str → Option RequestPartBuilder → Option RequestPartBuilder
append_to f text none = none
append_to f text (some b) = append f text b

abbrev append_text : ℕ → Option Str → Option RequestPartBuilder → Option RequestPartBuilder
append_text f none b = none
append_text f (some text) b = append_to f text b

-- `set_method`, `set_target`, `set_version` and `add_header`; a text outside its table is `none`, too.
pub set_method : ℕ → ℕ → RequestPartBuilder → Option RequestPartBuilder
set_method f method b = append_text f (method_to_string method) (some b)

pub set_target : ℕ → Str → RequestPartBuilder → Option RequestPartBuilder
set_target f target b = append f target (append_char b' ' b)

pub set_version : ℕ → ℕ → RequestPartBuilder → Option RequestPartBuilder
set_version f version b =
    append_to f crlf (append_text f (version_to_string version) (some (append_char b' ' b)))

pub add_header : ℕ → Str → Str → RequestPartBuilder → Option RequestPartBuilder
add_header f key value b =
    append_to f crlf (append_to f value (append_to f (codes ": ") (append f key b)))

-- The bytes of a block that is taken as a whole: what was written to it, and then its zeros.
pub block_of : Str → Str
block_of b = take block_size (b ++ replicate block_size 0)

pub blocks_text : List Str → Str
blocks_text [] = []
blocks_text (b ∷ bs) = block_of b ++ blocks_text bs

-- `to_string`
pub to_string : RequestPartBuilder → Str
to_string b = (blocks_text b.full ++ b.last) ++ crlf

-- `write`, to a device: each full block, and then what the last one holds.
pub record Wrote : Type 0 where
  ec : Errc
  wire : Str
  rest : List Turn

abbrev then_wrote : Sent → Option Wrote → Option Wrote
then_wrote s none = none
then_wrote s (some w) = some (record w { wire = s.wire ++ w.wire })

abbrev next_block : (List Turn → Option Wrote) → Option Sent → Option Wrote
next_block next none = none
next_block next (some s) =
    let rest = next s.rest in
    if is_ok s.result.ec
    then then_wrote s rest
    else some (record { ec = s.result.ec; wire = s.wire; rest = s.rest })

abbrev done : List Turn → Option Wrote
done ts = some (record { ec = ok; wire = []; rest = ts })

pub write_last : Str → List Turn → Option Wrote
write_last [] ts = done ts
write_last (c ∷ cs) ts = next_block done (send ts (c ∷ cs))

pub write_blocks : List Str → Str → List Turn → Option Wrote
write_blocks [] last ts = write_last last ts
write_blocks (b ∷ bs) last ts = next_block (write_blocks bs last) (send ts (block_of b))

abbrev write_part : List Turn → Option RequestPartBuilder → Option Wrote
write_part ts none = none
write_part ts (some b) = write_blocks b.full b.last ts

-- `none` is a builder without a block, as a move leaves it, for which `is_valid` is false.
pub write : ℕ → List Turn → Option RequestPartBuilder → Option Wrote
write f ts none = some (record { ec = invalid_argument; wire = []; rest = ts })
write f ts (some b) = write_part ts (append f crlf b)
