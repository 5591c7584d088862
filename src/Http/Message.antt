-- ===== src/Http/Message.antt =====
-- include/xsl/net/http/msg.h: the header lines of a message, `MessageRestView`.
-- Views into the text are the texts that they show; the rest of the view from `pos` on stands for
-- `view` and `pos` together, and a map is its list of entries.
mod Lines
pub mod Resume
pub mod Print
mod Tests
use net_cpp.Prelude.{
  ℕ, zero, suc, ◌+◌, ◌-◌, ◌*◌, ◌/◌, ◌%◌, ◌^◌, ◌≤◌, ◌<◌, min, bit_and, bit_or, ◌≡◌, refl, sym, ap,
  ap₂, ◌∙◌, ◌≢◌, ◌↔◌, ◌⊎◌, inl, inr, Bool, true, false, not, ◌&&◌, ◌||◌, Option, none, some, List,
  [], ◌∷◌, ◌++◌, append-nil, append_assoc, arith, ltb, leb, ◌==◌, if◌then◌else◌, ltb→lt, lt→ltb,
  leb→le, ==_iff, Bool-cases, Option-cases, length, get_elem?, get_or, set, take, drop, replicate,
  length-append, length-set, get_or-set_self, get_or-set_ne, take-append, drop-append, length-take,
  length-drop, Str, codes, str_eq, str_eq→eq, str_eq_refl, eq→str_eq, str_eq_iff, all_below,
  all_below_sound,
}
use net_cpp.Prelude.Search.{find_char, find_not, find_crlf}
use net_cpp.Errc.{Errc, ok, illegal_byte_sequence, resource_unavailable_try_again}

abbrev pub Headers : Type 0
Headers = List (Str × Str)

pub record MessageRestView : Type 0 where
  pub headers : Headers
  pub content_part : Str

-- `headers[key] = value`
abbrev pub put : Str → Str → Headers → Headers
put k v [] = (k, v) ∷ []
put k v ((j, w) ∷ m) = if str_eq j k then (j, v) ∷ m else (j, w) ∷ put k v m

-- `headers.find(key)`
abbrev pub lookup : Str → Headers → Option Str
lookup k [] = none
lookup k ((j, v) ∷ m) = if str_eq j k then some v else lookup k m

-- The view's new `pos`, the status, and the object after the call.
abbrev pub Parsed : Type 0
Parsed = ℕ × Errc × MessageRestView

-- What a round finds in one header line: how much to skip and the new entry, or why to return.
pub data Line : Type 0 where
  entry : (skip : ℕ) (key value : Str) → Line
  incomplete : Line
  malformed : Line
  blank : Line  -- the empty line that ends the headers

-- `auto value = view.substr(vstart, vend - vstart)` for a value that begins at `vstart`.
abbrev pub value_at : Str → Str → ℕ → Line
value_at rest key vstart = elim (find_crlf (drop vstart rest)) [
  | none ↦ incomplete
  | some n ↦ entry (vstart + n + 2) key (take n (drop vstart rest))
]

-- `find_first_not_of(' ', colon + 1)`, and `find("\r\n", npos)` is `npos`.
abbrev pub after_colon : Str → ℕ → Line
after_colon rest colon = elim (find_not b' ' (drop (suc colon) rest)) [
  | none ↦ incomplete
  | some n ↦ value_at rest (take colon rest) (suc colon + n)
]

abbrev pub header_line : Str → ℕ → Line
header_line rest end = elim (find_char b':' rest) [
  | none ↦ malformed
  | some colon ↦ if ltb end colon then malformed else after_colon rest colon
]

-- A round of the loop. At the end of the view there is no line break either, and the code after the
-- loop returns the same status.
abbrev pub round : Str → Line
round rest = elim (find_crlf rest) [
  | none ↦ incomplete
  | some zero ↦ blank
  | some (suc e) ↦ header_line rest (suc e)
]

-- The loop of `MessageRestView::parse`; `none` when the fuel has run out.
pub parse_from : ℕ → ℕ → MessageRestView → Str → Option Parsed
parse_from zero pos m rest = none
parse_from (suc f) pos m rest = elim (round rest) [
  | incomplete ↦ some (pos, resource_unavailable_try_again, m)
  | malformed ↦ some (pos, illegal_byte_sequence, m)
  | blank ↦ some (pos + 2, ok, record m { content_part = drop 2 rest })
  | entry skip key value ↦
      parse_from f (pos + skip) (record m { headers = put key value m.headers }) (drop skip rest)
]

-- `MessageRestView::parse`: a round skips at least two bytes, so `view.size() + 1` rounds suffice.
pub parse : MessageRestView → Str → Option Parsed
unfolding parse_from
parse m view = parse_from (suc (length view)) 0 m view
