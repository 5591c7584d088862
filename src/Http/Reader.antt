-- ===== src/Http/Reader.antt =====
-- include/xsl/asio/http/common.h: `Message::read`, which fills a window in a chain of fixed blocks
-- and parses the headers in it as they arrive.
-- The window is its text and where it begins in the active block. The peer is the list of the
-- pieces that it sends: a read gives at most as many bytes as it was asked for, and what it leaves
-- of a piece comes with the next read. No more pieces, or an empty one, is the end of the stream.
pub mod Pieces
mod Tests
use net_cpp.Prelude.{
  ℕ, zero, suc, ◌+◌, ◌-◌, ◌*◌, ◌/◌, ◌%◌, ◌^◌, ◌≤◌, ◌<◌, min, bit_and, bit_or, ◌≡◌, refl, sym, ap,
  ap₂, ◌∙◌, ◌≢◌, ◌↔◌, ◌⊎◌, inl, inr, Bool, true, false, not, ◌&&◌, ◌||◌, Option, none, some, List,
  [], ◌∷◌, ◌++◌, append-nil, append_assoc, arith, ltb, leb, ◌==◌, if◌then◌else◌, ltb→lt, lt→ltb,
  leb→le, ==_iff, Bool-cases, Option-cases, length, get_elem?, get_or, set, take, drop, replicate,
  length-append, length-set, get_or-set_self, get_or-set_ne, take-append, drop-append, length-take,
  length-drop, Str, codes, str_eq, str_eq→eq, str_eq_refl, eq→str_eq, str_eq_iff, all_below,
  all_below_sound,
}
use net_cpp.Errc.{Errc, ok, illegal_byte_sequence, resource_unavailable_try_again, not_connected}
use net_cpp.Http.Message.{MessageRestView, parse}

abbrev pub block_size : ℕ
block_size = 4096

pub record Window : Type 0 where
  pub begin : ℕ  -- `win_begin`
  pub text : Str  -- what `window()` shows

-- `win_end`
abbrev pub end_of : Window → ℕ
end_of w = w.begin + length w.text

-- `self.win_begin += len`
abbrev pub consume : ℕ → Window → Window
consume len w = record { begin = w.begin + len; text = drop len w.text }

-- The entry of `read`: the unconsumed bytes move to the front of the first block.
pub compact : Window → Window
compact w = record { begin = 0; text = w.text }

pub data Filled : Type 0 where
  got : Window → List Str → Filled
  failed : Errc → Filled

abbrev pub leave : Str → List Str → List Str
leave [] cs = cs
leave (x ∷ xs) cs = (x ∷ xs) ∷ cs

-- One call of the reader into the active block.
pub receive : Window → List Str → Filled
receive w [] = failed not_connected
receive w ([] ∷ cs) = failed not_connected
receive w ((x ∷ xs) ∷ cs) =
    let room = block_size - end_of w in
    got (record { begin = w.begin; text = w.text ++ take room (x ∷ xs) })
      (leave (drop room (x ∷ xs)) cs)

-- `rotate`: the tail goes to the front of the next block, if it does not fill a block already.
pub rotate : Window → Option Window
rotate w = if length w.text == block_size then none else some (record { begin = 0; text = w.text })

-- `fill`
pub fill : Window → List Str → Filled
unfolding receive rotate
fill w cs =
    if end_of w == block_size
    then elim (rotate w) [ none ↦ failed illegal_byte_sequence | some w' ↦ receive w' cs ]
    else receive w cs

pub data Outcome : Type 0 where
  head : MessageRestView → Window → List Str → Outcome
  gave_up : Errc → Outcome

-- The loop of `read` over `rest.parse`; `none` when the fuel has run out.
pub read_rest : ℕ → MessageRestView → Window → List Str → Option Outcome
unfolding fill
read_rest zero m w cs = none
read_rest (suc f) m w cs = elim (parse m w.text) [
  | none ↦ none
  | some (len, ec, m') ↦ elim ec [
    | ok ↦ some (head m' (consume len w) cs)
    | resource_unavailable_try_again ↦ elim (fill (consume len w) cs) [
      | failed e ↦ some (gave_up e)
      | got w' cs' ↦ read_rest f m' w' cs'
    ]
    | other ↦ some (gave_up other)
  ]
]
