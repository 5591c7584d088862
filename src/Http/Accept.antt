-- ===== src/Http/Accept.antt =====
-- src/net/http/proto/accept.cpp: `parse_accept_encoding`. The regular expression for a parameter is
-- an argument: it gives the value of the first parameter in a text, none without a match.
pub mod Total
mod Tests
use net_cpp.Prelude.{
  ℕ, zero, suc, ◌+◌, ◌-◌, ◌*◌, ◌/◌, ◌%◌, ◌^◌, ◌≤◌, ◌<◌, min, bit_and, bit_or, ◌≡◌, refl, sym, ap,
  ap₂, ◌∙◌, ◌≢◌, ◌↔◌, ◌⊎◌, inl, inr, Bool, true, false, not, ◌&&◌, ◌||◌, Option, none, some, List,
  [], ◌∷◌, ◌++◌, append-nil, append_assoc, arith, ltb, leb, ◌==◌, if◌then◌else◌, ltb→lt, lt→ltb,
  leb→le, le→leb, some_inj, ==_iff, Bool-cases, Option-cases, length, get_elem?, get_or, set, take,
  drop, replicate, length-append, length-set, get_or-set_self, get_or-set_ne, take-append,
  drop-append, length-take, length-drop, Str, codes, str_eq, str_eq→eq, str_eq_refl, eq→str_eq,
  str_eq_iff, all_below, all_below_sound,
}
use net_cpp.Prelude.Search.{find_char}

-- An encoding with its weight.
abbrev pub Entry : Type 0
Entry = Str × Str

pub data Parsed : Type 0 where
  entries : List Entry → Parsed
  out_of_range : Parsed  -- the exception of `substr`

abbrev pub add_entry : Entry → Option Parsed → Option Parsed
add_entry e none = none
add_entry e (some out_of_range) = some out_of_range
add_entry e (some (entries es)) = some (entries (e ∷ es))

-- From `find_first_not_of(" \t", …)` on; `none` for `npos`.
abbrev pub skip_blank : Str → Option Str
skip_blank [] = none
skip_blank (c ∷ cs) = if c == b' ' || c == 9 then skip_blank cs else some (c ∷ cs)

abbrev pub or_empty : Option Str → Str
or_empty none = []
or_empty (some s) = s

module _ (first_parameter : Str → Option Str) where
  abbrev pub at_semicolon : Str → Option ℕ → Entry
  at_semicolon s none = (s, [])
  at_semicolon s (some k) = (take k s, or_empty (first_parameter (drop k s)))

  -- `encoding_str` to an entry
  abbrev pub entry_of : Str → Entry
  entry_of s = at_semicolon s (find_char b';' s)

  -- What follows a comma.
  abbrev pub go_on : (Str → Option Parsed) → Option Str → Option Parsed
  go_on k none = some out_of_range
  go_on k (some rest) = k rest

  abbrev pub at_comma : (Str → Option Parsed) → Str → Option ℕ → Option Parsed
  at_comma k s none = some (entries (entry_of s ∷ []))
  at_comma k s (some comma) =
      add_entry (entry_of (take comma s)) (go_on k (skip_blank (drop (suc comma) s)))

  -- The loop; `none` when the fuel has run out.
  pub entries_from : ℕ → Str → Option Parsed
  entries_from zero s = none
  entries_from (suc f) s = at_comma (entries_from f) s (find_char b',' s)

  -- A round takes at least the comma, so `accept_encoding.size() + 1` rounds suffice.
  pub parse_accept_encoding : Str → Option Parsed
  unfolding entries_from
  parse_accept_encoding [] = some (entries [])
  parse_accept_encoding s = entries_from (suc (length s)) s
