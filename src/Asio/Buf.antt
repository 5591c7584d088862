-- ===== src/Asio/Buf.antt =====
-- include/xsl/io/buf.h: `Buffer::write` on blocks of `n` bytes.
use net_cpp.Prelude.{
  ℕ, zero, suc, ◌+◌, ◌-◌, ◌*◌, ◌/◌, ◌%◌, ◌^◌, ◌≤◌, ◌<◌, min, bit_and, bit_or, ◌≡◌, refl, sym, ap,
  ap₂, ◌∙◌, ◌≢◌, ◌↔◌, ◌⊎◌, inl, inr, Bool, true, false, not, ◌&&◌, ◌||◌, Option, none, some, List,
  [], ◌∷◌, ◌++◌, append-nil, append_assoc, arith, ltb, leb, ◌==◌, if◌then◌else◌, ltb→lt, lt→ltb,
  leb→le, le→leb, some_inj, ==_iff, Bool-cases, Option-cases, length, get_elem?, get_or, set, take,
  drop, replicate, length-append, length-set, get_or-set_self, get_or-set_ne, take-append,
  drop-append, length-take, length-drop, Str, codes, str_eq, str_eq→eq, str_eq_refl, eq→str_eq,
  str_eq_iff, all_below, all_below_sound,
}
mod Outside
mod Tests

-- The blocks before the last one, the last one and `_current_size`.
pub record Buffer : Type 0 where
  pub blocks : List Str
  pub last : Str
  pub current : ℕ

module _ (n : ℕ) where
  pub new_buffer : Buffer
  new_buffer = record { blocks = []; last = replicate n 0; current = 0 }

  -- A copy into a block at a place; `none` is a copy outside the block.
  pub copy_at : ℕ → Str → Str → Option Str
  copy_at off s block =
      if ltb n (off + length s)
      then none
      else some (take off block ++ (s ++ drop (off + length s) block))

  pub with_last : Buffer → Option Str → Option Buffer
  with_last b none = none
  with_last b (some last) = some (record b { last = last })

  -- A full block, and a new one behind it.
  pub next_block : Option Buffer → Option Buffer
  next_block none = none
  next_block (some b) = some (record b { blocks = b.blocks ++ (b.last ∷ []); last = replicate n 0 })

  -- The copy of the rest, at `_current_size` of the last block.
  pub copy_rest : Str → Buffer → Option Buffer
  copy_rest s b =
      with_last (record b { current = b.current + length s }) (copy_at b.current s b.last)

  abbrev in_buffer : (Buffer → Option Buffer) → Option Buffer → Option Buffer
  in_buffer f none = none
  in_buffer f (some b) = f b

  -- The loop over whole blocks; `none` when the fuel has run out.
  pub copy_blocks : ℕ → Str → Buffer → Option Buffer
  copy_blocks zero s b = none
  copy_blocks (suc f) s b =
      let more =
        in_buffer (copy_blocks f (drop n s))
          (next_block (with_last b (copy_at 0 (take n s) b.last))) in
      let rest = copy_rest s b in if leb n (length s) then more else rest

  -- The end of a block that the text does not fit into.
  pub fill_block : Str → Buffer → Option Buffer
  fill_block s b = next_block (with_last b (copy_at b.current (take (n - b.current) s) b.last))

  -- `Buffer::write`; a round of the loop takes a block, so `size + 1` rounds suffice for `n` above 0.
  pub write : Str → Buffer → Option Buffer
  write s b =
      let crossing =
        in_buffer (copy_blocks (suc (length s)) (drop (n - b.current) s)) (fill_block s b) in
      let inside = copy_blocks (suc (length s)) s b in
      if ltb n (b.current + length s) then crossing else inside
