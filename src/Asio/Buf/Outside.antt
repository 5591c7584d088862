-- ===== src/Asio/Buf/Outside.antt =====
-- A write that goes on into a new block.
use net_cpp.Prelude.{
  ℕ, zero, suc, ◌+◌, ◌-◌, ◌*◌, ◌≤◌, ◌<◌, ◌≡◌, refl, true, false, none, some, [], ◌∷◌, ◌++◌, arith,
  ltb, leb, length, take, drop, replicate, length-take, length-drop, Str,
}
use net_cpp.Asio.Buf.{
  Buffer, copy_at, with_last, next_block, copy_rest, copy_blocks, fill_block, write,
}

module _ (n : ℕ) where
  copy_rest_outside :
      (f : ℕ) (s : Str) (b : Buffer)
      → length s < n
      → n < b.current + length s
      → copy_blocks n f s b ≡ none
  unfolding copy_blocks copy_rest copy_at with_last
  copy_rest_outside zero s b h l = refl
  copy_rest_outside (suc f) s b h l =
      let short : leb n (length s) ≡ false = ground arith in
      let outside : ltb n (b.current + length s) ≡ true = ground arith in rw (short, outside) refl

  fill_block_keeps :
      (s : Str) (b : Buffer)
      → b.current ≤ n
      → (b' : Buffer) × (fill_block n s b ≡ some b') × (b'.current ≡ b.current)
  unfolding fill_block next_block with_last copy_at
  fill_block_keeps s b h =
      let fits : ltb n (b.current + length (take (n - b.current) s)) ≡ false =
        ground (arith, length-take (n - b.current) s) in
      let part = take (n - b.current) s in
      let full = take b.current b.last ++ (part ++ drop (b.current + length part) b.last) in
      let b' : Buffer = record b { blocks = b.blocks ++ (full ∷ []); last = replicate n 0 } in
      (b', rw fits refl, refl)

-- A text that crosses the end of a block, and whose rest behind that end is shorter than a block
-- but longer than what the old size leaves of a block, is written outside the new block.
pub write_outside :
    (n : ℕ) (s : Str) (b : Buffer)
    → b.current ≤ n
    → n < b.current + length s
    → b.current + length s < 2 * n
    → 2 * n < 2 * b.current + length s
    → write n s b ≡ none
unfolding write
write_outside n s b h c short long =
    let crossing : ltb n (b.current + length s) ≡ true = ground arith in
    let (b', e, same) = fill_block_keeps n s b h in
    rw (crossing, e)
      (copy_rest_outside n (suc (length s)) (drop (n - b.current) s) b'
        (omega (arith, length-drop (n - b.current) s))
        (omega (arith, length-drop (n - b.current) s, same)))
