-- ===== src/Dns/Name/Cycle.antt =====
-- A pointer that leads to itself.
use net_cpp.Prelude.{
  ℕ, zero, suc, ◌+◌, ◌/◌, ◌%◌, ◌^◌, ◌<◌, ◌≡◌, refl, Bool, true, false, not, ◌&&◌, none, some, [],
  arith, ◌==◌, get_elem?, Str,
}
use net_cpp.Dns.Name.{high_bits, prepare_rest, decompress_from, decompress}
use net_cpp.Dns.Name.Encode.{high_bits-pointer, target-pointer}

-- The two bytes of a pointer to its own offset.
abbrev pub PointsToItself : Str → ℕ → Type 0
PointsToItself msg ptr =
    (get_elem? msg ptr ≡ some (0xc0 + ptr / 256))
    × (get_elem? msg (ptr + 1) ≡ some (ptr % 256))
    × (ptr < 2 ^ 14)

module _ (msg : Str) (ptr : ℕ) (loop : PointsToItself msg ptr) where
  not_zero : (0xc0 + ptr / 256 == 0) ≡ false
  not_zero = ground arith

  not_end : (inner : Bool) → (not inner && 0xc0 + ptr / 256 == 0) ≡ false
  not_end true = refl
  not_end false = not_zero

  bits : high_bits (0xc0 + ptr / 256) ≡ 0xc0
  bits = high_bits-pointer (ptr / 256) (omega arith)

  prepare_rest-none :
      (f : ℕ) (inner : Bool) (buf : Str) (size : ℕ) → prepare_rest f inner msg ptr buf size ≡ none
  unfolding prepare_rest
  prepare_rest-none zero inner buf size = refl
  prepare_rest-none (suc f) inner buf size = rw (loop.0) (
      rw (not_end inner, bits, loop.1)
        (rw (target-pointer ptr loop.2) (prepare_rest-none f true buf size)))

  -- A name that is a pointer to itself keeps the decompressor in its loop for ever: on no fuel does
  -- the call return.
  pub decompress_cycle : (f : ℕ) → decompress f msg ptr ≡ none
  unfolding decompress decompress_from
  decompress_cycle zero = refl
  decompress_cycle (suc f) = rw (loop.0) (
      rw (not_zero, bits, loop.1)
        (rw (target-pointer ptr loop.2) (prepare_rest-none f false [] (0 + 2))))
