-- ===== src/Dns/Wire.antt =====
-- include/xsl/ser.h and <netinet/in.h>: 16-bit fields in a buffer of bytes. The host is
-- little-endian: a value is stored with its low byte first, and `htons` swaps the two bytes.
use net_cpp.Prelude.{
  ℕ, zero, suc, ◌+◌, ◌*◌, ◌/◌, ◌%◌, ◌^◌, ◌<◌, ◌≡◌, ap, Option, none, some, [], ◌∷◌, ◌++◌, arith,
  Str,
}

abbrev pub u16 : ℕ → ℕ
u16 n = n % 2 ^ 16

-- `htons`, and `ntohs`, its own inverse.
pub htons : ℕ → ℕ
htons v = v % 256 * 256 + v / 256 % 256

-- The bytes of `std::as_bytes` of a 16-bit value.
abbrev pub as_bytes : ℕ → Str
as_bytes v = v % 256 ∷ v / 256 % 256 ∷ []

-- A copy of bytes to the front of a buffer, and from offset `n` on; `none` past the end.
abbrev pub overwrite : Str → Str → Option Str
overwrite [] buf = some buf
overwrite (b ∷ bs) [] = none
overwrite (b ∷ bs) (x ∷ xs) = elim (overwrite bs xs) [ none ↦ none | some r ↦ some (b ∷ r) ]

abbrev pub overwrite_at : ℕ → Str → Str → Option Str
overwrite_at zero bs buf = overwrite bs buf
overwrite_at (suc n) bs [] = none
overwrite_at (suc n) bs (x ∷ xs) = elim (overwrite_at n bs xs) [
  | none ↦ none
  | some r ↦ some (x ∷ r)
]

-- `deserialize` of a 16-bit value at the front of a buffer, with what follows it.
abbrev pub read_u16 : Str → Option (ℕ × Str)
read_u16 [] = none
read_u16 (a ∷ []) = none
read_u16 (a ∷ b ∷ rest) = some (a + b * 256, rest)

pub htons_twice : (v : ℕ) → v < 2 ^ 16 → htons (htons v) ≡ v
unfolding htons
htons_twice v h = omega arith

pub htons-lt : (v : ℕ) → htons v < 2 ^ 16
unfolding htons
htons-lt v = omega arith

-- A 16-bit value is read back from the bytes that were stored.
pub read_u16-as_bytes :
    (v : ℕ) (rest : Str) → v < 2 ^ 16 → read_u16 (as_bytes v ++ rest) ≡ some (v, rest)
read_u16-as_bytes v rest h =
    ap (λ k. some (k, rest)) (let e : v % 256 + v / 256 % 256 * 256 ≡ v = omega arith in e)
