-- ===== src/Dns/Name/Encode.antt =====
-- A name as its labels, and the bytes of RFC 1035 for it.
use net_cpp.Prelude.{
  ℕ, ◌+◌, ◌*◌, ◌/◌, ◌%◌, ◌^◌, ◌<◌, bit_and, ◌≡◌, refl, ◌∙◌, true, ◌&&◌, List, [], ◌∷◌, ◌++◌, arith,
  ◌==◌, length, Str, all_below, all_below_sound,
}
use net_cpp.Prelude.Bits.{bit_or-add}
use net_cpp.Dns.Name.{high_bits, target}

abbrev pub Labels : Type 0
Labels = List Str

-- A label is not empty and has at most 63 bytes.
abbrev pub IsLabel : Str → Type 0
IsLabel l = (0 < length l) × (length l < 64)

abbrev pub AllLabels : Labels → Type 0
AllLabels [] = Unit {0}
AllLabels (l ∷ ls) = IsLabel l × AllLabels ls

-- Length octets and labels, without the end of the name.
abbrev pub encode : Labels → Str
encode [] = []
encode (l ∷ ls) = length l ∷ (l ++ encode ls)

-- The text that the decompressor builds: a dot after each label.
abbrev pub dotted : Labels → Str
dotted [] = []
dotted (l ∷ ls) = l ++ (b'.' ∷ dotted ls)

label_table : all_below 64 (λ b. high_bits b == 0) ≡ true
unfolding all_below
label_table = refl

-- A length octet of a label has no high bits, those of a pointer are both set, and the fourteen bits
-- of a pointer are its offset.
pub high_bits-label : (b : ℕ) → b < 64 → (high_bits b == 0) ≡ true
high_bits-label b h = all_below_sound 64 (λ b. high_bits b == 0) b label_table h

pointer_table :
    all_below 64 (λ h. (high_bits (0xc0 + h) == 0xc0) && (bit_and (0xc0 + h) 0x3f == h)) ≡ true
unfolding all_below
pointer_table = refl

pub high_bits-pointer : (h : ℕ) → h < 64 → high_bits (0xc0 + h) ≡ 0xc0
high_bits-pointer h l = ground (
  arith,
  all_below_sound 64 (λ h. (high_bits (0xc0 + h) == 0xc0) && (bit_and (0xc0 + h) 0x3f == h)) h
      pointer_table l,
)

pub target-pointer : (off : ℕ) → off < 2 ^ 14 → target (0xc0 + off / 256) (off % 256) ≡ off
unfolding target
target-pointer off l =
    let e : bit_and (0xc0 + off / 256) 0x3f ≡ off / 256 = ground (
      arith,
      all_below_sound 64 (λ h. (high_bits (0xc0 + h) == 0xc0) && (bit_and (0xc0 + h) 0x3f == h))
          (off / 256) pointer_table (omega arith),
    ) in
    rw e (bit_or-add 8 (off / 256 * 2 ^ 8) (off % 256) (omega arith) (omega arith) ∙ omega arith)
