-- ===== src/Dns/Header/FlagWord.antt =====
-- `Flags` of include/xsl/net/dns/proto/header.h: ten bit fields of one word.
use net_cpp.Prelude.{ℕ, ◌+◌, ◌*◌, ◌/◌, ◌%◌, ◌^◌, ◌<◌, bit_and, bit_or, ◌≡◌, ap, ◌∙◌, arith}
use net_cpp.Prelude.Bits.{bit_or-add, bit_and-mask}

pub record Flags : Type 0 where
  pub qr : ℕ
  pub opcode : ℕ
  pub aa : ℕ
  pub tc : ℕ
  pub rd : ℕ
  pub ra : ℕ
  pub z : ℕ
  pub ad : ℕ
  pub cd : ℕ
  pub rcode : ℕ  -- `_rcode`

abbrev shr : ℕ → ℕ → ℕ
shr x k = x / 2 ^ k

-- `Flags(std::uint16_t)`
unfoldable pub flags_of_u16 : ℕ → Flags
flags_of_u16 w = record {
  qr = bit_and (shr w 15) 0x1;
  opcode = bit_and (shr w 11) 0xf;
  aa = bit_and (shr w 10) 0x1;
  tc = bit_and (shr w 9) 0x1;
  rd = bit_and (shr w 8) 0x1;
  ra = bit_and (shr w 7) 0x1;
  z = bit_and (shr w 6) 0x1;
  ad = bit_and (shr w 5) 0x1;
  cd = bit_and (shr w 4) 0x1;
  rcode = bit_and w 0xf;
}

-- `Flags::to_u16`
unfoldable pub to_u16 : Flags → ℕ
to_u16 f =
    bit_or
      (bit_or
        (bit_or
          (bit_or
            (bit_or
              (bit_or
                (bit_or (bit_or (bit_or (f.qr * 2 ^ 15) (f.opcode * 2 ^ 11)) (f.aa * 2 ^ 10))
                  (f.tc * 2 ^ 9))
                (f.rd * 2 ^ 8))
              (f.ra * 2 ^ 7))
            (f.z * 2 ^ 6))
          (f.ad * 2 ^ 5))
        (f.cd * 2 ^ 4))
      f.rcode

-- Each field within the width of its bit field.
pub record FitsFields (f : Flags) : Type 0 where
  pub qr : f.qr < 2
  pub opcode : f.opcode < 16
  pub aa : f.aa < 2
  pub tc : f.tc < 2
  pub rd : f.rd < 2
  pub ra : f.ra < 2
  pub z : f.z < 2
  pub ad : f.ad < 2
  pub cd : f.cd < 2
  pub rcode : f.rcode < 16

abbrev sum_of : Flags → ℕ
sum_of f =
    f.qr * 2 ^ 15
    + f.opcode * 2 ^ 11
    + f.aa * 2 ^ 10
    + f.tc * 2 ^ 9
    + f.rd * 2 ^ 8
    + f.ra * 2 ^ 7
    + f.z * 2 ^ 6
    + f.ad * 2 ^ 5
    + f.cd * 2 ^ 4
    + f.rcode

-- The fields do not overlap, so `|` adds them.
to_u16-eq-sum : (f : Flags) → FitsFields f → to_u16 f ≡ sum_of f
unfolding to_u16
to_u16-eq-sum f v = rw (
  bit_or-add 15 (f.qr * 2 ^ 15) (f.opcode * 2 ^ 11) (omega arith) (omega arith),
  bit_or-add 11 (f.qr * 2 ^ 15 + f.opcode * 2 ^ 11) (f.aa * 2 ^ 10) (omega arith) (omega arith),
  bit_or-add 10 (f.qr * 2 ^ 15 + f.opcode * 2 ^ 11 + f.aa * 2 ^ 10) (f.tc * 2 ^ 9) (omega arith)
      (omega arith),
  bit_or-add 9 (f.qr * 2 ^ 15 + f.opcode * 2 ^ 11 + f.aa * 2 ^ 10 + f.tc * 2 ^ 9) (f.rd * 2 ^ 8)
      (omega arith) (omega arith),
  bit_or-add 8 (f.qr * 2 ^ 15 + f.opcode * 2 ^ 11 + f.aa * 2 ^ 10 + f.tc * 2 ^ 9 + f.rd * 2 ^ 8)
      (f.ra * 2 ^ 7) (omega arith) (omega arith),
  bit_or-add 7
      (f.qr * 2 ^ 15
        + f.opcode * 2 ^ 11
        + f.aa * 2 ^ 10
        + f.tc * 2 ^ 9
        + f.rd * 2 ^ 8
        + f.ra * 2 ^ 7)
      (f.z * 2 ^ 6) (omega arith) (omega arith),
  bit_or-add 6
      (f.qr * 2 ^ 15
        + f.opcode * 2 ^ 11
        + f.aa * 2 ^ 10
        + f.tc * 2 ^ 9
        + f.rd * 2 ^ 8
        + f.ra * 2 ^ 7
        + f.z * 2 ^ 6)
      (f.ad * 2 ^ 5) (omega arith) (omega arith),
  bit_or-add 5
      (f.qr * 2 ^ 15
        + f.opcode * 2 ^ 11
        + f.aa * 2 ^ 10
        + f.tc * 2 ^ 9
        + f.rd * 2 ^ 8
        + f.ra * 2 ^ 7
        + f.z * 2 ^ 6
        + f.ad * 2 ^ 5)
      (f.cd * 2 ^ 4) (omega arith) (omega arith),
  bit_or-add 4
      (f.qr * 2 ^ 15
        + f.opcode * 2 ^ 11
        + f.aa * 2 ^ 10
        + f.tc * 2 ^ 9
        + f.rd * 2 ^ 8
        + f.ra * 2 ^ 7
        + f.z * 2 ^ 6
        + f.ad * 2 ^ 5
        + f.cd * 2 ^ 4)
      f.rcode (omega arith) (omega arith),
)

bit_at : (w k : ℕ) → bit_and (shr w k) 0x1 ≡ w / 2 ^ k % 2
bit_at w k = bit_and-mask 1 (shr w k)

nibble_at : (w : ℕ) → bit_and w 0xf ≡ w % 16
nibble_at w = bit_and-mask 4 w

-- The fields of a word, as quotients and remainders.
abbrev parts : ℕ → Flags
parts w = record {
  qr = w / 2 ^ 15 % 2;
  opcode = w / 2 ^ 11 % 16;
  aa = w / 2 ^ 10 % 2;
  tc = w / 2 ^ 9 % 2;
  rd = w / 2 ^ 8 % 2;
  ra = w / 2 ^ 7 % 2;
  z = w / 2 ^ 6 % 2;
  ad = w / 2 ^ 5 % 2;
  cd = w / 2 ^ 4 % 2;
  rcode = w % 16;
}

flags_of_u16-eq-parts : (w : ℕ) → flags_of_u16 w ≡ parts w
unfolding flags_of_u16
flags_of_u16-eq-parts w = λ i. record {
  qr = bit_at w 15 i;
  opcode = nibble_at (shr w 11) i;
  aa = bit_at w 10 i;
  tc = bit_at w 9 i;
  rd = bit_at w 8 i;
  ra = bit_at w 7 i;
  z = bit_at w 6 i;
  ad = bit_at w 5 i;
  cd = bit_at w 4 i;
  rcode = nibble_at w i;
}

-- The fields of any word fit.
pub flags_of_u16-FitsFields : (w : ℕ) → FitsFields (flags_of_u16 w)
flags_of_u16-FitsFields w = rw (flags_of_u16-eq-parts w) (omega arith)

-- Reading a word into its fields loses nothing: the fields give the word back.
pub to_u16-flags_of_u16 : (w : ℕ) → w < 2 ^ 16 → to_u16 (flags_of_u16 w) ≡ w
to_u16-flags_of_u16 w h =
    to_u16-eq-sum (flags_of_u16 w) (flags_of_u16-FitsFields w)
    ∙ ap sum_of (flags_of_u16-eq-parts w)
    ∙ omega arith

parts-sum_of : (f : Flags) → FitsFields f → parts (sum_of f) ≡ f
parts-sum_of f v = λ i. record {
  qr = eqr i;
  opcode = eopcode i;
  aa = eaa i;
  tc = etc i;
  rd = erd i;
  ra = era i;
  z = ez i;
  ad = ead i;
  cd = ecd i;
  rcode = ercode i;
}
  where
    eqr : (parts (sum_of f)).qr ≡ f.qr
    eqr = omega arith

    eopcode : (parts (sum_of f)).opcode ≡ f.opcode
    eopcode = omega arith

    eaa : (parts (sum_of f)).aa ≡ f.aa
    eaa = omega arith

    etc : (parts (sum_of f)).tc ≡ f.tc
    etc = omega arith

    erd : (parts (sum_of f)).rd ≡ f.rd
    erd = omega arith

    era : (parts (sum_of f)).ra ≡ f.ra
    era = omega arith

    ez : (parts (sum_of f)).z ≡ f.z
    ez = omega arith

    ead : (parts (sum_of f)).ad ≡ f.ad
    ead = omega arith

    ecd : (parts (sum_of f)).cd ≡ f.cd
    ecd = omega arith

    ercode : (parts (sum_of f)).rcode ≡ f.rcode
    ercode = omega arith

-- Fields within their widths are found again in the word that they make up, which has 16 bits.
pub flags_of_u16-to_u16 :
    (f : Flags) → FitsFields f → (flags_of_u16 (to_u16 f) ≡ f) × (to_u16 f < 2 ^ 16)
flags_of_u16-to_u16 f v =
    let e : to_u16 f ≡ sum_of f = to_u16-eq-sum f v in
    (flags_of_u16-eq-parts (to_u16 f) ∙ ap parts e ∙ parts-sum_of f v, rw e (omega arith))
