-- ===== src/Dns/Header/RoundTrip.antt =====
-- A header is read back from its bytes.
use net_cpp.Prelude.{
  ℕ, ◌+◌, ◌*◌, ◌/◌, ◌%◌, ◌^◌, ◌<◌, ◌≡◌, refl, ap, ◌∙◌, some, [], ◌∷◌, ◌++◌, arith, length, Str,
}
use net_cpp.Dns.Wire.{htons, overwrite, htons_twice, htons-lt}
use net_cpp.Dns.Header.FlagWord.{FitsFields, flags_of_u16, to_u16, flags_of_u16-to_u16}
use net_cpp.Dns.Header.{Header, header_bytes, serialize, deserialize}

-- Each field within the width of its C type.
pub record FitsHeader (h : Header) : Type 0 where
  pub id : h.id < 2 ^ 16
  pub flags : FitsFields h.flags
  pub qdcount : h.qdcount < 2 ^ 16
  pub ancount : h.ancount < 2 ^ 16
  pub nscount : h.nscount < 2 ^ 16
  pub arcount : h.arcount < 2 ^ 16

pub overwrite-append :
    (bs old rest : Str) → length old ≡ length bs → overwrite bs (old ++ rest) ≡ some (bs ++ rest)
overwrite-append [] [] rest h = refl
overwrite-append [] (x ∷ old) rest h = absurd (omega arith)
overwrite-append (b ∷ bs) [] rest h = absurd (omega arith)
overwrite-append (b ∷ bs) (x ∷ old) rest h = rw (overwrite-append bs old rest (omega arith))

-- A word that was swapped and stored is read and swapped back.
pub word_back : (v : ℕ) → v < 2 ^ 16 → htons (htons v % 256 + htons v / 256 % 256 * 256) ≡ v
word_back v h =
    let e : htons v % 256 + htons v / 256 % 256 * 256 ≡ htons v = omega (arith, htons-lt v) in
    ap htons e ∙ htons_twice v h

-- A header is read back whole from what `serialize` writes over the first twelve bytes of a buffer,
-- and the bytes behind them stay as they were.
pub deserialize-serialize :
    (h : Header) (old rest : Str)
    → FitsHeader h
    → length old ≡ 12
    → (buf : Str) × (serialize h (old ++ rest) ≡ some buf) × (deserialize buf ≡ some (h, rest))
unfolding serialize deserialize header_bytes
deserialize-serialize h old rest v e = (
  header_bytes h ++ rest,
  overwrite-append (header_bytes h) old rest e,
  (λ i. some (
    record {
      id = same_id i;
      flags = same_flags i;
      qdcount = word_back h.qdcount v.qdcount i;
      ancount = word_back h.ancount v.ancount i;
      nscount = word_back h.nscount v.nscount i;
      arcount = word_back h.arcount v.arcount i;
    },
    rest,
  )),
)
  where
    same_id : h.id % 256 + h.id / 256 % 256 * 256 ≡ h.id
    same_id = omega arith

    same_flags :
        flags_of_u16
          (htons (htons (to_u16 h.flags) % 256 + htons (to_u16 h.flags) / 256 % 256 * 256))
        ≡ h.flags
    same_flags =
        ap flags_of_u16 (word_back (to_u16 h.flags) (flags_of_u16-to_u16 h.flags v.flags).1)
        ∙ (flags_of_u16-to_u16 h.flags v.flags).0
