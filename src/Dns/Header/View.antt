-- ===== src/Dns/Header/View.antt =====
-- `HeaderView`: changes in place of the bytes of a header.
use net_cpp.Prelude.{ℕ, ◌+◌, ◌*◌, ◌/◌, ◌%◌, ◌≡◌, refl, ap, ◌∙◌, some, ◌∷◌, ◌++◌, Str}
use net_cpp.Dns.Wire.{htons, as_bytes}
use net_cpp.Dns.Header.FlagWord.{Flags, flags_of_u16, to_u16, flags_of_u16-to_u16}
use net_cpp.Dns.Header.{Header, header_bytes, basic_response, qdcount_of, set_ancount}
use net_cpp.Dns.Header.RoundTrip.{FitsHeader, word_back}

-- The header of a basic response to `h`: a response, with recursion available and its data not
-- authenticated.
abbrev pub answered : Header → Header
answered h = record h { flags = record h.flags { qr = 1; ra = 1; ad = 0 } }

-- `basic_response` on the bytes of a header gives the bytes of the header with exactly those three
-- flags changed, and leaves what follows it alone.
pub basic_response_lem :
    (h : Header) (rest : Str)
    → FitsHeader h
    → basic_response (header_bytes h ++ rest) ≡ some (header_bytes (answered h) ++ rest)
unfolding basic_response header_bytes
basic_response_lem h rest v =
    ap
      (λ (f : Flags). some (
        h.id % 256
          ∷ h.id / 256 % 256
          ∷ (as_bytes (htons (to_u16 (record f { qr = 1; ra = 1; ad = 0 }))))
        ++ tail))
      same_flags
  where
    tail : Str
    tail =
        as_bytes (htons h.qdcount)
        ++ (as_bytes (htons h.ancount)
            ++ (as_bytes (htons h.nscount) ++ (as_bytes (htons h.arcount) ++ rest)))

    same_flags :
        flags_of_u16
          (htons (htons (to_u16 h.flags) % 256 + htons (to_u16 h.flags) / 256 % 256 * 256))
        ≡ h.flags
    same_flags =
        ap flags_of_u16 (word_back (to_u16 h.flags) (flags_of_u16-to_u16 h.flags v.flags).1)
        ∙ (flags_of_u16-to_u16 h.flags v.flags).0

-- The other fields of a view: the question count is read, and the answer count is written, alone.
pub counts_lem :
    (h : Header) (rest : Str) (count : ℕ)
    → FitsHeader h
    → (qdcount_of (header_bytes h ++ rest) ≡ some h.qdcount)
      × (set_ancount count (header_bytes h ++ rest)
          ≡ some (header_bytes (record h { ancount = count }) ++ rest))
unfolding qdcount_of set_ancount header_bytes
counts_lem h rest count v = (ap some (word_back h.qdcount v.qdcount), refl)
