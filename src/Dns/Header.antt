-- ===== src/Dns/Header.antt =====
-- include/xsl/net/dns/proto/header.h: the flags word and the header of a message.
pub mod FlagWord
pub mod RoundTrip
pub mod View
mod Tests
use net_cpp.Prelude.{
  ℕ, zero, suc, ◌+◌, ◌-◌, ◌*◌, ◌/◌, ◌%◌, ◌^◌, ◌≤◌, ◌<◌, min, bit_and, bit_or, ◌≡◌, refl, sym, ap,
  ap₂, ◌∙◌, ◌≢◌, ◌↔◌, ◌⊎◌, inl, inr, Bool, true, false, not, ◌&&◌, ◌||◌, Option, none, some, List,
  [], ◌∷◌, ◌++◌, append-nil, append_assoc, arith, ltb, leb, ◌==◌, if◌then◌else◌, ltb→lt, lt→ltb,
  leb→le, ==_iff, Bool-cases, Option-cases, length, get_elem?, get_or, set, take, drop, replicate,
  length-append, length-set, get_or-set_self, get_or-set_ne, take-append, drop-append, length-take,
  length-drop, Str, codes, str_eq, str_eq→eq, str_eq_refl, eq→str_eq, str_eq_iff, all_below,
  all_below_sound,
}
use net_cpp.Dns.Wire.{htons, as_bytes, overwrite, overwrite_at, read_u16}
use net_cpp.Dns.Header.FlagWord.{Flags, flags_of_u16, to_u16}

-- `Header`
pub record Header : Type 0 where
  pub id : ℕ
  pub flags : Flags
  pub qdcount : ℕ
  pub ancount : ℕ
  pub nscount : ℕ
  pub arcount : ℕ

-- The bytes that `Header::serialize` writes: the identifier goes in the order of the host.
pub header_bytes : Header → Str
header_bytes h =
    as_bytes h.id
    ++ (as_bytes (htons (to_u16 h.flags))
        ++ (as_bytes (htons h.qdcount)
            ++ (as_bytes (htons h.ancount)
                ++ (as_bytes (htons h.nscount) ++ as_bytes (htons h.arcount)))))

-- `Header::serialize(byte *buf)`
pub serialize : Header → Str → Option Str
unfolding header_bytes
serialize h buf = overwrite (header_bytes h) buf

infixl 5 ◌>>=◌
abbrev ◌>>=◌ {ℓ κ} : {A : Type ℓ} {B : Type κ} → Option A → (A → Option B) → Option B
none >>= f = none
some a >>= f = f a

-- `Header::deserialize`, with the rest of the buffer.
pub deserialize : Str → Option (Header × Str)
deserialize buf = do
  (id, b1) ← read_u16 buf
  (u, b2) ← read_u16 b1
  (qd, b3) ← read_u16 b2
  (an, b4) ← read_u16 b3
  (ns, b5) ← read_u16 b4
  (ar, b6) ← read_u16 b5
  some (
    record {
      id = id;
      flags = flags_of_u16 (htons u);
      qdcount = htons qd;
      ancount = htons an;
      nscount = htons ns;
      arcount = htons ar;
    },
    b6,
  )

-- `HeaderView::response` and `HeaderView::basic_response` on the bytes of a header.
abbrev pub on_flags : (Flags → Flags) → Str → Option Str
on_flags f buf = do
  (u, rest) ← read_u16 (drop 2 buf)
  overwrite_at 2 (as_bytes (htons (to_u16 (f (flags_of_u16 (htons u)))))) buf

pub response : Str → Option Str
response = on_flags (λ f. record f { qr = 1 })

pub basic_response : Str → Option Str
basic_response = on_flags (λ f. record f { qr = 1; ra = 1; ad = 0 })

-- `HeaderView::qdcount`, and the setters of the other counts.
pub qdcount_of : Str → Option ℕ
qdcount_of buf = do (u, rest) ← read_u16 (drop 4 buf); some (htons u)

pub set_ancount : ℕ → Str → Option Str
set_ancount count buf = overwrite_at 6 (as_bytes (htons count)) buf

pub set_arcount : ℕ → Str → Option Str
set_arcount count buf = overwrite_at 10 (as_bytes (htons count)) buf
