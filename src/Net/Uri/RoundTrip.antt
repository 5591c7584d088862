-- ===== src/Net/Uri/RoundTrip.antt =====
-- Decoding what an encoder writes, and termination.
use net_cpp.Prelude.{
  ℕ, zero, suc, ◌+◌, ◌-◌, ◌/◌, ◌%◌, ◌≤◌, ◌<◌, ◌≡◌, refl, sym, ap, ◌∙◌, Bool, true, false, Option,
  none, some, [], ◌∷◌, ◌++◌, append-nil, append_assoc, arith, ltb, ◌==◌, if◌then◌else◌, ==_iff,
  length, drop, length-append, Str, all_below, all_below_sound,
}
use net_cpp.Net.Uri.{from_chars, decoded, on_value, finish, decode_from, percent_decode}

-- A digit as RFC 3986 writes it.
abbrev pub hex_char : ℕ → ℕ
hex_char d = if ltb d 10 then b'0' + d else b'A' + (d - 10)

abbrev pub encode_byte : ℕ → Str
encode_byte c = b'%' ∷ hex_char (c / 16) ∷ hex_char (c % 16) ∷ []

-- Every byte as a percent sign and two digits.
abbrev pub encode_all : Str → Str
encode_all [] = []
encode_all (c ∷ cs) = b'%' ∷ hex_char (c / 16) ∷ hex_char (c % 16) ∷ encode_all cs

abbrev pub AllBytes : Str → Type 0
AllBytes [] = Unit {0}
AllBytes (c ∷ cs) = (c < 256) × AllBytes cs

abbrev is_value : ℕ → Option ℕ → Bool
is_value c none = false
is_value c (some d) = d == c

hex_table :
    all_below 256 (λ c. is_value c (from_chars (hex_char (c / 16)) (hex_char (c % 16)))) ≡ true
unfolding all_below
hex_table = refl

is_value_sound : (c : ℕ) (o : Option ℕ) → is_value c o ≡ true → o ≡ some c
is_value_sound c none h = ground arith
is_value_sound c (some d) h = ap some ((==_iff d c).0 h)

from_chars-hex_char :
    (c : ℕ) → c < 256 → from_chars (hex_char (c / 16)) (hex_char (c % 16)) ≡ some c
from_chars-hex_char c h = is_value_sound c _ (
    all_below_sound 256 (λ c. is_value c (from_chars (hex_char (c / 16)) (hex_char (c % 16)))) c
      hex_table h)

decode_from-encode_all :
    (f initial_size : ℕ) (buffer cs : Str)
    → AllBytes cs
    → length cs < f
    → decode_from f initial_size buffer (encode_all cs)
      ≡ some (finish initial_size (buffer ++ cs) [])
unfolding decode_from
decode_from-encode_all zero i buffer cs h l = absurd (omega arith)
decode_from-encode_all (suc f) i buffer [] h l =
    ap (λ t. some (finish i t [])) (sym (append-nil buffer))
decode_from-encode_all (suc f) i buffer (c ∷ cs) (here, h) l =
    ap (λ o. on_value (buffer ++ []) (decode_from f i) o (encode_all cs))
      (from_chars-hex_char c here)
    ∙ ap (λ t. decode_from f i (t ++ c ∷ []) (encode_all cs)) (append-nil buffer)
    ∙ decode_from-encode_all f i (buffer ++ c ∷ []) cs h (omega arith)
    ∙ ap (λ t. some (finish i t [])) (append_assoc buffer (c ∷ []) cs)

length-encode_all : (cs : Str) → length cs ≤ length (encode_all cs)
length-encode_all [] = omega arith
length-encode_all (c ∷ cs) = omega (arith, length-encode_all cs)

grown : (buffer cs : Str) → 0 < length cs → (length (buffer ++ cs) == length buffer) ≡ false
grown buffer cs h = ground (arith, length-append buffer cs)

drop_front : (buffer cs : Str) → drop (length buffer) (buffer ++ cs) ≡ cs
drop_front [] cs = refl
drop_front (b ∷ buffer) cs = drop_front buffer cs

finish-append :
    (buffer cs : Str) → finish (length buffer) (buffer ++ cs) [] ≡ decoded cs (buffer ++ cs)
finish-append buffer [] =
    let same : (length (buffer ++ []) == length buffer) ≡ true =
      (==_iff _ _).1 (ap length (append-nil buffer)) in
    rw same refl
finish-append buffer (c ∷ cs) =
    let longer = grown buffer (c ∷ cs) (omega arith) in
    rw longer (
      rw (append-nil (buffer ++ c ∷ cs))
        (ap (λ t. decoded t (buffer ++ c ∷ cs)) (drop_front buffer (c ∷ cs))))

-- A text of bytes that is written with a percent sign and two digits for each byte is decoded to
-- itself, and the buffer grows by just that text.
pub percent_decode-encode_all :
    (buffer cs : Str)
    → AllBytes cs
    → percent_decode buffer (encode_all cs) ≡ some (decoded cs (buffer ++ cs))
unfolding percent_decode
percent_decode-encode_all buffer cs h =
    decode_from-encode_all (suc (length (encode_all cs))) (length buffer) buffer cs h
      (omega (arith, length-encode_all cs))
    ∙ ap some (finish-append buffer cs)
