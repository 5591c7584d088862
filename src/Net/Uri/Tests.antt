-- ===== src/Net/Uri/Tests.antt =====
-- Decoding concrete texts.
use net_cpp.Prelude.{◌≡◌, refl, some, [], ◌∷◌, ◌++◌, arith, codes}
use net_cpp.Net.Uri.{decoded, illegal, decode_from, percent_decode}
use net_cpp.Net.Uri.RoundTrip.{AllBytes, encode_all, percent_decode-encode_all}

mixed_test : percent_decode [] (codes "a%20b%2Fc") ≡ some (decoded (codes "a b/c") (codes "a b/c"))
unfolding percent_decode decode_from
mixed_test = refl

-- A text without a percent sign gives the empty text.
plain_test : percent_decode (codes "x") (codes "abc") ≡ some (decoded [] (codes "x"))
unfolding percent_decode decode_from
plain_test = refl

-- One digit is enough.
one_digit_test : percent_decode [] (codes "%4G") ≡ some (decoded (4 ∷ []) (4 ∷ []))
unfolding percent_decode decode_from
one_digit_test = refl

short_test : percent_decode [] (codes "ab%4") ≡ some (illegal (codes "ab"))
unfolding percent_decode decode_from
short_test = refl

bytes_ok : AllBytes (0 ∷ 37 ∷ 255 ∷ [])
bytes_ok = (omega arith, (omega arith, (omega arith, tt)))

percent_decode-encode_all_example :
    percent_decode (codes "x") (encode_all (0 ∷ 37 ∷ 255 ∷ []))
    ≡ some (decoded (0 ∷ 37 ∷ 255 ∷ []) (codes "x" ++ 0 ∷ 37 ∷ 255 ∷ []))
percent_decode-encode_all_example =
    percent_decode-encode_all (codes "x") (0 ∷ 37 ∷ 255 ∷ []) bytes_ok
