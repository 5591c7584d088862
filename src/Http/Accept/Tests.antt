-- ===== src/Http/Accept/Tests.antt =====
-- Header values without parameters.
use net_cpp.Prelude.{◌≡◌, refl, Option, none, some, [], ◌∷◌, Str, codes}
use net_cpp.Http.Accept.{entries, out_of_range, entries_from, parse_accept_encoding}

abbrev no_parameter : Str → Option Str
no_parameter s = none

two_test :
    parse_accept_encoding no_parameter (codes "gzip, br")
    ≡ some (entries ((codes "gzip", []) ∷ (codes "br", []) ∷ []))
unfolding parse_accept_encoding entries_from
two_test = refl

-- A comma at the end throws.
trailing_comma_test : parse_accept_encoding no_parameter (codes "gzip,") ≡ some out_of_range
unfolding parse_accept_encoding entries_from
trailing_comma_test = refl
