-- ===== src/Http/Proto/Tests.antt =====
-- The laws of `Http.Proto` at concrete codes.
use net_cpp.Prelude.{
  ℕ, ◌≡◌, refl, ◌≢◌, Bool, true, not, Option, none, some, arith, ◌==◌, get_elem?, Str, codes,
  all_below, all_below_sound,
}
use mathlib.Core.Bool.{false≢true}
use net_cpp.Prelude.Lists.{get_elem?-lt}
use net_cpp.Http.Proto.{unknown, method_of_string, method_is_valid, version_of_string, status_codes}
use net_cpp.Http.Proto.Laws.{IsListed}

abbrev get : Str
get = codes "GET"

get_known : method_of_string get ≢ unknown
unfolding method_of_string
get_known e = ground arith

one_valid : method_is_valid 1 ≡ true
unfolding method_is_valid
one_valid = refl

abbrev http11 : Str
http11 = codes "HTTP/1.1"

http11_known : version_of_string http11 ≢ unknown
unfolding version_of_string
http11_known e = ground arith

not_found : IsListed 404
not_found = (21, refl)

abbrev is_not : ℕ → Option ℕ → Bool
is_not c none = true
is_not c (some d) = not (d == c)

teapot_table : all_below 44 (λ i. is_not 418 (get_elem? status_codes i)) ≡ true
unfolding all_below
teapot_table = refl

teapot : ¬ (IsListed 418)
teapot (i, e) =
    let here : is_not 418 (get_elem? status_codes i) ≡ true =
      all_below_sound 44 (λ i. is_not 418 (get_elem? status_codes i)) i teapot_table
        (get_elem?-lt status_codes i 418 e) in
    let h : is_not 418 (some 418) ≡ true = rw e at here in absurd (false≢true h)
