-- ===== src/Http/Message/Tests.antt =====
-- The head parser at concrete texts.
use net_cpp.Prelude.{◌≤◌, ◌≡◌, refl, ◌≢◌, some, [], ◌∷◌, ◌++◌, length, drop, Str, codes}
use net_cpp.Errc.{ok, illegal_byte_sequence, resource_unavailable_try_again}
use net_cpp.Http.Message.{MessageRestView, parse, parse_from}
use net_cpp.Http.Message.Resume.{advance, parse_resume}

abbrev cr_lf : Str
cr_lf = 13 ∷ 10 ∷ []

abbrev empty : MessageRestView
empty = record { headers = []; content_part = [] }

-- One header line, and the beginning of the next.
abbrev first_piece : Str
first_piece = codes "Host: a" ++ (cr_lf ++ codes "Acc")

abbrev second_piece : Str
second_piece = codes "ept: b" ++ (cr_lf ++ (cr_lf ++ codes "body"))

abbrev with_host : MessageRestView
with_host = record { headers = (codes "Host", codes "a") ∷ []; content_part = [] }

abbrev whole : MessageRestView
whole = record {
  headers = (codes "Host", codes "a") ∷ (codes "Accept", codes "b") ∷ [];
  content_part = codes "body";
}

first_test : parse empty first_piece ≡ some (9, resource_unavailable_try_again, with_host)
unfolding parse parse_from
first_test = refl

whole_test : parse empty (first_piece ++ second_piece) ≡ some (22, ok, whole)
unfolding parse parse_from
whole_test = refl

no_colon_test : parse empty (codes "Host" ++ cr_lf) ≡ some (0, illegal_byte_sequence, empty)
unfolding parse parse_from
no_colon_test = refl

parse_resume_example :
    (9 ≤ length first_piece)
    × (parse empty (first_piece ++ second_piece)
        ≡ advance 9 (parse with_host (drop 9 first_piece ++ second_piece)))
parse_resume_example = parse_resume empty with_host first_piece second_piece 9 first_test

complete : ok ≢ resource_unavailable_try_again
complete e = cc
