-- ===== src/Http/Request/Tests.antt =====
-- A request line, and one whose target does not match.
use net_cpp.Prelude.{
  ◌+◌, ◌≡◌, refl, true, Option, none, some, [], ◌∷◌, ◌++◌, ◌==◌, if◌then◌else◌, length, Str, codes,
}
use net_cpp.Errc.{ok}
use net_cpp.Http.Line.{Word, line_text}
use net_cpp.Http.Proto.{method_to_string, method_is_valid, method_of_string}
use net_cpp.Http.Request.{RequestLine, Target, origin, Expressions, parse}
use net_cpp.Http.Request.Lines.{parse_printed, parse_unmatched}

-- Only a target that begins with a slash matches.
abbrev slash_target : Str → Option Target
slash_target [] = none
slash_target (c ∷ cs) = if c == b'/' then some (origin (c ∷ cs) []) else none

abbrev expressions : Expressions
expressions = record { match_target = slash_target; match_version = λ s. true }

abbrev before : RequestLine
before = record {
  raw = [];
  method = 1;
  scheme = [];
  host = [];
  port = [];
  path = codes "/secret";
  query = [];
  version = [];
}

path-Word : Word (codes "/a")
path-Word = record { no_blank = refl; no_return = refl }

valid : method_is_valid 2 ≡ true
unfolding method_is_valid
valid = refl

post : method_to_string 2 ≡ some (codes "POST")
unfolding method_to_string
post = refl

parse_printed_example :
    parse expressions before
      (line_text (codes "POST") (codes "/a") (codes "HTTP/1.1") ++ (13 ∷ 10 ∷ []))
    ≡ some (
      length (line_text (codes "POST") (codes "/a") (codes "HTTP/1.1")) + 2,
      ok,
      record before { method = 2; path = codes "/a"; query = []; version = codes "HTTP/1.1" },
    )
parse_printed_example =
    parse_printed expressions before 2 (codes "POST") (codes "/a") (codes "/a") []
      (codes "HTTP/1.1") [] valid post path-Word refl refl refl refl refl

parse_unmatched_example :
    parse expressions before
      (line_text (codes "GET") (codes "*a") (codes "HTTP/1.1") ++ (13 ∷ 10 ∷ []))
    ≡ some (
      length (line_text (codes "GET") (codes "*a") (codes "HTTP/1.1")) + 2,
      ok,
      record before { method = method_of_string (codes "GET"); version = codes "HTTP/1.1" },
    )
parse_unmatched_example =
    parse_unmatched expressions before (codes "GET") (codes "*a") (codes "HTTP/1.1") []
      (record { no_blank = refl; no_return = refl }) (record { no_blank = refl; no_return = refl })
      refl refl refl
