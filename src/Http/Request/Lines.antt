-- ===== src/Http/Request/Lines.antt =====
-- What a request line is parsed to.
use net_cpp.Prelude.{
  ℕ, suc, ◌+◌, ◌≡◌, refl, sym, ap, ◌∙◌, inl, inr, true, Option, none, some, [], ◌∷◌, ◌++◌, arith,
  ◌==◌, some_inj, Bool-cases, length, Str, all_below,
}
use net_cpp.Prelude.Search.{find_char}
use mathlib.Core.Path.{subst}
use net_cpp.Errc.{ok}
use net_cpp.Http.Line.{Word, words_of_table, line_text, Split, split}
use net_cpp.Http.Proto.{method_strings, method_to_string, method_of_string, method_is_valid}
use net_cpp.Http.Proto.Laws.{method_print_parse}
use net_cpp.Net.Uri.{decoded, finish, decode_from, percent_decode}
use net_cpp.Http.Request.{
  RequestLine, origin, Expressions, Parsed, on_decoded, decode_field, on_target, on_version,
  on_separators, on_line, parse,
}

-- A text without a percent sign is not touched.
decode_from_plain :
    (f n : ℕ) (buffer s : Str)
    → find_char b'%' s ≡ none
    → decode_from (suc f) n buffer s ≡ some (finish n buffer s)
unfolding decode_from
decode_from_plain f n buffer s h = rw (decode_from, h) refl

percent_decode_plain :
    (buffer s : Str) → find_char b'%' s ≡ none → percent_decode buffer s ≡ some (decoded [] buffer)
unfolding percent_decode
percent_decode_plain buffer s h =
    let same : (length buffer == length buffer) ≡ true = ground arith in
    decode_from_plain (length s) (length buffer) buffer s h ∙ rw same refl

decode_field_plain :
    (l : RequestLine) (f : Str) (k : RequestLine → Str → Option Parsed)
    → find_char b'%' f ≡ none
    → decode_field l f k ≡ k l f
unfolding decode_field on_decoded
decode_field_plain l f k h = rw (percent_decode_plain l.raw f h) refl

-- The parse of a line that can be cut.
parse-Split :
    (e : Expressions) (l : RequestLine) (a b c r : Str)
    → Split a b c r
    → parse e l (line_text a b c ++ (13 ∷ 10 ∷ r))
      ≡ on_target
          (record l { method = method_of_string a })
          (on_version e (length (line_text a b c)) c)
          (e.match_target b)
unfolding parse on_line on_separators
parse-Split e l a b c r s =
    rw (s.end_found, s.line, s.first)
      (rw (s.behind, s.second) (rw (s.start, s.behind, s.middle, s.last) refl))

method-Word : (m : ℕ) (s : Str) → method_to_string m ≡ some s → Word s
unfolding method_to_string all_below
method-Word m s h = elim (Bool-cases (m == 0xff)) [
  | inl e ↦ subst Word (some_inj (rw e at h)) (record { no_blank = refl; no_return = refl })
  | inr e ↦ words_of_table method_strings m s refl (rw e at h)
]

printed_method :
    (m : ℕ) (s : Str)
    → method_is_valid m ≡ true
    → method_to_string m ≡ some s
    → method_of_string s ≡ m
printed_method m s v h =
    let (s', e, f) = method_print_parse m v in ap method_of_string (some_inj (sym h ∙ e)) ∙ f

-- The text of a valid method, a target that matches as an origin form without percent signs and a
-- version that matches are parsed as that method, path, query and version, whatever the object held
-- before, and the position is behind the line. The target has neither a blank nor a carriage
-- return, and the version no carriage return.
pub parse_printed :
    (e : Expressions) (l : RequestLine) (m : ℕ) (s target path query version r : Str)
    → method_is_valid m ≡ true
    → method_to_string m ≡ some s
    → Word target
    → find_char 13 version ≡ none
    → e.match_target target ≡ some (origin path query)
    → find_char b'%' path ≡ none
    → find_char b'%' query ≡ none
    → e.match_version version ≡ true
    → parse e l (line_text s target version ++ (13 ∷ 10 ∷ r))
      ≡ some (
        length (line_text s target version) + 2,
        ok,
        record l { method = m; path = path; query = query; version = version },
      )
unfolding on_target on_version
parse_printed e l m s target path query version r v h w f t p q u =
    parse-Split e l s target version r (split s target version r (method-Word m s h) w f)
    ∙ rw (t, printed_method m s v h)
        (decode_field_plain _ path _ p ∙ decode_field_plain _ query _ q ∙ rw u refl)

-- A line whose target does not match, while its version does, is accepted, and the path, the query and
-- the authority are those that the object held before. The first two parts have neither a blank nor a
-- carriage return, and the version no carriage return.
pub parse_unmatched :
    (e : Expressions) (l : RequestLine) (a target version r : Str)
    → Word a
    → Word target
    → find_char 13 version ≡ none
    → e.match_target target ≡ none
    → e.match_version version ≡ true
    → parse e l (line_text a target version ++ (13 ∷ 10 ∷ r))
      ≡ some (
        length (line_text a target version) + 2,
        ok,
        record l { method = method_of_string a; version = version },
      )
unfolding on_target on_version
parse_unmatched e l a target version r wa w f t u =
    parse-Split e l a target version r (split a target version r wa w f) ∙ rw (t, u) refl
