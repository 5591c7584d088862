-- ===== src/Http/Request.antt =====
-- include/xsl/net/http/request/line.h, include/xsl/net/http/request/target.h: `RequestLine::parse`.
-- Views are the texts that they show; the two regular expressions are arguments.
use net_cpp.Prelude.{
  ℕ, zero, suc, ◌+◌, ◌-◌, ◌*◌, ◌/◌, ◌%◌, ◌^◌, ◌≤◌, ◌<◌, min, bit_and, bit_or, ◌≡◌, refl, sym, ap,
  ap₂, ◌∙◌, ◌≢◌, ◌↔◌, ◌⊎◌, inl, inr, Bool, true, false, not, ◌&&◌, ◌||◌, Option, none, some, List,
  [], ◌∷◌, ◌++◌, append-nil, append_assoc, arith, ltb, leb, ◌==◌, if◌then◌else◌, ltb→lt, lt→ltb,
  leb→le, le→leb, some_inj, ==_iff, Bool-cases, Option-cases, length, get_elem?, get_or, set, take,
  drop, replicate, length-append, length-set, get_or-set_self, get_or-set_ne, take-append,
  drop-append, length-take, length-drop, Str, codes, str_eq, str_eq→eq, str_eq_refl, eq→str_eq,
  str_eq_iff, all_below, all_below_sound,
}
use net_cpp.Prelude.Search.{find_char, find_crlf}
use net_cpp.Errc.{Errc, ok, illegal_byte_sequence, resource_unavailable_try_again}
use net_cpp.Http.Line.{find_from}
use net_cpp.Http.Proto.{method_of_string}
use net_cpp.Net.Uri.{Decoded, decoded, illegal, percent_decode}
mod Lines
mod Tests

pub record RequestLine : Type 0 where
  pub raw : Str
  pub method : ℕ
  pub scheme : Str
  pub host : Str
  pub port : Str
  pub path : Str
  pub query : Str
  pub version : Str

-- Which alternative of the expression for a target matched, with its parts: `OriginForm`,
-- `AbsoluteForm`, `AuthorityForm` and `AsteriskForm`.
pub data Target : Type 0 where
  origin : (path query : Str) → Target
  absolute : (scheme host port path query : Str) → Target
  authority : (host port : Str) → Target
  asterisk : Target

-- The two expressions, on a text.
pub record Expressions : Type 0 where
  pub match_target : Str → Option Target
  pub match_version : Str → Bool

abbrev pub Parsed : Type 0
Parsed = ℕ × Errc × RequestLine

-- `PERCENT_DECODE`; `none` is a `percent_decode` without a result.
abbrev or_self : Str → Str → Str
or_self [] f = f
or_self (c ∷ cs) f = c ∷ cs

pub on_decoded :
    RequestLine → Str → (RequestLine → Str → Option Parsed) → Option Decoded → Option Parsed
on_decoded l f k none = none
on_decoded l f k (some (decoded text buffer)) = k (record l { raw = buffer }) (or_self text f)
on_decoded l f k (some (illegal buffer)) =
    some (0, illegal_byte_sequence, record l { raw = buffer })

pub decode_field : RequestLine → Str → (RequestLine → Str → Option Parsed) → Option Parsed
decode_field l f k = on_decoded l f k (percent_decode l.raw f)

abbrev or_slash : Str → Str
or_slash [] = codes "/"
or_slash (c ∷ cs) = c ∷ cs

-- What the target sets, before the version is looked at by `k`. A target that does not match sets
-- nothing.
pub on_target : RequestLine → (RequestLine → Option Parsed) → Option Target → Option Parsed
on_target l k none = k l
on_target l k (some (origin path query)) =
    decode_field l path
      (λ l1 p. decode_field (record l1 { path = p }) query (λ l2 q. k (record l2 { query = q })))
on_target l k (some (absolute scheme host port path query)) =
    decode_field (record l { scheme = scheme; host = host; port = port }) path
      (λ l1 p.
        decode_field (record l1 { path = or_slash p }) query (λ l2 q. k (record l2 { query = q })))
on_target l k (some (authority host port)) = k (record l { host = host; port = port })
on_target l k (some asterisk) = k (record l { path = codes "*" })

pub on_version : Expressions → ℕ → Str → RequestLine → Option Parsed
on_version e end version l =
    if e.match_version version
    then some (end + 2, ok, record l { version = version })
    else some (0, illegal_byte_sequence, l)

pub on_separators : Expressions → RequestLine → ℕ → Str → Option ℕ → Option ℕ → Option Parsed
on_separators e l end line (some sp1) (some sp2) =
    let l' = record l { method = method_of_string (take sp1 line) } in
    on_target l' (on_version e end (drop (sp1 + 1 + sp2 + 1) line))
      (e.match_target (take sp2 (drop (sp1 + 1) line)))
on_separators e l end line _ _ = some (0, illegal_byte_sequence, l)

pub on_line : Expressions → RequestLine → Str → Option ℕ → Option Parsed
on_line e l view none = some (0, resource_unavailable_try_again, l)
on_line e l view (some end) =
    let line = take end view in
    let sp1 = find_char b' ' line in on_separators e l end line sp1 (find_from sp1 line)

-- `RequestLine::parse`
pub parse : Expressions → RequestLine → Str → Option Parsed
parse e l view = on_line e l view (find_crlf view)
