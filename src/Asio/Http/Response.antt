-- ===== src/Asio/Http/Response.antt =====
-- include/xsl/asio/http/response.h, src/asio/http/response.cpp: the response and how it is written.
use net_cpp.Prelude.{
  ℕ, zero, suc, ◌+◌, ◌-◌, ◌*◌, ◌/◌, ◌%◌, ◌^◌, ◌≤◌, ◌<◌, min, bit_and, bit_or, ◌≡◌, refl, sym, ap,
  ap₂, ◌∙◌, ◌≢◌, ◌↔◌, ◌⊎◌, inl, inr, Bool, true, false, not, ◌&&◌, ◌||◌, Option, none, some, List,
  [], ◌∷◌, ◌++◌, append-nil, append_assoc, arith, ltb, leb, ◌==◌, if◌then◌else◌, ltb→lt, lt→ltb,
  leb→le, le→leb, some_inj, ==_iff, Bool-cases, Option-cases, length, get_elem?, get_or, set, take,
  drop, replicate, length-append, length-set, get_or-set_self, get_or-set_ne, take-append,
  drop-append, length-take, length-drop, Str, codes, str_eq, str_eq→eq, str_eq_refl, eq→str_eq,
  str_eq_iff, all_below, all_below_sound,
}
use net_cpp.Prelude.Search.{find_char, find_crlf}
use net_cpp.Errc.{Errc, ok, illegal_byte_sequence, resource_unavailable_try_again}
use net_cpp.Http.Line.{find_from}
use net_cpp.Http.Proto.{
  version_to_string, status_of_string, status_to_string, status_to_reason_phrase, status_unknown,
}
use net_cpp.Asio.Io.{Result, Turn, Sent, send, sendv}
pub mod Map
pub mod Head
mod RoundTrip
pub mod Sendto
mod Tests

-- `StatusLineView`; `parse` gives the new fields with the length and the error.
pub record StatusLineView : Type 0 where
  pub version : Str
  pub status_code : ℕ
  pub status_message : Str

abbrev pub Parsed : Type 0
Parsed = ℕ × Errc × StatusLineView

-- The line between its two separators. `matches` is `std::regex_match` with `http_version_re`.
pub on_separators : (Str → Bool) → StatusLineView → ℕ → Str → Option ℕ → Option ℕ → Parsed
on_separators matches l end line (some sp1) (some sp2) =
    let version = take sp1 line in
    let status = status_of_string (take sp2 (drop (sp1 + 1) line)) in
    let l' = record l { version = version; status_code = status } in
    if not (matches version)
    then (0, illegal_byte_sequence, l)
    else if status == status_unknown
    then (0, illegal_byte_sequence, l')
    else (end + 2, ok, record l' { status_message = drop (sp1 + 1 + sp2 + 1) line })
on_separators matches l end line _ _ = (0, illegal_byte_sequence, l)

pub on_line : (Str → Bool) → StatusLineView → Str → Option ℕ → Parsed
on_line matches l view none = (0, resource_unavailable_try_again, l)
on_line matches l view (some end) =
    let line = take end view in
    let sp1 = find_char b' ' line in on_separators matches l end line sp1 (find_from sp1 line)

pub parse : (Str → Bool) → StatusLineView → Str → Parsed
parse matches l view = on_line matches l view (find_crlf view)

-- `SmallHeaderMap`: the slots in use, and the entries that spilled.
pub record SmallHeaderMap : Type 0 where
  pub slots : List (Str × Str)
  pub overflow : List (Str × Str)

abbrev pub inline_capacity : ℕ
inline_capacity = 8

abbrev pub key_buffer_size : ℕ
key_buffer_size = 40

abbrev pub value_buffer_size : ℕ
value_buffer_size = 64

abbrev pub no_headers : SmallHeaderMap
no_headers = record { slots = []; overflow = [] }

unfoldable pub has_key : Str → List (Str × Str) → Bool
has_key k [] = false
has_key k ((j, v) ∷ m) = str_eq j k || has_key k m

unfoldable pub contains : SmallHeaderMap → Str → Bool
contains m k = has_key k m.slots || has_key k m.overflow

unfoldable pub emplace : Str → Str → SmallHeaderMap → Bool × SmallHeaderMap
emplace k v m =
    if contains m k
    then (false, m)
    else if ltb (length m.slots) inline_capacity
        && leb (length k) key_buffer_size
        && leb (length v) value_buffer_size
    then (true, record m { slots = m.slots ++ ((k, v) ∷ []) })
    else (true, record m { overflow = m.overflow ++ ((k, v) ∷ []) })

pub size : SmallHeaderMap → ℕ
size m = length m.slots + length m.overflow

pub entry : SmallHeaderMap → ℕ → Option (Str × Str)
entry m index =
    if ltb index (length m.slots)
    then get_elem? m.slots index
    else get_elem? m.overflow (index - length m.slots)

-- `ResponsePart`
pub record ResponsePart : Type 0 where
  pub status_code : ℕ
  pub status_message : Str
  pub version : ℕ
  pub headers : SmallHeaderMap

-- A part for a version and a status; its message is the reason phrase, which may lie outside its
-- table.
abbrev pub with_message : ℕ → ℕ → Option Str → Option ResponsePart
with_message version status none = none
with_message version status (some message) = some (record {
  status_code = status;
  status_message = message;
  version = version;
  headers = no_headers;
})

unfoldable pub make_part : ℕ → ℕ → Option ResponsePart
make_part version status = with_message version status (status_to_reason_phrase status)

abbrev pub crlf : Str
crlf = 13 ∷ 10 ∷ []

abbrev pub api_version : Str
api_version = codes "XSL/0.1"

-- The texts of the version and of the status, which may lie outside their tables.
abbrev pub both : Option Str → Option Str → Option (Str × Str)
both (some v) (some s) = some (v, s)
both _ _ = none

unfoldable pub line_texts : ResponsePart → Option (Str × Str)
line_texts p = both (version_to_string p.version) (status_to_string p.status_code)

-- `to_string`
unfoldable pub text_entries : List (Str × Str) → Str → Str
text_entries [] res = res
text_entries ((k, v) ∷ m) res = text_entries m ((((res ++ k) ++ codes ": ") ++ v) ++ crlf)

unfoldable pub text_server : Bool → Str → Str
text_server true res = res
text_server false res = ((res ++ codes "Server: ") ++ api_version) ++ crlf

unfoldable pub text_of : ResponsePart → Str × Str → Str
text_of p (v, s) =
    let line = ((((v ++ codes " ") ++ s) ++ codes " ") ++ p.status_message) ++ crlf in
    let headers = text_entries p.headers.overflow (text_entries p.headers.slots line) in
    text_server (contains p.headers (codes "Server")) headers ++ crlf

abbrev pub map_option {ℓ} : {A B : Type ℓ} → (A → B) → Option A → Option B
map_option f none = none
map_option f (some a) = some (f a)

unfoldable pub to_string : ResponsePart → Option Str
to_string p = map_option (text_of p) (line_texts p)

-- `render_head` writes into a buffer of `cap` bytes; `none` is a text that did not fit.
pub append : ℕ → Str → Option Str → Option Str
append cap sv none = none
append cap sv (some buf) = if ltb cap (length buf + length sv) then none else some (buf ++ sv)

pub render_entries : ℕ → List (Str × Str) → Option Str → Option Str
render_entries cap [] buf = buf
render_entries cap ((k, v) ∷ m) buf =
    render_entries cap m
      (append cap crlf (append cap v (append cap (codes ": ") (append cap k buf))))

pub render_server : ℕ → Bool → Option Str → Option Str
render_server cap true buf = buf
render_server cap false buf =
    append cap crlf (append cap api_version (append cap (codes "Server: ") buf))

abbrev or_empty : Option Str → Str
or_empty none = []
or_empty (some s) = s

pub render_of : ResponsePart → ℕ → Str × Str → Str
render_of p cap (v, s) =
    let start = append cap s (append cap (codes " ") (append cap v (some []))) in
    let line = append cap crlf (append cap p.status_message (append cap (codes " ") start)) in
    let headers = render_entries cap p.headers.overflow (render_entries cap p.headers.slots line) in
    or_empty (append cap crlf (render_server cap (contains p.headers (codes "Server")) headers))

pub render_head : ResponsePart → ℕ → Option Str
render_head p cap = map_option (render_of p cap) (line_texts p)
