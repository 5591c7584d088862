-- ===== src/Http/Proto.antt =====
-- include/xsl/net/http/proto.h: versions, methods and status codes, with their texts.
-- An enumeration with an 8- or 16-bit base is that number; a read past a table is `none`.
pub mod Laws
mod Tests
use net_cpp.Prelude.{
  ℕ, ◌+◌, ◌-◌, ◌*◌, ◌<◌, Bool, not, ◌&&◌, ◌||◌, Option, none, some, List, [], ◌∷◌, Str, codes, ltb,
  ◌==◌, if◌then◌else◌, get_elem?,
}
use net_cpp.Http.Tables.{index_of, case_from}

abbrev pub unknown : ℕ
unknown = 0xff

abbrev pub version_strings : List Str
version_strings = codes "EXT" ∷ codes "HTTP/1.0" ∷ codes "HTTP/1.1" ∷ codes "HTTP/2.0" ∷ []

abbrev pub method_strings : List Str
method_strings =
    codes "EXT"
    ∷ codes "GET"
    ∷ codes "POST"
    ∷ codes "PUT"
    ∷ codes "DELETE"
    ∷ codes "HEAD"
    ∷ codes "OPTIONS"
    ∷ codes "TRACE"
    ∷ codes "CONNECT"
    ∷ []

abbrev pub or_unknown : Option ℕ → ℕ
or_unknown none = unknown
or_unknown (some i) = i

-- `Version::from_string_view` and `Version::to_string_view`
pub version_of_string : Str → ℕ
version_of_string s = or_unknown (index_of s version_strings)

unfoldable pub version_to_string : ℕ → Option Str
version_to_string v = if v == unknown then some (codes "Unknown") else get_elem? version_strings v

abbrev pub method_count : ℕ
method_count = 9

-- `Method::from_string_view`, `Method::to_string_view` and `Method::is_valid`
unfoldable pub method_of_string : Str → ℕ
method_of_string s = or_unknown (index_of s method_strings)

unfoldable pub method_to_string : ℕ → Option Str
method_to_string m = if m == unknown then some (codes "Unknown") else get_elem? method_strings m

unfoldable pub method_is_valid : ℕ → Bool
method_is_valid m = ltb m method_count && not (m == unknown)

-- The enumerators of `Status`, in the order of the `case` labels of `Status::to_index`.
abbrev pub status_codes : List ℕ
status_codes =
    100 ∷ 101 ∷ 200 ∷ 201 ∷ 202 ∷ 203 ∷ 204 ∷ 205 ∷ 206 ∷ 300 ∷ 301 ∷ 302 ∷ 303 ∷ 304 ∷ 305 ∷ 307
    ∷ 308 ∷ 400 ∷ 401 ∷ 402 ∷ 403 ∷ 404 ∷ 405 ∷ 406 ∷ 407 ∷ 408 ∷ 409 ∷ 410 ∷ 411 ∷ 412 ∷ 413 ∷ 414
    ∷ 415 ∷ 416 ∷ 417 ∷ 421 ∷ 422 ∷ 426 ∷ 500 ∷ 501 ∷ 502 ∷ 503 ∷ 504 ∷ 505 ∷ []

-- `HTTP_STATUS_STR`
abbrev pub status_strings : List Str
status_strings =
    codes "100"
    ∷ codes "101"
    ∷ codes "200"
    ∷ codes "201"
    ∷ codes "202"
    ∷ codes "203"
    ∷ codes "204"
    ∷ codes "205"
    ∷ codes "206"
    ∷ codes "300"
    ∷ codes "301"
    ∷ codes "302"
    ∷ codes "303"
    ∷ codes "304"
    ∷ codes "305"
    ∷ codes "307"
    ∷ codes "308"
    ∷ codes "400"
    ∷ codes "401"
    ∷ codes "402"
    ∷ codes "403"
    ∷ codes "404"
    ∷ codes "405"
    ∷ codes "406"
    ∷ codes "407"
    ∷ codes "408"
    ∷ codes "409"
    ∷ codes "410"
    ∷ codes "411"
    ∷ codes "412"
    ∷ codes "413"
    ∷ codes "414"
    ∷ codes "415"
    ∷ codes "416"
    ∷ codes "417"
    ∷ codes "421"
    ∷ codes "422"
    ∷ codes "426"
    ∷ codes "500"
    ∷ codes "501"
    ∷ codes "502"
    ∷ codes "503"
    ∷ codes "504"
    ∷ codes "505"
    ∷ codes "UNKNOWN"
    ∷ []

-- `HTTP_REASON_PHRASES`
abbrev pub reason_phrases : List Str
reason_phrases =
    codes "Continue"
    ∷ codes "Switching Protocols"
    ∷ codes "OK"
    ∷ codes "Created"
    ∷ codes "Accepted"
    ∷ codes "Non-Authoritative Information"
    ∷ codes "No Content"
    ∷ codes "Reset Content"
    ∷ codes "Partial Content"
    ∷ codes "Multiple Choices"
    ∷ codes "Moved Permanently"
    ∷ codes "Found"
    ∷ codes "See Other"
    ∷ codes "Not Modified"
    ∷ codes "Use Proxy"
    ∷ codes "Temporary Redirect"
    ∷ codes "Permanent Redirect"
    ∷ codes "Bad Request"
    ∷ codes "Unauthorized"
    ∷ codes "Payment Required"
    ∷ codes "Forbidden"
    ∷ codes "Not Found"
    ∷ codes "Method Not Allowed"
    ∷ codes "Not Acceptable"
    ∷ codes "Proxy Authentication Required"
    ∷ codes "Request Timeout"
    ∷ codes "Conflict"
    ∷ codes "Gone"
    ∷ codes "Length Required"
    ∷ codes "Precondition Failed"
    ∷ codes "Payload Too Large"
    ∷ codes "URI Too Long"
    ∷ codes "Unsupported Media Type"
    ∷ codes "Range Not Satisfiable"
    ∷ codes "Expectation Failed"
    ∷ codes "Misdirected Request"
    ∷ codes "Unprocessable Content"
    ∷ codes "Upgrade Required"
    ∷ codes "Internal Server Error"
    ∷ codes "Not Implemented"
    ∷ codes "Bad Gateway"
    ∷ codes "Service Unavailable"
    ∷ codes "Gateway Timeout"
    ∷ codes "HTTP Version Not Supported"
    ∷ []

abbrev pub status_unknown : ℕ
status_unknown = 0xffff

-- A digit from `lo` to `hi`.
abbrev out_of : ℕ → ℕ → ℕ → Bool
out_of lo hi c = ltb c lo || ltb hi c

-- `Status::from_string_view`
pub status_of_string : Str → ℕ
status_of_string (a ∷ b ∷ c ∷ []) =
    if out_of b'1' b'5' a || out_of b'0' b'9' b || out_of b'0' b'9' c
    then status_unknown
    else (a - b'0') * 100 + (b - b'0') * 10 + (c - b'0')
status_of_string s = status_unknown

-- `Status::to_index`: the number of the first `case` that matches, or of the `default` after them.
unfoldable pub to_index : ℕ → ℕ
to_index status = case_from 0 status status_codes

-- `Status::to_string_view` and `Status::to_reason_phrase`
unfoldable pub status_to_string : ℕ → Option Str
unfolding to_index
status_to_string status = get_elem? status_strings (to_index status)

unfoldable pub status_to_reason_phrase : ℕ → Option Str
unfolding to_index
status_to_reason_phrase status = get_elem? reason_phrases (to_index status)
