-- ===== src/Asio/Http/Response/Tests.antt =====
-- A response with two headers.
use net_cpp.Prelude.{
  ℕ, zero, suc, ◌≡◌, refl, ◌≢◌, Bool, true, not, none, some, List, [], ◌∷◌, ◌++◌, arith, leb,
  if◌then◌else◌, length, drop, replicate, Str, codes,
}
use net_cpp.Errc.{ok}
use net_cpp.Http.Proto.{version_to_string, status_to_string}
use net_cpp.Http.Message.{lookup}
use net_cpp.Http.Message
use net_cpp.Http.Message.Print.{puts}
use net_cpp.Asio.Io.{room, Turn, Sent}
use net_cpp.Asio.Io.Whole.{Works}
use net_cpp.Asio.Http.Response.{
  StatusLineView, parse, SmallHeaderMap, has_key, contains, emplace, ResponsePart, line_texts,
  text_entries, text_server, text_of, map_option, to_string, render_head,
}
use net_cpp.Asio.Http.Response.Map.{IsValid, entries, emplace-Wins}
use net_cpp.Asio.Http.Response.Head.{render_head-to_string}
use net_cpp.Asio.Http.Response.Sendto.{ResponseBuilder, sendto, Written, sendto-Written}
use net_cpp.Asio.Http.Response.RoundTrip.{sent_headers, to_string-parse}

abbrev headers : SmallHeaderMap
headers = record {
  slots = (codes "Date", codes "now") ∷ [];
  overflow = (codes "X", codes "y") ∷ [];
}

abbrev part : ResponsePart
part = record {
  status_code = 404;
  status_message = codes "Not Found";
  version = 2;
  headers = headers;
}

headers-IsValid : IsValid headers
unfolding has_key
headers-IsValid = record {
  room = omega arith;
  fit = (omega arith, omega arith, tt);
  distinct = (refl, (refl, tt));
}

emplace-Wins_example :
    IsValid (emplace (codes "Date") (codes "then") headers).1
    × ((emplace (codes "Date") (codes "then") headers).0 ≡ not (contains headers (codes "Date")))
    × (lookup (codes "Date") (entries (emplace (codes "Date") (codes "then") headers).1) ≡ (
        if contains headers (codes "Date")
        then lookup (codes "Date") (entries headers)
        else some (codes "then")))
    × ((j : Str)
        → j ≢ codes "Date"
        → lookup j (entries (emplace (codes "Date") (codes "then") headers).1)
          ≡ lookup j (entries headers))
emplace-Wins_example = emplace-Wins (codes "Date") (codes "then") headers headers-IsValid

render_head-to_string_example :
    render_head part 64 ≡ map_option (λ s. if leb (length s) 64 then s else []) (to_string part)
render_head-to_string_example = render_head-to_string part 64

abbrev head : Str
head =
    codes "HTTP/1.1 404 Not Found"
    ++ (13 ∷ 10 ∷ codes "Date: now")
    ++ (13 ∷ 10 ∷ codes "X: y")
    ++ (13 ∷ 10 ∷ codes "Server: XSL/0.1")
    ++ (13 ∷ 10 ∷ 13 ∷ 10 ∷ [])

head_test : to_string part ≡ some head
unfolding to_string line_texts text_of text_entries text_server contains has_key version_to_string
    status_to_string
head_test = refl

abbrev response : ResponseBuilder
response = record { part = part; body = none; raw_body = codes "no" }

abbrev many : ℕ → List Turn
many n = replicate n (room 3)

many-Works : (n : ℕ) → Works (many n)
many-Works zero = tt
many-Works (suc n) = (omega arith, many-Works n)

sendto-Written_example :
    (s : Sent) × (sendto true (many 100) response ≡ some (some s))
    × Written (many 100) (head ++ codes "no") s
sendto-Written_example =
    sendto-Written true (many 100) response head head_test refl (many-Works 100) (omega arith)

abbrev any_version : Str → Bool
any_version s = true

abbrev no_line : StatusLineView
no_line = record { version = []; status_code = 0; status_message = [] }

to_string-parse_example :
    (n k : ℕ) × (v : Str) × (version_to_string 2 ≡ some v)
    × (parse any_version no_line (head ++ codes "no")
        ≡ (n, ok, record { version = v; status_code = 404; status_message = codes "Not Found" }))
    × (Message.parse (record { headers = []; content_part = [] }) (drop n (head ++ codes "no"))
        ≡ some
            (k, ok, record { headers = puts (sent_headers headers) []; content_part = codes "no" }))
unfolding contains has_key
to_string-parse_example =
    to_string-parse any_version no_line part head (codes "no") head_test (21, refl) refl
      ((refl, refl, refl, refl, (refl, refl, refl, refl, (refl, refl, refl, refl, tt))))
      (λ v e. refl)
