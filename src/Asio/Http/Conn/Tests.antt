-- ===== src/Asio/Http/Conn/Tests.antt =====
-- Two requests on one connection, the second of which closes it.
use net_cpp.Prelude.{
  ℕ, zero, suc, ◌≤◌, ◌≡◌, refl, true, none, List, [], ◌∷◌, ◌++◌, arith, if◌then◌else◌, replicate,
  Str, codes,
}
use net_cpp.Errc.{io_error}
use net_cpp.Asio.Io.{Turn, room}
use net_cpp.Asio.Io.Whole.{rooms, Works}
use net_cpp.Asio.Http.Response.{
  no_headers, to_string, line_texts, text_of, text_entries, text_server, contains, has_key, emplace,
}
use net_cpp.Http.Proto.{version_to_string, status_to_string}
use net_cpp.Asio.Http.Response.Sendto.{ResponseBuilder, set_header}
use net_cpp.Asio.Http.Context.{Request, get_header}
use net_cpp.Asio.Http.Service.{Served, replied}
use net_cpp.Asio.Http.Conn.{Incoming, request, failed, closes, with_close, serve_connection}
use net_cpp.Asio.Http.Conn.Pipeline.{Answered, answers, stands, needed, serve_connection-answers}

abbrev keeps : Request
keeps = record { method = 1; path = codes "/"; rest = record { headers = []; content_part = [] } }

abbrev leaves : Request
leaves = record keeps {
  rest = record { headers = (codes "Connection", codes "close") ∷ []; content_part = [] };
}

abbrev ok_response : ResponseBuilder
ok_response = record {
  part = record {
    status_code = 200;
    status_message = codes "OK";
    version = 2;
    headers = no_headers;
  };
  body = none;
  raw_body = codes "hi";
}

abbrev service : Request → Served
service r = replied ok_response

abbrev line_end : Str
line_end = 13 ∷ 10 ∷ []

abbrev keep_text : Str
keep_text =
    (codes "HTTP/1.1 200 OK" ++ line_end ++ codes "Server: XSL/0.1" ++ line_end ++ line_end)
    ++ codes "hi"

abbrev close_text : Str
close_text =
    (codes "HTTP/1.1 200 OK"
      ++ line_end
      ++ codes "Connection: close"
      ++ line_end
      ++ codes "Server: XSL/0.1"
      ++ line_end
      ++ line_end)
    ++ codes "hi"

abbrev text : Request → Str
text r = if closes r then close_text else keep_text

abbrev incoming : List Incoming
incoming = request keeps ∷ request leaves ∷ failed io_error ∷ []

abbrev many : ℕ → List Turn
many n = replicate n (room 7)

many-Works : (n : ℕ) → Works (many n)
many-Works zero = tt
many-Works (suc n) = (omega arith, many-Works n)

answered : Answered service text incoming
unfolding closes get_header with_close set_header emplace to_string line_texts text_of text_entries
    text_server contains has_key version_to_string status_to_string
answered =
    ((ok_response, _, refl, refl, refl, refl), ((ok_response, _, refl, refl, refl, refl), tt))

enough : needed text incoming ≤ rooms (many 200)
unfolding closes get_header
enough = omega arith

serve_connection-answers_example :
    ((serve_connection service true incoming (many 200)).wire ≡ answers text incoming)
    × ((serve_connection service true incoming (many 200)).stop ≡ stands incoming)
serve_connection-answers_example =
    serve_connection-answers service text true incoming (many 200) answered (many-Works 200) enough
