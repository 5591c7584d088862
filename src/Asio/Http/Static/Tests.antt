-- ===== src/Asio/Http/Static/Tests.antt =====
-- A folder with one file, `a.txt`, and no compressed one.
use net_cpp.Prelude.{
  ◌≡◌, refl, true, false, not, none, some, [], ◌∷◌, ◌++◌, if◌then◌else◌, take, Str, codes, str_eq,
}
use net_cpp.Http.Media.{MediaType}
use net_cpp.Http.Proto.{status_to_reason_phrase, to_index}
use net_cpp.Asio.Io.{send}
use net_cpp.Asio.Http.Response.{make_part, emplace, contains, has_key}
use net_cpp.Asio.Http.Response.Sendto.{ResponseBuilder}
use net_cpp.Asio.Http.Context.{
  Request, HandleContext, get_header, with_response, resp_body, decimal, decimal_from,
}
use net_cpp.Asio.Http.Static.{
  Environment, StaticFileConfig, FileError, FileType, no_error, no_such_file, regular, missing,
  is_empty, try_sendfile, on_canonical, on_relative, on_status, on_file, on_size, on_time,
  file_headers,
}
use net_cpp.Asio.Http.Static.Inside.{OpenedBelow, try_sendfile-OpenedBelow}
use net_cpp.Asio.Http.Static.Sendfile.{acceptable, usable, by_encoding, sendfile}
use net_cpp.Asio.Http.Static.Encodings.{AllParse, by_encoding_parsed, sendfile_compressed_missing}

abbrev status_of : Str → FileError × FileType
status_of path =
    if str_eq path (codes "a.txt") then (no_error, regular) else (no_such_file, missing)

abbrev text_type : MediaType
text_type = record { text = codes "text/plain"; slash = 4 }

abbrev folder : Environment
folder = record {
  weakly_canonical = λ path. some path;
  relative = λ path. some path;
  status = status_of;
  file_size = λ path. some 2;
  last_write_time = λ path. some 7;
  under = λ path name. path ++ (b'/' ∷ name);
  strip_extension = λ path. take 5 path;
  extension_type = λ path. text_type;
  write_file = λ path size ts. send ts (codes "hi");
  to_date_string = λ time. codes "then";
  from_date_string = λ text. none;
  media_types = λ text. [];
  encodings = λ text. (text, []) ∷ [];
  weight_parses = λ text. not (is_empty text);
  stale_weight = λ later. false;
}

abbrev config : StaticFileConfig
config = record {
  path = codes "/srv";
  compress_encodings = codes "gzip" ∷ [];
  directory_index = codes "index.html";
}

abbrev gzip_request : Request
gzip_request = record {
  method = 1;
  path = codes "/a.txt";
  rest = record { headers = (codes "Accept-Encoding", codes "gzip") ∷ []; content_part = [] };
}

abbrev context : HandleContext
context = record { current_path = codes "/a.txt"; request = gzip_request; response = none }

abbrev sent : ResponseBuilder
sent = record {
  part = record {
    status_code = 200;
    status_message = codes "OK";
    version = 2;
    headers = record {
      slots =
          (codes "Content-Length", codes "2")
          ∷ (codes "Last-Modified", codes "then")
          ∷ (codes "Content-Type", codes "text/plain")
          ∷ [];
      overflow = [];
    };
  };
  body = some (folder.write_file (codes "a.txt") 2);
  raw_body = [];
}

tried :
    try_sendfile folder config context (codes "a.txt") (codes "text/plain")
    ≡ some (none, record context { response = some sent })
unfolding try_sendfile on_canonical on_relative on_status on_file on_size on_time file_headers
    make_part status_to_reason_phrase to_index emplace contains has_key resp_body with_response
    decimal decimal_from
tried = refl

try_sendfile-OpenedBelow_example : OpenedBelow folder config (codes "a.txt") sent
try_sendfile-OpenedBelow_example =
    try_sendfile-OpenedBelow folder config (codes "a.txt") (codes "text/plain") context
      (record context { response = some sent }) sent tried refl refl

all_parse : AllParse folder (((codes "gzip", codes "1") ∷ []))
all_parse = (refl, tt)

abbrev weighted : Environment
weighted = record folder { encodings = λ text. (text, codes "1") ∷ [] }

by_encoding_parsed_example :
    by_encoding weighted config context (codes "a.txt") (codes "text/plain") (some (codes "gzip"))
    ≡ by_encoding weighted config context (codes "a.txt") (codes "text/plain") none
by_encoding_parsed_example =
    by_encoding_parsed weighted config context (codes "a.txt") (codes "text/plain") (codes "gzip")
      (refl, tt)

no_accept : acceptable folder text_type (get_header (codes "Accept") gzip_request) ≡ true
unfolding acceptable get_header
no_accept = refl

no_since : get_header (codes "If-Modified-Since") gzip_request ≡ none
unfolding get_header
no_since = refl

accepts : get_header (codes "Accept-Encoding") gzip_request ≡ some (codes "gzip")
unfolding get_header
accepts = refl

gzip_usable : usable folder config 0 (codes "gzip", []) ≡ some (codes ".gz")
unfolding usable
gzip_usable = refl

sendfile_compressed_missing_example :
    (c : HandleContext) × (r : ResponseBuilder) × (sendfile folder config context
        (codes "a.txt")
        text_type
      ≡ some (none, c))
    × (c.response ≡ some r)
    × (r.part.status_code ≡ 404)
sendfile_compressed_missing_example =
    sendfile_compressed_missing folder config context (codes "a.txt") (codes "gzip")
      (codes "a.txt.gz") (codes "a.txt.gz") (codes ".gz") text_type (codes "gzip", []) [] missing
      no_accept no_since accepts refl refl gzip_usable refl refl refl refl
