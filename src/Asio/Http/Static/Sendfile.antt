-- ===== src/Asio/Http/Static/Sendfile.antt =====
-- include/xsl/asio/http/component: `sendfile`, the handlers of static files and of redirects.
use net_cpp.Prelude.{
  ℕ, Bool, true, false, not, ◌&&◌, ◌||◌, Option, none, some, List, [], ◌∷◌, ◌++◌, length, leb, ◌==◌,
  if◌then◌else◌, Str, codes, str_eq,
}
use net_cpp.Http.Media.{MediaType, find_key, type_includes}
use net_cpp.Asio.Http.Response.{ResponsePart, emplace, make_part, map_option}
use net_cpp.Asio.Http.Response.Sendto.{set_header}
use net_cpp.Asio.Http.Context.{HandleContext, http_1_1, get_header, has_header, resp, resp_text}
use net_cpp.Asio.Http.Static.{
  Environment, StaticFileConfig, FileType, regular, directory, Reply, fails, no_status, method_get,
  method_head, try_sendfile,
}

-- `encoding_to_extension`
abbrev pub encoding_to_extension : List (Str × Str)
encoding_to_extension =
    (codes "br", codes ".br")
    ∷ (codes "gzip", codes ".gz")
    ∷ (codes "deflate", codes ".deflate")
    ∷ []

abbrev pub any_includes : MediaType → List MediaType → Bool
any_includes type [] = false
any_includes type (m ∷ ms) = type_includes m type || any_includes type ms

abbrev pub mem : Str → List Str → Bool
mem s [] = false
mem s (t ∷ ts) = str_eq t s || mem s ts

-- The first tests of `sendfile`: the Accept header, and whether the file was modified.
unfoldable pub acceptable : Environment → MediaType → Option Str → Bool
acceptable env type none = true
acceptable env type (some accept) = any_includes type (env.media_types accept)

-- The time of the file comes first, and without one the program throws.
abbrev pub not_after : Option ℕ → Option ℕ → Option Bool
not_after none since = none
not_after (some modified) none = some false
not_after (some modified) (some since) = some (leb modified since)

unfoldable pub unmodified : Environment → Str → Bool → Option Str → Option Bool
unmodified env path true since = some false
unmodified env path false none = some false
unmodified env path false (some since) =
    not_after (env.last_write_time path) (env.from_date_string since)

abbrev pub unless_unmodified : HandleContext → Reply → Option Bool → Reply
unless_unmodified c reply none = none
unless_unmodified c reply (some true) = fails 304 c
unless_unmodified c reply (some false) = reply

abbrev pub no_encodings : List Str → Bool
no_encodings [] = true
no_encodings (e ∷ es) = false

module _ (env : Environment) (cfg : StaticFileConfig) where
  -- The encoding on the response, behind a try that left no status.
  abbrev pub encoded : Str → HandleContext → HandleContext
  encoded encoding c = record c {
    response = map_option (set_header (codes "Content-Encoding") encoding) c.response;
  }

  abbrev pub or_next : Str → Reply → Reply → Reply
  or_next encoding none next = none
  or_next encoding (some (none, c)) next = some (none, encoded encoding c)
  or_next encoding (some (some status, c)) next = next

  -- The extension for an encoding that is tried, by the number of encodings behind it; a failed try leaves the context as it was.
  unfoldable pub usable : ℕ → Str × Str → Option Str
  usable later (encoding, weight) =
      if env.weight_parses weight || env.stale_weight later
      then none
      else if mem encoding cfg.compress_encodings
      then find_key encoding encoding_to_extension
      else none

  unfoldable pub try_extension :
      HandleContext → Str → Str → Str → Option Str → (Str → Reply) → Reply
  try_extension c path type encoding none next = next path
  try_extension c path type encoding (some ext) next =
      or_next encoding (try_sendfile env cfg c (path ++ ext) type)
        (next (env.strip_extension (path ++ ext)))

  unfoldable pub try_encodings : HandleContext → Str → Str → List (Str × Str) → Reply
  try_encodings c path type [] = try_sendfile env cfg c path type
  try_encodings c path type (e ∷ es) =
      try_extension c path type e.0 (usable (length es) e) (λ p. try_encodings c p type es)

  unfoldable pub by_encoding : HandleContext → Str → Str → Option Str → Reply
  by_encoding c path type none = try_sendfile env cfg c path type
  by_encoding c path type (some accept) =
      if no_encodings cfg.compress_encodings
      then try_sendfile env cfg c path type
      else try_encodings c path type (env.encodings accept)

  -- `sendfile`
  unfoldable pub sendfile : HandleContext → Str → MediaType → Reply
  sendfile c path type =
      let r = c.request in
      let reply = by_encoding c path type.text (get_header (codes "Accept-Encoding") r) in
      let since = get_header (codes "If-Modified-Since") r in
      if not (acceptable env type (get_header (codes "Accept") r))
      then fails 406 c
      else unless_unmodified c reply
          (unmodified env path (has_header (codes "If-None-Match") r) since)

  -- `FileRouteHandler` and `FolderRouteHandler`
  pub file_route : HandleContext → Reply
  file_route c = sendfile c cfg.path (env.extension_type cfg.path)

  abbrev refuse_method : HandleContext → Option ResponsePart → Reply
  refuse_method c none = none
  refuse_method c (some part) =
      let allow = (emplace (codes "Allow") (codes "GET, HEAD") part.headers).1 in
      some (
        no_status
          (resp_text (record part { headers = allow }) (codes "Supported methods: GET, HEAD") c))

  pub folder_route : HandleContext → Reply
  folder_route c = in_folder c.current_path
    where
      in_folder : Str → Reply
      in_folder [] = fails 404 c
      in_folder (_ ∷ rest) =
          let path = env.under cfg.path rest in
          let m = c.request.method in
          let reply = sendfile c path (env.extension_type path) in
          if not (m == method_get) && not (m == method_head)
          then refuse_method c (make_part http_1_1 405)
          else reply

  -- `create_static_handler`; `none` is a failed assertion.
  pub create_static_handler : FileType → Option (HandleContext → Reply)
  create_static_handler directory = some folder_route
  create_static_handler regular = some file_route
  create_static_handler _ = none

-- `create_redirect_handler`
abbrev located : Str → HandleContext → Option ResponsePart → Reply
located path c none = none
located path c (some part) = some (
    no_status (resp (record part { headers = (emplace (codes "Location") path part.headers).1 }) c))

pub create_redirect_handler : Str → HandleContext → Reply
create_redirect_handler path c = located path c (make_part http_1_1 301)
