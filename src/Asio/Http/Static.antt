-- ===== src/Asio/Http/Static.antt =====
-- include/xsl/asio/http/component: `StaticFileServer` with its two handlers, the table of compress.h
-- and the handler of redirect.h.
-- What the code asks the file system and the clock, and what it reads from the Accept headers, are
-- the fields of `Environment`.
use net_cpp.Prelude.{
  ℕ, zero, suc, ◌+◌, ◌-◌, ◌*◌, ◌/◌, ◌%◌, ◌^◌, ◌≤◌, ◌<◌, min, bit_and, bit_or, ◌≡◌, refl, sym, ap,
  ap₂, ◌∙◌, ◌≢◌, ◌↔◌, ◌⊎◌, inl, inr, Bool, true, false, not, ◌&&◌, ◌||◌, Option, none, some, List,
  [], ◌∷◌, ◌++◌, append-nil, append_assoc, arith, ltb, leb, ◌==◌, if◌then◌else◌, ltb→lt, lt→ltb,
  leb→le, le→leb, some_inj, ==_iff, Bool-cases, Option-cases, length, get_elem?, get_or, set, take,
  drop, replicate, length-append, length-set, get_or-set_self, get_or-set_ne, take-append,
  drop-append, length-take, length-drop, Str, codes, str_eq, str_eq→eq, str_eq_refl, eq→str_eq,
  str_eq_iff, all_below, all_below_sound,
}
use net_cpp.Http.Media.{MediaType, type_includes}
use net_cpp.Asio.Io.{Turn, Sent}
use net_cpp.Asio.Http.Response.{SmallHeaderMap, ResponsePart, emplace, make_part, map_option}
use net_cpp.Asio.Http.Response.Sendto.{ResponseBuilder, set_header}
use net_cpp.Asio.Http.Context.{
  Request, HandleContext, http_1_1, get_header, has_header, resp, resp_body, resp_text,
  easy_resp_text, decimal,
}
use net_cpp.Asio.Http.Service.{Handler}
pub mod Sendfile
mod Encodings
pub mod Inside
mod Tests

-- The `std::error_code` of a call, and `file_type`.
pub data FileError : Type 0 where
  no_error : FileError
  no_such_file : FileError
  not_a_directory : FileError
  other_error : FileError

pub data FileType : Type 0 where
  regular : FileType
  directory : FileType
  missing : FileType
  special : FileType

pub record Environment : Type 0 where
  pub weakly_canonical : Str → Option Str
  pub relative : Str → Option Str  -- to the path of the configuration
  pub status : Str → FileError × FileType
  pub file_size : Str → Option ℕ
  pub last_write_time : Str → Option ℕ
  pub under : Str → Str → Str  -- `operator/=`
  pub strip_extension : Str → Str  -- `replace_extension()`
  pub extension_type : Str → MediaType  -- `from_extension` of the extension
  pub write_file : Str → ℕ → List Turn → Option Sent
  pub to_date_string : ℕ → Str
  pub from_date_string : Str → Option ℕ
  pub media_types : Str → List MediaType  -- `parse_accept`
  pub encodings : Str → List (Str × Str)  -- `parse_accept_encoding`, sorted by weight
  pub weight_parses : Str → Bool  -- `std::from_chars` succeeds
  -- Whether the uninitialised variable for the weight is 0, by the number of encodings still to come.
  pub stale_weight : ℕ → Bool

-- `StaticFileConfig`
pub record StaticFileConfig : Type 0 where
  pub path : Str
  pub compress_encodings : List Str
  pub directory_index : Str

-- The status that is left to the service, if any, and the context; `none` is an exception, or a
-- read past the table of reason phrases.
abbrev pub Reply : Type 0
Reply = Option (Option ℕ × HandleContext)

pub fails : ℕ → HandleContext → Reply
fails status c = some (some status, c)

abbrev pub no_status : HandleContext → Option ℕ × HandleContext
no_status c = (none, c)

pub says : ℕ → Str → HandleContext → Reply
says status text c = map_option no_status (easy_resp_text status text c)

abbrev pub is_empty : Str → Bool
is_empty [] = true
is_empty (c ∷ cs) = false

abbrev pub goes_up : Str → Bool
goes_up (c ∷ d ∷ cs) = (c == b'.') && (d == b'.')
goes_up _ = false

-- `current_path.back() == '/'`
abbrev pub ends_with_slash : Str → Bool
ends_with_slash [] = false
ends_with_slash (c ∷ []) = c == b'/'
ends_with_slash (c ∷ d ∷ cs) = ends_with_slash (d ∷ cs)

abbrev pub method_get : ℕ
method_get = 1

abbrev pub method_head : ℕ
method_head = 5

module _ (env : Environment) (cfg : StaticFileConfig) where
  -- The three headers of a file.
  pub file_headers : ℕ → ℕ → Str → ResponsePart → ResponsePart
  file_headers size time type part =
      let h1 = (emplace (codes "Content-Length") (decimal size) part.headers).1 in
      let h2 = (emplace (codes "Last-Modified") (env.to_date_string time) h1).1 in
      record part { headers = (emplace (codes "Content-Type") type h2).1 }

  abbrev with_part : Str → ℕ → ℕ → Str → HandleContext → Option ResponsePart → Reply
  with_part path size time type c none = none
  with_part path size time type c (some part) =
      let p = file_headers size time type part in
      some (
        no_status (
          if c.request.method == method_head
          then resp p c
          else resp_body p (env.write_file path size) c))

  pub on_time : Str → ℕ → Str → HandleContext → Option ℕ → Reply
  on_time path size type c none = fails 500 c
  on_time path size type c (some time) = with_part path size time type c (make_part http_1_1 200)

  pub on_size : Str → Str → HandleContext → Option ℕ → Reply
  on_size path type c none = fails 500 c
  on_size path type c (some size) = on_time path size type c (env.last_write_time path)

  pub on_file : Str → Str → HandleContext → FileType → Reply
  on_file path type c regular = on_size path type c (env.file_size path)
  on_file path type c missing = says 404 (codes "File not found") c
  on_file path type c _ = fails 500 c

  pub on_index : Str → Str → HandleContext → FileError × FileType → Reply
  on_index path type c (no_such_file, t) = says 403 (codes "Index file not found") c
  on_index path type c (no_error, t) = on_file path type c t
  on_index path type c (_, t) = fails 500 c

  pub on_status : Str → Str → HandleContext → FileError × FileType → Reply
  on_status path type c (no_such_file, t) = says 404 (codes "File not found") c
  on_status path type c (not_a_directory, t) = says 404 (codes "Path is not a directory") c
  on_status path type c (other_error, t) = fails 500 c
  on_status path type c (no_error, directory) =
      let index = env.under path cfg.directory_index in
      let reply = on_index index type c (env.status index) in
      if not (ends_with_slash c.current_path) || is_empty cfg.directory_index
      then fails 403 c
      else reply
  on_status path type c (no_error, t) = on_file path type c t

  pub on_relative : Str → Str → HandleContext → Option Str → Reply
  on_relative path type c none = says 403 (codes "Path is not allowed") c
  on_relative path type c (some rel) =
      let reply = on_status path type c (env.status path) in
      if is_empty rel || goes_up rel then says 403 (codes "Path is not allowed") c else reply

  pub on_canonical : Str → HandleContext → Option Str → Reply
  on_canonical type c none = fails 500 c
  on_canonical type c (some path) = on_relative path type c (env.relative path)

  -- `try_sendfile`, with the text of the content type.
  pub try_sendfile : HandleContext → Str → Str → Reply
  try_sendfile c path type = on_canonical type c (env.weakly_canonical path)
