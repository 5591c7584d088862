-- ===== src/Asio/Http/Static/Encodings.antt =====
-- What the encodings that a client accepts do to a file.
use net_cpp.Prelude.{
  length, ℕ, ◌≡◌, refl, inl, inr, Bool, true, false, ◌||◌, none, some, List, [], ◌∷◌, ◌++◌,
  Bool-cases, Str, codes,
}
use net_cpp.Http.Proto.{status_to_reason_phrase, to_index}
use net_cpp.Http.Media.{MediaType}
use net_cpp.Asio.Http.Response.{make_part}
use net_cpp.Asio.Http.Response.Sendto.{ResponseBuilder, set_header}
use net_cpp.Asio.Http.Context.{
  HandleContext, get_header, has_header, with_response, resp_text, easy_resp_text,
}
use net_cpp.Asio.Http.Static.{
  Environment, StaticFileConfig, FileType, no_such_file, Reply, says, is_empty, goes_up, on_status,
  on_relative, on_canonical, try_sendfile,
}
use net_cpp.Asio.Http.Static.Sendfile.{
  acceptable, unmodified, usable, or_next, encoded, no_encodings, try_extension, try_encodings,
  by_encoding, sendfile,
}

abbrev pub AllParse : Environment → List (Str × Str) → Type 0
AllParse env [] = Unit {0}
AllParse env ((e, w) ∷ es) = (env.weight_parses w ≡ true) × AllParse env es

module _ (env : Environment) (cfg : StaticFileConfig) where
  try_encodings_parsed :
      (c : HandleContext) (path type : Str) (es : List (Str × Str))
      → AllParse env es
      → try_encodings env cfg c path type es ≡ try_sendfile env cfg c path type
  unfolding try_encodings try_extension usable
  try_encodings_parsed c path type [] h = refl
  try_encodings_parsed c path type ((e, w) ∷ es) (h, t) =
      rw h (try_encodings_parsed c path type es t)

  -- A client that gives every encoding a weight that is a number gets what a client gets that
  -- accepts no encoding: no compressed file is ever tried.
  pub by_encoding_parsed :
      (c : HandleContext) (path type accept : Str)
      → AllParse env (env.encodings accept)
      → by_encoding env cfg c path type (some accept) ≡ by_encoding env cfg c path type none
  unfolding by_encoding
  by_encoding_parsed c path type accept h =
      elim (Bool-cases (no_encodings cfg.compress_encodings)) [
        | inl e ↦ rw e refl
        | inr e ↦ rw e (try_encodings_parsed c path type (env.encodings accept) h)
      ]

  abbrev StatusIs : ℕ → Reply → Type 0
  StatusIs s reply =
      (c : HandleContext) × (r : ResponseBuilder) × (reply ≡ some (none, c))
      × (c.response ≡ some r)
      × (r.part.status_code ≡ s)

  says-404 : (text : Str) (c : HandleContext) → StatusIs 404 (says 404 text c)
  unfolding says easy_resp_text make_part status_to_reason_phrase to_index resp_text with_response
  says-404 text c = (_, _, refl, refl, refl)

  missing-404 :
      (c : HandleContext) (path type p rel : Str) (t : FileType)
      → env.weakly_canonical path ≡ some p
      → env.relative p ≡ some rel
      → (is_empty rel || goes_up rel) ≡ false
      → env.status p ≡ (no_such_file, t)
      → StatusIs 404 (try_sendfile env cfg c path type)
  unfolding try_sendfile on_canonical on_relative on_status
  missing-404 c path type p rel t e f g h = rw (e, f, g, h) (says-404 _ c)

  encoded-404 :
      (encoding : Str) (reply next : Reply)
      → StatusIs 404 reply
      → StatusIs 404 (or_next env cfg encoding reply next)
  unfolding set_header
  encoded-404 encoding reply next (c, r, e, f, g) = (
    encoded env cfg encoding c,
    set_header (codes "Content-Encoding") encoding r,
    rw e refl,
    rw f refl,
    g,
  )

no_condition : (env : Environment) (path : Str) (b : Bool) → unmodified env path b none ≡ some false
unfolding unmodified
no_condition env path true = refl
no_condition env path false = refl

-- A request without conditions that accepts the media type and whose first encoding is tried gets a
-- response with status 404 if the compressed file is missing, whether or not the file itself is there.
pub sendfile_compressed_missing :
    (env : Environment) (cfg : StaticFileConfig) (c : HandleContext) (path accept p rel ext : Str)
    (type : MediaType) (e : Str × Str) (es : List (Str × Str)) (t : FileType)
    → acceptable env type (get_header (codes "Accept") c.request) ≡ true
    → get_header (codes "If-Modified-Since") c.request ≡ none
    → get_header (codes "Accept-Encoding") c.request ≡ some accept
    → no_encodings cfg.compress_encodings ≡ false
    → env.encodings accept ≡ e ∷ es
    → usable env cfg (length es) e ≡ some ext
    → env.weakly_canonical (path ++ ext) ≡ some p
    → env.relative p ≡ some rel
    → (is_empty rel || goes_up rel) ≡ false
    → env.status p ≡ (no_such_file, t)
    → (c' : HandleContext) × (r : ResponseBuilder) × (sendfile env cfg c path type
        ≡ some (none, c'))
      × (c'.response ≡ some r)
      × (r.part.status_code ≡ 404)
unfolding sendfile by_encoding try_encodings try_extension unmodified
sendfile_compressed_missing env cfg c path accept p rel ext type e es t a m n o q u w x y z =
    rw (a, n, o, q, u, m, no_condition env path (has_header (codes "If-None-Match") c.request))
      (let (c', r, f, g, h) =
          encoded-404 env cfg e.0 (try_sendfile env cfg c (path ++ ext) type.text) _
            (missing-404 env cfg c (path ++ ext) type.text p rel t w x y z) in
        (c', r, f, g, h))
