-- ===== src/Asio/Http/Static/Inside.antt =====
-- Which files are sent.
use net_cpp.Prelude.{
  ℕ, ◌≡◌, refl, ◌⊎◌, inl, inr, Bool, false, not, ◌||◌, Option, none, some, arith, ◌==◌, Bool-cases,
  Str,
}
use mathlib.Core.Path.{subst}
use net_cpp.Http.Proto.{status_to_reason_phrase, to_index}
use net_cpp.Asio.Http.Response.{make_part}
use net_cpp.Asio.Http.Response.Sendto.{ResponseBuilder}
use net_cpp.Asio.Http.Context.{
  HandleContext, with_response, resp, resp_body, resp_text, easy_resp_text,
}
use net_cpp.Asio.Http.Static.{
  Environment, StaticFileConfig, FileError, no_error, no_such_file, not_a_directory, other_error,
  FileType, regular, directory, missing, special, Reply, fails, says, is_empty, goes_up,
  ends_with_slash, method_head, file_headers, on_time, on_size, on_file, on_index, on_status,
  on_relative, on_canonical, try_sendfile,
}

module _ (env : Environment) (cfg : StaticFileConfig) where
  -- A regular file whose bytes a response writes, or whose size it tells.
  pub record OpenedFile (q : Str) (r : ResponseBuilder) : Type 0 where
    pub kind : env.status q ≡ (no_error, regular)
    pub writes :
        (r.body ≡ none)
        ⊎ ((n : ℕ) × (env.file_size q ≡ some n) × (r.body ≡ some (env.write_file q n)))

  -- The path of the file, from the canonical path: that path or the index below it.
  abbrev pub OpenedFrom : Str → ResponseBuilder → Type 0
  OpenedFrom p r = OpenedFile p r ⊎ OpenedFile (env.under p cfg.directory_index) r

  abbrev pub OpenedBelow : Str → ResponseBuilder → Type 0
  OpenedBelow path r =
      (p rel : Str) × (env.weakly_canonical path ≡ some p)
      × (env.relative p ≡ some rel)
      × (is_empty rel ≡ false)
      × (goes_up rel ≡ false)
      × OpenedFrom p r

  -- A reply that is a response with status 200 satisfies `P`.
  abbrev SuccessOf : (ResponseBuilder → Type 0) → Option ResponseBuilder → Type 0
  SuccessOf P none = Unit {0}
  SuccessOf P (some r) = r.part.status_code ≡ 200 → P r

  abbrev Success : (ResponseBuilder → Type 0) → Reply → Type 0
  Success P (some (none, c)) = SuccessOf P c.response
  Success P _ = Unit {0}

  says-404 :
      (P : ResponseBuilder → Type 0) (text : Str) (c : HandleContext) → Success P (says 404 text c)
  unfolding says easy_resp_text make_part status_to_reason_phrase to_index resp_text with_response
  says-404 P text c = λ e. absurd (omega arith)

  says-403 :
      (P : ResponseBuilder → Type 0) (text : Str) (c : HandleContext) → Success P (says 403 text c)
  unfolding says easy_resp_text make_part status_to_reason_phrase to_index resp_text with_response
  says-403 P text c = λ e. absurd (omega arith)

  on_time-Success :
      (q type : Str) (c : HandleContext) (n : ℕ) (t : Option ℕ)
      → env.status q ≡ (no_error, regular)
      → env.file_size q ≡ some n
      → Success (OpenedFile q) (on_time env cfg q n type c t)
  unfolding on_time fails make_part status_to_reason_phrase to_index file_headers resp resp_body
      with_response
  on_time-Success q type c n none e f = tt
  on_time-Success q type c n (some time) e f = elim (Bool-cases (c.request.method == method_head)) [
    | inl g ↦ rw g (λ h. record { kind = e; writes = inl refl })
    | inr g ↦ rw g (λ h. record { kind = e; writes = inr (n, f, refl) })
  ]

  on_size-Success :
      (q type : Str) (c : HandleContext) (n : Option ℕ)
      → env.status q ≡ (no_error, regular)
      → env.file_size q ≡ n
      → Success (OpenedFile q) (on_size env cfg q type c n)
  unfolding on_size fails
  on_size-Success q type c none e f = tt
  on_size-Success q type c (some n) e f = on_time-Success q type c n _ e f

  on_file-Success :
      (q type : Str) (c : HandleContext) (t : FileType)
      → env.status q ≡ (no_error, t)
      → Success (OpenedFile q) (on_file env cfg q type c t)
  unfolding on_file fails
  on_file-Success q type c missing e = says-404 (OpenedFile q) _ c
  on_file-Success q type c directory e = tt
  on_file-Success q type c special e = tt
  on_file-Success q type c regular e = on_size-Success q type c _ e refl

  on_index-Success :
      (q type : Str) (c : HandleContext) (s : FileError × FileType)
      → env.status q ≡ s
      → Success (OpenedFile q) (on_index env cfg q type c s)
  unfolding on_index fails
  on_index-Success q type c (no_such_file, t) e = says-403 (OpenedFile q) _ c
  on_index-Success q type c (no_error, t) e = on_file-Success q type c t e
  on_index-Success q type c (not_a_directory, t) e = tt
  on_index-Success q type c (other_error, t) e = tt

  SuccessOf-map :
      (P Q : ResponseBuilder → Type 0) (o : Option ResponseBuilder)
      → ((r : ResponseBuilder) → P r → Q r)
      → SuccessOf P o
      → SuccessOf Q o
  SuccessOf-map P Q none f h = tt
  SuccessOf-map P Q (some r) f h = λ e. f r (h e)

  Success-map :
      (P Q : ResponseBuilder → Type 0) (r : Reply)
      → ((r : ResponseBuilder) → P r → Q r)
      → Success P r
      → Success Q r
  Success-map P Q none f h = tt
  Success-map P Q (some (none, c)) f h = SuccessOf-map P Q c.response f h
  Success-map P Q (some (some s, c)) f h = tt

  on_status-Success :
      (p type : Str) (c : HandleContext) (s : FileError × FileType)
      → env.status p ≡ s
      → Success (OpenedFrom p) (on_status env cfg p type c s)
  unfolding on_status fails
  on_status-Success p type c (no_such_file, t) e = says-404 (OpenedFrom p) _ c
  on_status-Success p type c (not_a_directory, t) e = says-404 (OpenedFrom p) _ c
  on_status-Success p type c (other_error, t) e = tt
  on_status-Success p type c (no_error, regular) e =
      Success-map (OpenedFile p) (OpenedFrom p) _ (λ r o. inl o)
        (on_file-Success p type c regular e)
  on_status-Success p type c (no_error, missing) e =
      Success-map (OpenedFile p) (OpenedFrom p) _ (λ r o. inl o)
        (on_file-Success p type c missing e)
  on_status-Success p type c (no_error, special) e =
      Success-map (OpenedFile p) (OpenedFrom p) _ (λ r o. inl o)
        (on_file-Success p type c special e)
  on_status-Success p type c (no_error, directory) e =
      let index = env.under p cfg.directory_index in
      elim (Bool-cases (not (ends_with_slash c.current_path) || is_empty cfg.directory_index)) [
        | inl f ↦ rw f tt
        | inr f ↦ rw f (
            Success-map (OpenedFile index) (OpenedFrom p) _ (λ r o. inr o)
              (on_index-Success index type c _ refl))
      ]

  on_relative-Success :
      (path p type : Str) (c : HandleContext) (o : Option Str)
      → env.weakly_canonical path ≡ some p
      → env.relative p ≡ o
      → Success (OpenedBelow path) (on_relative env cfg p type c o)
  unfolding on_relative
  on_relative-Success path p type c none e f = says-403 (OpenedBelow path) _ c
  on_relative-Success path p type c (some rel) e f =
      elim (Bool-cases (is_empty rel || goes_up rel)) [
        | inl g ↦ rw g (says-403 (OpenedBelow path) _ c)
        | inr g ↦
            let (a, b) = both_false (is_empty rel) (goes_up rel) g in
            rw g (
              Success-map (OpenedFrom p) (OpenedBelow path) _ (λ r o. (p, rel, e, f, a, b, o))
                (on_status-Success p type c _ refl))
      ]
    where
      both_false : (a b : Bool) → (a || b) ≡ false → (a ≡ false) × (b ≡ false)
      both_false a b h = ground arith

  on_canonical-Success :
      (path type : Str) (c : HandleContext) (o : Option Str)
      → env.weakly_canonical path ≡ o
      → Success (OpenedBelow path) (on_canonical env cfg type c o)
  unfolding on_canonical fails
  on_canonical-Success path type c none e = tt
  on_canonical-Success path type c (some p) e = on_relative-Success path p type c _ e refl

-- If `try_sendfile` leaves no status and sets a response with status 200, then the canonical path is
-- relative to the configured one by a path that is not empty and does not begin with two dots; and
-- the file, of that path or of the index below it, is a regular one. The body of the response
-- writes that file in its size, or there is none.
pub try_sendfile-OpenedBelow :
    (env : Environment) (cfg : StaticFileConfig) (path type : Str) (c c' : HandleContext)
    (r : ResponseBuilder)
    → try_sendfile env cfg c path type ≡ some (none, c')
    → c'.response ≡ some r
    → r.part.status_code ≡ 200
    → OpenedBelow env cfg path r
unfolding try_sendfile
try_sendfile-OpenedBelow env cfg path type c c' r e f =
    subst (SuccessOf env cfg (OpenedBelow env cfg path)) f (
      subst (Success env cfg (OpenedBelow env cfg path)) e
        (on_canonical-Success env cfg path type c _ refl))
