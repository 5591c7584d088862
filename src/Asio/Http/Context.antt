-- ===== src/Asio/Http/Context.antt =====
-- include/xsl/asio/http/context.h: the context that a handler works on, and the request.
use net_cpp.Prelude.{
  ℕ, zero, suc, ◌+◌, ◌-◌, ◌*◌, ◌/◌, ◌%◌, ◌^◌, ◌≤◌, ◌<◌, min, bit_and, bit_or, ◌≡◌, refl, sym, ap,
  ap₂, ◌∙◌, ◌≢◌, ◌↔◌, ◌⊎◌, inl, inr, Bool, true, false, not, ◌&&◌, ◌||◌, Option, none, some, List,
  [], ◌∷◌, ◌++◌, append-nil, append_assoc, arith, ltb, leb, ◌==◌, if◌then◌else◌, ltb→lt, lt→ltb,
  leb→le, le→leb, some_inj, ==_iff, Bool-cases, Option-cases, length, get_elem?, get_or, set, take,
  drop, replicate, length-append, length-set, get_or-set_self, get_or-set_ne, take-append,
  drop-append, length-take, length-drop, Str, codes, str_eq, str_eq→eq, str_eq_refl, eq→str_eq,
  str_eq_iff, all_below, all_below_sound,
}
use net_cpp.Http.Message.{MessageRestView, lookup}
use net_cpp.Asio.Io.{Turn, Sent}
use net_cpp.Asio.Http.Response.{ResponsePart, contains, emplace, map_option, make_part}
use net_cpp.Asio.Http.Response.Sendto.{ResponseBuilder, set_header}
mod Length
pub mod Date

-- `Request`: the method and the path of its line, and its headers.
pub record Request : Type 0 where
  pub method : ℕ
  pub path : Str
  pub rest : MessageRestView

-- `Message::get_header` and `Message::has_header`
unfoldable pub get_header : Str → Request → Option Str
get_header key r = lookup key r.rest.headers

abbrev is_some : Option Str → Bool
is_some none = false
is_some (some s) = true

pub has_header : Str → Request → Bool
has_header key r = is_some (lookup key r.rest.headers)

-- `HandleContext`, without the device that is read from.
pub record HandleContext : Type 0 where
  pub current_path : Str
  pub request : Request
  pub response : Option ResponseBuilder

abbrev pub http_1_1 : ℕ
http_1_1 = 2

unfoldable pub with_response : ResponseBuilder → HandleContext → HandleContext
with_response r c = record c { response = some r }

-- `resp`: a part alone, with a body that writes itself, and with a string.
unfoldable pub resp : ResponsePart → HandleContext → HandleContext
resp part = with_response (record { part = part; body = none; raw_body = [] })

unfoldable pub resp_body : ResponsePart → (List Turn → Option Sent) → HandleContext → HandleContext
resp_body part body = with_response (record { part = part; body = some body; raw_body = [] })

-- `std::to_string` of a size; a number has at most as many digits as it is large, and one more.
unfoldable pub decimal_from : ℕ → ℕ → Str → Str
decimal_from zero n s = s
decimal_from (suc f) n s =
    let rest = decimal_from f (n / 10) ((n % 10 + 48) ∷ s) in
    if n / 10 == 0 then (n % 10 + 48) ∷ s else rest

unfoldable pub decimal : ℕ → Str
decimal n = decimal_from (suc n) n []

unfoldable pub resp_text : ResponsePart → Str → HandleContext → HandleContext
resp_text part body = with_response (record {
  part = record part {
    headers = (emplace (codes "Content-Length") (decimal (length body)) part.headers).1;
  };
  body = none;
  raw_body = body;
})

-- `easy_resp`; the reason phrase of a status may lie outside its table.
pub easy_resp : ℕ → HandleContext → Option HandleContext
easy_resp status c = map_option (λ part. resp part c) (make_part http_1_1 status)

pub easy_resp_body : ℕ → (List Turn → Option Sent) → HandleContext → Option HandleContext
easy_resp_body status body c =
    map_option (λ part. resp_body part body c) (make_part http_1_1 status)

unfoldable pub easy_resp_text : ℕ → Str → HandleContext → Option HandleContext
easy_resp_text status body c =
    map_option (λ part. resp_text part body c) (make_part http_1_1 status)

-- `check_and_add_date`, where `date` is the text of the clock.
unfoldable pub add_date : Str → ResponseBuilder → ResponseBuilder
add_date date r =
    if contains r.part.headers (codes "Date") then r else set_header (codes "Date") date r

abbrev response_of : HandleContext → Option ResponseBuilder
response_of c = c.response

abbrev flat {ℓ} : {A : Type ℓ} → Option (Option A) → Option A
flat none = none
flat (some o) = o

-- `checkout`
unfoldable pub checked : Str → HandleContext → Option ResponseBuilder → Option ResponseBuilder
checked date c (some r) = some (add_date date r)
checked date c none = map_option (add_date date) (flat (map_option response_of (easy_resp 500 c)))

unfoldable pub checkout : Str → HandleContext → Option ResponseBuilder
checkout date c = checked date c c.response
