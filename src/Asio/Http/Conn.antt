-- ===== src/Asio/Http/Conn.antt =====
-- include/xsl/asio/http/conn.h: the loop that serves a connection.
use net_cpp.Prelude.{
  ℕ, zero, suc, ◌+◌, ◌-◌, ◌*◌, ◌/◌, ◌%◌, ◌^◌, ◌≤◌, ◌<◌, min, bit_and, bit_or, ◌≡◌, refl, sym, ap,
  ap₂, ◌∙◌, ◌≢◌, ◌↔◌, ◌⊎◌, inl, inr, Bool, true, false, not, ◌&&◌, ◌||◌, Option, none, some, List,
  [], ◌∷◌, ◌++◌, append-nil, append_assoc, arith, ltb, leb, ◌==◌, if◌then◌else◌, ltb→lt, lt→ltb,
  leb→le, le→leb, some_inj, ==_iff, Bool-cases, Option-cases, length, get_elem?, get_or, set, take,
  drop, replicate, length-append, length-set, get_or-set_self, get_or-set_ne, take-append,
  drop-append, length-take, length-drop, Str, codes, str_eq, str_eq→eq, str_eq_refl, eq→str_eq,
  str_eq_iff, all_below, all_below_sound,
}
use net_cpp.Errc.{Errc}
use net_cpp.Asio.Io.{Turn, Sent}
use net_cpp.Asio.Http.Response.Sendto.{ResponseBuilder, set_header, sendto}
use net_cpp.Asio.Http.Context.{Request, get_header}
use net_cpp.Asio.Http.Service.{Served, replied, terminated, past_table}
mod Pipeline
mod Tests

-- What `req.read` gives: a request or an error.
pub data Incoming : Type 0 where
  request : Request → Incoming
  failed : Errc → Incoming

-- How a connection stands: deregistered behind the loop, the program ended, a read past a table, or
-- a wait for the peer.
pub data Stop : Type 0 where
  deregistered : Stop
  aborted : Stop
  outside : Stop
  waiting : Stop

-- The bytes that went out, how the connection stands and the turns that are left.
pub record Session : Type 0 where
  pub wire : Str
  pub stop : Stop
  pub rest : List Turn

abbrev stopped : Stop → List Turn → Session
stopped stop ts = record { wire = []; stop = stop; rest = ts }

abbrev header_is : Str → Option Str → Bool
header_is s none = false
header_is s (some t) = str_eq t s

-- `is_close`, and the header that it sets.
pub closes : Request → Bool
closes r = header_is (codes "close") (get_header (codes "Connection") r)

pub with_close : Bool → ResponseBuilder → ResponseBuilder
with_close true resp = set_header (codes "Connection") (codes "close") resp
with_close false resp = resp

-- What follows the response; an error of the send is only logged.
pub after_send : Bool → List Turn → (List Turn → Session) → Option (Option Sent) → Session
after_send close ts next none = stopped outside ts
after_send close ts next (some none) = stopped waiting ts
after_send true ts next (some (some s)) = record {
  wire = s.wire;
  stop = deregistered;
  rest = s.rest;
}
after_send false ts next (some (some s)) =
    let more = next s.rest in record more { wire = s.wire ++ more.wire }

pub after_service : Bool → Bool → List Turn → (List Turn → Session) → Served → Session
after_service gathers close ts next (replied resp) =
    after_send close ts next (sendto gathers ts (with_close close resp))
after_service gathers close ts next terminated = stopped aborted ts
after_service gathers close ts next past_table = stopped outside ts

-- `imm_serve_connection`
pub serve_connection : (Request → Served) → Bool → List Incoming → List Turn → Session
serve_connection service gathers [] ts = stopped waiting ts
serve_connection service gathers (failed ec ∷ incoming) ts = stopped deregistered ts
serve_connection service gathers (request r ∷ incoming) ts =
    after_service gathers (closes r) ts (serve_connection service gathers incoming) (service r)
