-- ===== src/Asio/Http/Service/Date.antt =====
-- Every reply has a date.
use net_cpp.Prelude.{◌≡◌, refl, true, Option, none, some, Str, codes}
use mathlib.Core.Path.{subst}
use net_cpp.Asio.Http.Response.{contains}
use net_cpp.Asio.Http.Response.Sendto.{ResponseBuilder}
use net_cpp.Asio.Http.Context.{Request, HandleContext, checkout}
use net_cpp.Asio.Http.Context.Date.{HasDate, checkout-HasDate}
use net_cpp.Asio.Http.Service.{
  HttpService, Picked, not_found, found, no_handler, Served, replied, replied_if, checked_out,
  serve_picked, serve,
}

abbrev Dated : Served → Type 0
Dated (replied r) = HasDate r
Dated _ = Unit {0}

replied_if-Dated :
    (o : Option ResponseBuilder)
    → ((r : ResponseBuilder) → o ≡ some r → HasDate r)
    → Dated (replied_if o)
replied_if-Dated none h = tt
replied_if-Dated (some r) h = h r refl

checked_out-Dated : (date : Str) (c : Option HandleContext) → Dated (checked_out date c)
checked_out-Dated date none = tt
checked_out-Dated date (some c) = replied_if-Dated (checkout date c) (checkout-HasDate date c)

serve_picked-Dated :
    (s : HttpService) (date : Str) (q : Request) (p : Picked) → Dated (serve_picked s date q p)
unfolding serve_picked
serve_picked-Dated s date q not_found = checked_out-Dated date _
serve_picked-Dated s date q (found h path) = checked_out-Dated date _
serve_picked-Dated s date q no_handler = tt

-- Whatever the handlers do, a response that the service replies with has a Date header.
pub serve-HasDate :
    (s : HttpService) (date : Str) (q : Request) (r : ResponseBuilder)
    → serve s date q ≡ replied r
    → contains r.part.headers (codes "Date") ≡ true
unfolding serve
serve-HasDate s date q r e = subst Dated e (serve_picked-Dated s date q _)
