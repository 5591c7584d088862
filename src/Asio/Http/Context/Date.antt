-- ===== src/Asio/Http/Context/Date.antt =====
-- A response that is checked out has a date.
use net_cpp.Prelude.{
  ◌≡◌, inl, inr, true, Option, none, some, some_inj, Bool-cases, Option-cases, Str, codes,
}
use mathlib.Core.Path.{subst}
use net_cpp.Asio.Http.Response.{contains, map_option}
use net_cpp.Asio.Http.Response.Map.{contains-emplace}
use net_cpp.Asio.Http.Response.Sendto.{ResponseBuilder, set_header}
use net_cpp.Asio.Http.Context.{HandleContext, add_date, checked, checkout}

abbrev pub HasDate : ResponseBuilder → Type 0
HasDate r = contains r.part.headers (codes "Date") ≡ true

add_date-HasDate : (date : Str) (r : ResponseBuilder) → HasDate (add_date date r)
unfolding add_date set_header
add_date-HasDate date r = elim (Bool-cases (contains r.part.headers (codes "Date"))) [
  | inl e ↦ rw e e
  | inr e ↦ rw e (contains-emplace (codes "Date") date r.part.headers)
]

dated :
    (date : Str) (o : Option ResponseBuilder) (r : ResponseBuilder)
    → map_option (add_date date) o ≡ some r
    → HasDate r
dated date none r e = absurd (no e)
  where
    no : ◌≡◌ {A = Option ResponseBuilder} none (some r) → ⊥
    no e = cc
dated date (some r') r e = subst HasDate (some_inj e) (add_date-HasDate date r')

pub checkout-HasDate :
    (date : Str) (c : HandleContext) (r : ResponseBuilder) → checkout date c ≡ some r → HasDate r
unfolding checkout checked
checkout-HasDate date c r e = elim (Option-cases c.response) [
  | inl f ↦ dated date _ r (rw f at e)
  | inr (r', f) ↦ dated date (some r') r (rw f at e)
]
