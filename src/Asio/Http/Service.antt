-- ===== src/Asio/Http/Service.antt =====
-- include/xsl/asio/http/service.h: the service that answers requests, and its builder.
use net_cpp.Prelude.{
  ℕ, zero, suc, ◌+◌, ◌-◌, ◌*◌, ◌/◌, ◌%◌, ◌^◌, ◌≤◌, ◌<◌, min, bit_and, bit_or, ◌≡◌, refl, sym, ap,
  ap₂, ◌∙◌, ◌≢◌, ◌↔◌, ◌⊎◌, inl, inr, Bool, true, false, not, ◌&&◌, ◌||◌, Option, none, some, List,
  [], ◌∷◌, ◌++◌, append-nil, append_assoc, arith, ltb, leb, ◌==◌, if◌then◌else◌, ltb→lt, lt→ltb,
  leb→le, le→leb, some_inj, ==_iff, Bool-cases, Option-cases, length, get_elem?, get_or, set, take,
  drop, replicate, length-append, length-set, get_or-set_self, get_or-set_ne, take-append,
  drop-append, length-take, length-drop, Str, codes, str_eq, str_eq→eq, str_eq_refl, eq→str_eq,
  str_eq_iff, all_below, all_below_sound,
}
use net_cpp.Http.Proto.{unknown}
use net_cpp.Http.Router.{
  Node, Children, node, nil, child, Routed, segments, empty_node, find_handler, find_child,
  add_exact, add_prefix, route,
}
use net_cpp.Asio.Http.Response.{map_option}
use net_cpp.Asio.Http.Response.Sendto.{ResponseBuilder}
use net_cpp.Asio.Http.Context.{Request, HandleContext, easy_resp, checkout}
mod Ids
mod Valid
mod Dispatch
mod Date
mod Tests

-- `Handler`: the status that it leaves to the service, if any, and the context.
abbrev pub Handler : Type 0
Handler = HandleContext → Option ℕ × HandleContext

-- `HttpService`; a handler stands under an id and a method, an id that is not set is 0.
pub record HttpService : Type 0 where
  pub router : Node ℕ
  pub handlers : List ((ℕ × ℕ) × Handler)
  pub status_handlers : List (ℕ × Handler)

abbrev pub same_key : ℕ × ℕ → ℕ × ℕ → Bool
same_key (i, m) (j, n) = (i == j) && (m == n)

pub find_by : ℕ × ℕ → List ((ℕ × ℕ) × Handler) → Option Handler
find_by k [] = none
find_by k ((j, h) ∷ hs) = let rest = find_by k hs in if same_key j k then some h else rest

pub find_status : ℕ → List (ℕ × Handler) → Option Handler
find_status k [] = none
find_status k ((j, h) ∷ hs) = let rest = find_status k hs in if j == k then some h else rest

abbrev pub id_value : Option ℕ → ℕ
id_value none = 0
id_value (some i) = i

-- The handler for a method and a path, with the path that the route leaves.
pub data Picked : Type 0 where
  not_found : Picked
  found : Handler → Str → Picked
  no_handler : Picked

pub first_of : Str → Option Handler → Option Handler → Picked
first_of path (some h) other = found h path
first_of path none (some h) = found h path
first_of path none none = no_handler

pub pick_id : List ((ℕ × ℕ) × Handler) → ℕ → Routed ℕ → Picked
pick_id hs method none = not_found
pick_id hs method (some (id, path)) =
    first_of path (find_by (id_value id, method) hs) (find_by (id_value id, unknown) hs)

pub pick : HttpService → ℕ → Str → Picked
pick s method path = pick_id s.handlers method (route path s.router)

-- What a request comes to: a response, the end of the program by `rt_assert`, or a read past the
-- table of reason phrases.
pub data Served : Type 0 where
  replied : ResponseBuilder → Served
  terminated : Served
  past_table : Served

abbrev replied_if : Option ResponseBuilder → Served
replied_if none = past_table
replied_if (some r) = replied r

abbrev pub checked_out : Str → Option HandleContext → Served
checked_out date none = past_table
checked_out date (some c) = replied_if (checkout date c)

-- What is done with the status that a handler gives.
pub on_status : List (ℕ × Handler) → Option ℕ × HandleContext → Option HandleContext
on_status hs (none, c) = some c
on_status hs (some status, c) = on_handler (find_status status hs)
  where
    on_handler : Option Handler → Option HandleContext
    on_handler (some h) = some (h c).1
    on_handler none = easy_resp status c

abbrev context_at : Str → Request → HandleContext
context_at path r = record { current_path = path; request = r; response = none }

pub serve_picked : HttpService → Str → Request → Picked → Served
serve_picked s date r not_found = checked_out date (easy_resp 404 (context_at r.path r))
serve_picked s date r (found h path) =
    checked_out date (on_status s.status_handlers (h (context_at path r)))
serve_picked s date r no_handler = terminated

-- `HttpService::operator()`, where `date` is the text of the clock.
pub serve : HttpService → Str → Request → Served
serve s date r = serve_picked s date r (pick s r.method r.path)

-- `ServiceBuilder`
pub record ServiceBuilder : Type 0 where
  pub s : HttpService
  pub next_id : ℕ

abbrev pub empty_service : HttpService
empty_service = record { router = empty_node; handlers = []; status_handlers = [] }

abbrev pub new_builder : ServiceBuilder
new_builder = record { s = empty_service; next_id = 1 }

-- The id behind the reference that `add_exact` or `add_prefix` of the router gives.
abbrev flat_id : Option (Option ℕ) → Option ℕ
flat_id none = none
flat_id (some o) = o

abbrev pub id_in : (Node ℕ → Option ℕ) → Option (Node ℕ) → Option ℕ
id_in f none = none
id_in f (some n) = f n

pub exact_id_at : Str → List Str → Node ℕ → Option ℕ
exact_id_at s [] (node hs p cs) = flat_id (find_handler s hs)
exact_id_at s (t ∷ ts) (node hs p cs) = id_in (exact_id_at t ts) (find_child s cs)

abbrev pub prefix_of : Node ℕ → Option ℕ
prefix_of (node hs p cs) = p

abbrev pub last_id : Str → Node ℕ → Option ℕ
last_id s (node hs p cs) = id_in prefix_of (find_child s cs)

pub prefix_id_at : Str → List Str → Node ℕ → Option ℕ
prefix_id_at [] [] n = prefix_of n
prefix_id_at (c ∷ s) [] n = last_id (c ∷ s) n
prefix_id_at s (t ∷ ts) (node hs p cs) = id_in (prefix_id_at t ts) (find_child s cs)

pub prefix_id_unchecked : Str → List Str → Node ℕ → Option ℕ
prefix_id_unchecked s [] n = last_id s n
prefix_id_unchecked s (t ∷ ts) n = prefix_id_at s (t ∷ ts) n

abbrev pub exact_id : Str → Node ℕ → Option ℕ
exact_id [] n = none
exact_id (c ∷ cs) n = exact_id_at (segments cs).0 (segments cs).1 n

abbrev pub prefix_id : Str → Node ℕ → Option ℕ
prefix_id [] n = none
prefix_id (c ∷ cs) n =
    if c == b'/'
    then prefix_id_at (segments cs).0 (segments cs).1 n
    else prefix_id_unchecked (segments cs).0 (segments cs).1 n

-- `try_update_id`: the id, and the next one.
abbrev pub updated : Option ℕ → ℕ → ℕ × ℕ
updated none next = (next, suc next)
updated (some i) next = (i, next)

-- `handlers.emplace`: nothing happens if the key is there.
abbrev pub unless_there {ℓ} : {A : Type ℓ} → Option Handler → A → A → A
unless_there none old new = new
unless_there (some h) old new = old

pub emplace_handler : ℕ × ℕ → Handler → List ((ℕ × ℕ) × Handler) → List ((ℕ × ℕ) × Handler)
emplace_handler k h hs = unless_there (find_by k hs) hs ((k, h) ∷ hs)

-- `add_handler`, on the id that the reference had and on the router that got the new one.
abbrev pub with_router :
    ℕ × ℕ → Handler → ℕ → ServiceBuilder → Option (Node ℕ) → Option ServiceBuilder
with_router k h next b none = none
with_router k h next b (some r) = some (record {
  s = record b.s { router = r; handlers = emplace_handler k h b.s.handlers };
  next_id = next;
})

-- `add_route`, `add_prefix`, `redirect` and `set_status_handler`; `none` is a failed assertion on
-- the leading slash of the path, which `add_prefix` has only in a build with `assert`.
pub add_route : ℕ → Str → Handler → ServiceBuilder → Option ServiceBuilder
add_route method path h b =
    let (id, next) = updated (exact_id path b.s.router) b.next_id in
    with_router (id, method) h next b (add_exact path (λ _. some id) b.s.router)

pub add_prefix_route : Bool → Str → Handler → ServiceBuilder → Option ServiceBuilder
add_prefix_route asserts path h b =
    let (id, next) = updated (prefix_id path b.s.router) b.next_id in
    with_router (id, unknown) h next b (add_prefix asserts path (λ _. some id) b.s.router)

pub redirect : (Str → Handler) → ℕ → Str → Str → ServiceBuilder → Option ServiceBuilder
redirect create_redirect_handler method path target =
    add_route method path (create_redirect_handler target)

pub set_status_handler : ℕ → Handler → ServiceBuilder → ServiceBuilder
set_status_handler kind h b =
    let hs = b.s.status_handlers in
    unless_there (find_status kind hs) b
      (record b { s = record b.s { status_handlers = (kind, h) ∷ hs } })
