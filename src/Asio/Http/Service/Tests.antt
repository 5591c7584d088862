-- ===== src/Asio/Http/Service/Tests.antt =====
-- A service with one route.
use net_cpp.Prelude.{◌≡◌, refl, ap, ◌≢◌, inl, true, false, none, some, [], ◌∷◌, Str, codes, str_eq}
use net_cpp.Http.Router.{add_exact, add_exact_at, route, route_at}
use net_cpp.Http.Router.Paths.{LastSegment}
use net_cpp.Http.Proto.{unknown}
use net_cpp.Asio.Http.Response.{no_headers, contains, emplace, has_key}
use net_cpp.Asio.Http.Response.Sendto.{ResponseBuilder, set_header}
use net_cpp.Asio.Http.Context.{Request, checkout, checked, add_date}
use net_cpp.Asio.Http.Service.{
  Handler, ServiceBuilder, new_builder, exact_id, exact_id_at, add_route, emplace_handler, find_by,
  first_of, pick_id, on_status, serve_picked, pick, found, serve, terminated, replied,
}
use net_cpp.Asio.Http.Service.Valid.{IsValid, new-IsValid, add-IsValid}
use net_cpp.Asio.Http.Service.Dispatch.{add_route_lem}

abbrev quiet : ResponseBuilder
quiet = record {
  part = record {
    status_code = 200;
    status_message = codes "OK";
    version = 2;
    headers = no_headers;
  };
  body = none;
  raw_body = [];
}

abbrev hello : Handler
hello c = (none, record c { response = some quiet })

abbrev post : Request
post = record { method = 2; path = codes "/a"; rest = record { headers = []; content_part = [] } }

abbrev get : Request
get = record post { method = 1 }

abbrev built : ServiceBuilder
built = record {
  s = record {
    router = add_exact_at (codes "a") [] (λ _. some 1) new_builder.s.router;
    handlers = ((1, 1), hello) ∷ [];
    status_handlers = [];
  };
  next_id = 2;
}

fresh : exact_id (codes "/a") new_builder.s.router ≡ none
unfolding exact_id_at
fresh = refl

added : add_route 1 (codes "/a") hello new_builder ≡ some built
unfolding add_route add_exact add_exact_at exact_id_at emplace_handler find_by
added = refl

add-IsValid_example : IsValid built
add-IsValid_example =
    add-IsValid true 1 (codes "/a") hello new_builder built new-IsValid (inl added)

other_path : codes "/b" ≢ codes "/a"
other_path e = absurd (no (ap (λ s. str_eq s (codes "/a")) e))
  where
    no : false ≡ true → ⊥
    no e = cc

add_route_lem_example :
    ((s : Str) × LastSegment (codes "/a") s
      × (pick built.s 1 (codes "/a") ≡ found hello (b'/' ∷ s)))
    × (pick built.s 2 (codes "/b") ≡ pick new_builder.s 2 (codes "/b"))
    × (post.path ≡ codes "/a"
        → post.method ≢ 1
        → 1 ≢ unknown
        → serve built.s (codes "now") post ≡ terminated)
add_route_lem_example =
    add_route_lem 1 2 (codes "/a") (codes "/b") (codes "now") hello new_builder built post
      new-IsValid fresh added other_path

abbrev dated : ResponseBuilder
dated = record quiet {
  part = record quiet.part {
    headers = record no_headers { slots = (codes "Date", codes "now") ∷ [] };
  };
}

answer : serve built.s (codes "now") get ≡ replied dated
unfolding serve serve_picked pick pick_id first_of find_by add_exact_at route route_at on_status
    checkout checked add_date set_header emplace contains has_key
answer = refl
