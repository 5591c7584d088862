-- ===== src/Asio/Http/Service/Dispatch.antt =====
-- What a route that is added answers.
use net_cpp.Prelude.{
  ℕ, ◌≤◌, ◌<◌, ◌≡◌, refl, sym, ap₂, ◌≢◌, inl, inr, true, false, ◌&&◌, Option, none, some, List, [],
  ◌∷◌, arith, ◌==◌, some_inj, Bool-cases, Str,
}
use mathlib.Core.Path.{subst}
use net_cpp.Http.Proto.{unknown}
use net_cpp.Http.Router.{Node, Routed, add_exact, route}
use net_cpp.Http.Router.Paths.{LastSegment}
use net_cpp.Http.Router.Exact.{route-add_exact}
use net_cpp.Asio.Http.Service.{
  Handler, ServiceBuilder, find_by, found, first_of, pick_id, pick, exact_id, emplace_handler,
  with_router, add_route, terminated, serve_picked, serve,
}
use net_cpp.Asio.Http.Context.{Request}
use net_cpp.Asio.Http.Service.Ids.{Below, BelowKeys, BelowRouted, route_at-Below}
use net_cpp.Asio.Http.Service.Valid.{IsValid}

no_key :
    (n i m : ℕ) (hs : List ((ℕ × ℕ) × Handler)) → BelowKeys n hs → n ≤ i → find_by (i, m) hs ≡ none
unfolding find_by
no_key n i m [] h l = refl
no_key n i m (((j, k), f) ∷ hs) (h, t) l =
    let other : ((j == i) && (k == m)) ≡ false = ground arith in rw other (no_key n i m hs t l)

other_key :
    (n i m k : ℕ) (f : Handler) (hs : List ((ℕ × ℕ) × Handler))
    → i < n
    → find_by (i, k) (((n, m), f) ∷ hs) ≡ find_by (i, k) hs
unfolding find_by
other_key n i m k f hs l =
    let other : ((n == i) && (m == k)) ≡ false = ground arith in rw other refl

other_method :
    (n m k : ℕ) (f : Handler) (hs : List ((ℕ × ℕ) × Handler))
    → BelowKeys n hs
    → k ≢ m
    → find_by (n, k) (((n, m), f) ∷ hs) ≡ none
unfolding find_by
other_method n m k f hs h ne =
    let other : ((n == n) && (m == k)) ≡ false = ground arith in
    rw other (no_key n n k hs h (omega arith))

same_method :
    (n m : ℕ) (f : Handler) (hs : List ((ℕ × ℕ) × Handler))
    → find_by (n, m) (((n, m), f) ∷ hs) ≡ some f
unfolding find_by
same_method n m f hs = let same : ((n == n) && (m == m)) ≡ true = ground arith in rw same refl

pick_id_below :
    (n m k : ℕ) (f : Handler) (hs : List ((ℕ × ℕ) × Handler)) (r : Routed ℕ)
    → BelowRouted n r
    → 0 < n
    → pick_id (((n, m), f) ∷ hs) k r ≡ pick_id hs k r
unfolding pick_id
pick_id_below n m k f hs none h l = refl
pick_id_below n m k f hs (some (none, path)) h l =
    ap₂ (first_of path) (other_key n 0 m k f hs l) (other_key n 0 m unknown f hs l)
pick_id_below n m k f hs (some (some i, path)) h l =
    ap₂ (first_of path) (other_key n i m k f hs h) (other_key n i m unknown f hs h)

route-Below : (n : ℕ) (path : Str) (m : Node ℕ) → Below n m → BelowRouted n (route path m)
unfolding route
route-Below n [] m h = tt
route-Below n (c ∷ cs) m h = elim (Bool-cases (c == b'/')) [
  | inl e ↦ rw e (route_at-Below n _ _ m h)
  | inr e ↦ rw e tt
]

-- A fresh path gets the next id, and its handler stands first.
record Added (method : ℕ) (path : Str) (h : Handler) (b b' : ServiceBuilder) : Type 0 where
  router : add_exact path (λ _. some b.next_id) b.s.router ≡ some b'.s.router
  handlers : b'.s.handlers ≡ ((b.next_id, method), h) ∷ b.s.handlers

with_router-Added :
    (method next : ℕ) (path : Str) (h : Handler) (b b' : ServiceBuilder) (r : Option (Node ℕ))
    → BelowKeys b.next_id b.s.handlers
    → add_exact path (λ _. some b.next_id) b.s.router ≡ r
    → with_router (b.next_id, method) h next b r ≡ some b'
    → Added method path h b b'
unfolding emplace_handler
with_router-Added method next path h b b' none k g e = absurd (no e)
  where
    no : ◌≡◌ {A = Option ServiceBuilder} none (some b') → ⊥
    no e = cc
with_router-Added method next path h b b' (some n') k g e =
    subst (Added method path h b) (some_inj e) (record {
      router = g;
      handlers = rw (no_key b.next_id b.next_id method b.s.handlers k (omega arith)) refl;
    })

add_route-Added :
    (method : ℕ) (path : Str) (h : Handler) (b b' : ServiceBuilder)
    → IsValid b
    → exact_id path b.s.router ≡ none
    → add_route method path h b ≡ some b'
    → Added method path h b b'
unfolding add_route
add_route-Added method path h b b' v fresh e =
    with_router-Added method _ path h b b' _ v.keys refl (rw fresh at e)

-- A route for a method, added to a valid builder at a path that has none: a request with that method
-- and just that path goes to its handler, with the last segment and its slash as the path that is
-- left; one with another path goes where it went before, whatever its method, also where the added
-- path ends in a slash and begins the other; and one with that path and another method ends the
-- program, unless the route was added for unknown methods.
pub add_route_lem :
    (method k : ℕ) (path other date : Str) (h : Handler) (b b' : ServiceBuilder) (r : Request)
    → IsValid b
    → exact_id path b.s.router ≡ none
    → add_route method path h b ≡ some b'
    → other ≢ path
    → ((s : Str) × LastSegment path s × (pick b'.s method path ≡ found h (b'/' ∷ s)))
      × (pick b'.s k other ≡ pick b.s k other)
      × (r.path ≡ path → r.method ≢ method → method ≢ unknown → serve b'.s date r ≡ terminated)
unfolding pick pick_id first_of serve serve_picked
add_route_lem method k path other date h b b' r v fresh e ne =
    let a = add_route-Added method path h b b' v fresh e in
    let (s, last, here, there) =
      route-add_exact path other b.next_id b.s.router b'.s.router a.router ne in
    (
      (s, last, rw (here, a.handlers) (rw (same_method b.next_id method h b.s.handlers) refl)),
      rw (there, a.handlers)
          (pick_id_below b.next_id method k h b.s.handlers (route other b.s.router)
            (route-Below b.next_id other b.s.router v.routes) v.next),
      λ p q u.
          rw (p, here, a.handlers)
            (rw
              (
                other_method b.next_id method r.method h b.s.handlers v.keys q,
                other_method b.next_id method unknown h b.s.handlers v.keys (λ z. u (sym z)),
              )
              refl),
    )
