-- ===== src/Http/Router.antt =====
-- include/xsl/net/http/router.h: the tree of routes.
-- `Id` is a handler type with a default-constructed, false value: `none`. A function that returns
-- `Id&` takes the assignment to that reference as an argument. A hash map is its list of entries.
pub mod Paths
pub mod Exact
mod Tests
use net_cpp.Prelude.{
  ℕ, zero, suc, ◌+◌, ◌-◌, ◌*◌, ◌/◌, ◌%◌, ◌^◌, ◌≤◌, ◌<◌, min, bit_and, bit_or, ◌≡◌, refl, sym, ap,
  ap₂, ◌∙◌, ◌≢◌, ◌↔◌, ◌⊎◌, inl, inr, Bool, true, false, not, ◌&&◌, ◌||◌, Option, none, some, List,
  [], ◌∷◌, ◌++◌, append-nil, append_assoc, arith, ltb, leb, ◌==◌, if◌then◌else◌, ltb→lt, lt→ltb,
  leb→le, ==_iff, Bool-cases, Option-cases, length, get_elem?, get_or, set, take, drop, replicate,
  length-append, length-set, get_or-set_self, get_or-set_ne, take-append, drop-append, length-take,
  length-drop, Str, codes, str_eq, str_eq→eq, str_eq_refl, eq→str_eq, str_eq_iff, all_below,
  all_below_sound,
}

-- `HttpRouteNode`, with its map `children`.
mutual
  pub data Node (A : Type 0) : Type 0 where
    node : List (Str × Option A) → Option A → Children A → Node A

  pub data Children (A : Type 0) : Type 0 where
    nil : Children A
    child : Str → Node A → Children A → Children A

-- A path is cut at its slashes once, where the source cuts off one segment at each level: after the
-- leading slash come a first segment and those that follow it.
abbrev pub Segments : Type 0
Segments = Str × List Str

abbrev pub split_step : ℕ → Segments → Segments
split_step c (s, ss) = if c == b'/' then ([], s ∷ ss) else (c ∷ s, ss)

abbrev pub segments : Str → Segments
segments [] = ([], [])
segments (c ∷ cs) = split_step c (segments cs)

-- The text of a path from its segments.
abbrev pub join : Str → List Str → Str
join s [] = b'/' ∷ s
join s (t ∷ ts) = b'/' ∷ (s ++ join t ts)

-- What `route` points to, with the path that it leaves in the context; `none` is `nullptr`.
abbrev pub Routed : Type 0 → Type 0
Routed A = Option (Option A × Str)

module _ {A : Type 0} where
  abbrev pub empty_node : Node A
  empty_node = node [] none nil

  abbrev pub find_handler : Str → List (Str × Option A) → Option (Option A)
  find_handler k [] = none
  find_handler k ((j, v) ∷ m) = if str_eq j k then some v else find_handler k m

  -- `handlers.find`, or `handlers.try_emplace`, and the assignment to the reference.
  abbrev pub set_handler :
      Str → (Option A → Option A) → List (Str × Option A) → List (Str × Option A)
  set_handler k f [] = (k, f none) ∷ []
  set_handler k f ((j, v) ∷ m) = if str_eq j k then (j, f v) ∷ m else (j, v) ∷ set_handler k f m

  abbrev pub find_child : Str → Children A → Option (Node A)
  find_child k nil = none
  find_child k (child j n m) = if str_eq j k then some n else find_child k m

  -- `children.find`, or `children.try_emplace`, and an operation on that child.
  abbrev pub at_child : Str → (Node A → Node A) → Children A → Children A
  at_child k f nil = child k (f empty_node) nil
  at_child k f (child j n m) = if str_eq j k then child j (f n) m else child j n (at_child k f m)

  -- `HttpRouteNode::add_exact`
  unfoldable pub add_exact_at : Str → List Str → (Option A → Option A) → Node A → Node A
  add_exact_at s [] f (node hs p cs) = node (set_handler s f hs) p cs
  add_exact_at s (t ∷ ts) f (node hs p cs) = node hs p (at_child s (add_exact_at t ts f) cs)

  -- `HttpRouteNode::add_prefix`
  abbrev pub set_prefix : (Option A → Option A) → Node A → Node A
  set_prefix f (node hs p cs) = node hs (f p) cs

  -- The child for a segment behind which there is no other.
  abbrev pub at_last : Str → (Option A → Option A) → Node A → Node A
  at_last s f (node hs p cs) = node hs p (at_child s (set_prefix f) cs)

  unfoldable pub add_prefix_at : Str → List Str → (Option A → Option A) → Node A → Node A
  add_prefix_at [] [] f n = set_prefix f n
  add_prefix_at (c ∷ s) [] f n = at_last (c ∷ s) f n
  add_prefix_at s (t ∷ ts) f (node hs p cs) = node hs p (at_child s (add_prefix_at t ts f) cs)

  abbrev pub fallback : Option A → Str → Routed A
  fallback none path = none
  fallback (some a) path = some (some a, path)

  abbrev pub or_else : Routed A → Routed A → Routed A
  or_else none d = d
  or_else (some r) d = some r

  abbrev pub exact_or : Option (Option A) → Str → Routed A → Routed A
  exact_or none path d = d
  exact_or (some v) path d = some (v, path)

  -- `children.find(sub)`, and the recursive call if the child is there.
  abbrev pub in_child : (Node A → Routed A) → Option (Node A) → Routed A
  in_child r none = none
  in_child r (some c) = r c

  -- `HttpRouteNode::route`
  unfoldable pub route_at : Str → List Str → Node A → Routed A
  route_at s [] (node hs p cs) = exact_or (find_handler s hs) (join s []) (fallback p (join s []))
  route_at s (t ∷ ts) (node hs p cs) =
      or_else (in_child (route_at t ts) (find_child s cs)) (fallback p (join s (t ∷ ts)))

  -- The path without its first character, which is not looked at if it is not a slash.
  unfoldable pub add_prefix_unchecked : Str → List Str → (Option A → Option A) → Node A → Node A
  add_prefix_unchecked s [] f n = at_last s f n
  add_prefix_unchecked s (t ∷ ts) f n = add_prefix_at s (t ∷ ts) f n

  -- The same on the text of a path. `add_exact` asserts a leading slash in every build, and
  -- `add_prefix` where `assert` is not compiled away; the text must not be empty.
  unfoldable pub add_exact : Str → (Option A → Option A) → Node A → Option (Node A)
  add_exact [] f n = none
  add_exact (c ∷ cs) f n =
      if c == b'/' then some (add_exact_at (segments cs).0 (segments cs).1 f n) else none

  unfoldable pub add_prefix : Bool → Str → (Option A → Option A) → Node A → Option (Node A)
  add_prefix asserts [] f n = none
  add_prefix asserts (c ∷ cs) f n =
      if c == b'/'
      then some (add_prefix_at (segments cs).0 (segments cs).1 f n)
      else if asserts
      then none
      else some (add_prefix_unchecked (segments cs).0 (segments cs).1 f n)

  unfoldable pub route : Str → Node A → Routed A
  route [] n = none
  route (c ∷ cs) n = if c == b'/' then route_at (segments cs).0 (segments cs).1 n else none
