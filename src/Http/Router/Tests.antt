-- ===== src/Http/Router/Tests.antt =====
-- The router on a small tree.
use net_cpp.Prelude.{ℕ, ◌≡◌, refl, ◌≢◌, some, ◌∷◌, Str, codes}
use net_cpp.Http.Router.{Node, empty_node, segments, add_exact, add_exact_at, route}
use net_cpp.Http.Router.Paths.{LastSegment}
use net_cpp.Http.Router.Exact.{route-add_exact}

abbrev ab : Str
ab = codes "/a/b"

abbrev tree : Node ℕ
tree = add_exact_at (segments (codes "a/b")).0 (segments (codes "a/b")).1 (λ _. some 7) empty_node

tree_test : add_exact ab (λ _. some 7) empty_node ≡ some tree
unfolding add_exact
tree_test = refl

other_path : codes "/a" ≢ ab
other_path e = cc

route-add_exact_example :
    (s : Str) × LastSegment ab s
    × (route ab tree ≡ some (some 7, b'/' ∷ s))
    × (route (codes "/a") tree ≡ route (codes "/a") empty_node)
route-add_exact_example = route-add_exact ab (codes "/a") 7 empty_node tree tree_test other_path
