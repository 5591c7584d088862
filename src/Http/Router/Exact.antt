-- ===== src/Http/Router/Exact.antt =====
-- What `add_exact` changes: its own path, and no other.
use net_cpp.Prelude.{
  ◌≡◌, refl, sym, ap, ap₂, ◌∙◌, ◌≢◌, inl, inr, false, Option, none, some, List, [], ◌∷◌, arith,
  ◌==◌, ==_iff, Bool-cases, Str, str_eq, str_eq→eq, str_eq_refl, str_eq_iff,
}
use mathlib.Core.Path.{subst}
use net_cpp.Prelude.Tests.{some_inj}
use net_cpp.Http.Router.{
  in_child, Node, node, Children, nil, child, segments, join, empty_node, find_handler, set_handler,
  find_child, at_child, add_exact_at, fallback, or_else, route_at, add_exact, route,
}
use net_cpp.Http.Router.Paths.{segments_inj, LastSegment, last_of, last_of-segments}

module _ {A : Type 0} where
  find_handler-set_handler :
      (k j : Str) (f : Option A → Option A) (m : List (Str × Option A))
      → str_eq k j ≡ false
      → find_handler j (set_handler k f m) ≡ find_handler j m
  find_handler-set_handler k j f [] h = ground arith
  find_handler-set_handler k j f ((i, v) ∷ m) h =
      ground
        (arith, find_handler-set_handler k j f m, str_eq_iff i k, str_eq_iff i j, str_eq_iff k j)

  find_handler-set_handler_self :
      (k : Str) (a : A) (m : List (Str × Option A))
      → find_handler k (set_handler k (λ _. some a) m) ≡ some (some a)
  find_handler-set_handler_self k a [] = ground (arith, str_eq_refl k)
  find_handler-set_handler_self k a ((i, v) ∷ m) =
      ground (arith, find_handler-set_handler_self k a m)

  -- A child, or the empty node that `try_emplace` would create.
  abbrev child_or_empty : Option (Node A) → Node A
  child_or_empty none = empty_node
  child_or_empty (some n) = n

  find_child-at_child_self :
      (k : Str) (f : Node A → Node A) (m : Children A)
      → find_child k (at_child k f m) ≡ some (f (child_or_empty (find_child k m)))
  find_child-at_child_self k f nil = ground (arith, str_eq_refl k)
  find_child-at_child_self k f (child j n m) = ground (arith, find_child-at_child_self k f m)

  find_child-at_child :
      (k j : Str) (f : Node A → Node A) (m : Children A)
      → str_eq k j ≡ false
      → find_child j (at_child k f m) ≡ find_child j m
  find_child-at_child k j f nil h = ground arith
  find_child-at_child k j f (child i n m) h =
      ground (arith, find_child-at_child k j f m, str_eq_iff i k, str_eq_iff i j, str_eq_iff k j)

  route_at-empty : (s : Str) (ts : List Str) → route_at s ts (empty_node {A = A}) ≡ none
  unfolding route_at
  route_at-empty s [] = refl
  route_at-empty s (t ∷ ts) = refl

  route_at-add_exact_at_self :
      (s : Str) (ts : List Str) (a : A) (n : Node A)
      → route_at s ts (add_exact_at s ts (λ _. some a) n) ≡ some (some a, join (last_of s ts) [])
  unfolding route_at add_exact_at
  route_at-add_exact_at_self s [] a (node hs p cs) = rw (find_handler-set_handler_self s a hs)
  route_at-add_exact_at_self s (t ∷ ts) a (node hs p cs) =
      rw (find_child-at_child_self s (add_exact_at t ts (λ _. some a)) cs)
        (rw (route_at-add_exact_at_self t ts a (child_or_empty (find_child s cs))))

  -- What a longer path finds in a child that is changed, if the change does not show there.
  below_same :
      (s t' : Str) (ts' : List Str) (g : Node A → Node A) (cs : Children A)
      → ((c : Node A) → route_at t' ts' (g c) ≡ route_at t' ts' c)
      → in_child (route_at t' ts') (find_child s (at_child s g cs))
        ≡ in_child (route_at t' ts') (find_child s cs)
  below_same s t' ts' g cs same = rw (find_child-at_child_self s g cs) (at (find_child s cs))
    where
      at :
          (o : Option (Node A))
          → route_at t' ts' (g (child_or_empty o)) ≡ in_child (route_at t' ts') o
      at none = same empty_node ∙ route_at-empty t' ts'
      at (some c) = same c

  pub route_at-add_exact_at_other :
      (s s' : Str) (ts ts' : List Str) (f : Option A → Option A) (n : Node A)
      → ¬ ((s ≡ s') × (ts ≡ ts'))
      → route_at s' ts' (add_exact_at s ts f n) ≡ route_at s' ts' n
  unfolding route_at add_exact_at
  route_at-add_exact_at_other s s' [] [] f (node hs p cs) ne = elim (Bool-cases (str_eq s s')) [
    | inl e ↦ absurd (ne (str_eq→eq s s' e, refl))
    | inr e ↦ rw (find_handler-set_handler s s' f hs e)
  ]
  route_at-add_exact_at_other s s' [] (t' ∷ ts') f (node hs p cs) ne = refl
  route_at-add_exact_at_other s s' (t ∷ ts) [] f (node hs p cs) ne = refl
  route_at-add_exact_at_other s s' (t ∷ ts) (t' ∷ ts') f (node hs p cs) ne =
      elim (Bool-cases (str_eq s s')) [
        | inr e ↦ rw (find_child-at_child s s' (add_exact_at t ts f) cs e)
        | inl e ↦
            let q : s ≡ s' = str_eq→eq s s' e in
            let differs : ¬ ((t ≡ t') × (ts ≡ ts')) = λ h. ne (q, ap₂ ◌∷◌ h.0 h.1) in
            ap (λ r. or_else r (fallback p (join s' (t' ∷ ts'))))
              (subst
                (λ k.
                  in_child (route_at t' ts') (find_child k (at_child s (add_exact_at t ts f) cs))
                  ≡ in_child (route_at t' ts') (find_child k cs))
                q
                (below_same s t' ts' (add_exact_at t ts f) cs
                  (λ c. route_at-add_exact_at_other t t' ts ts' f c differs)))
      ]

  -- `add_exact` succeeds on a path with a leading slash, and works on its segments.
  add_exact_lem :
      (path : Str) (f : Option A → Option A) (n n' : Node A)
      → add_exact path f n ≡ some n'
      → (cs : Str) × (path ≡ b'/' ∷ cs) × (n' ≡ add_exact_at (segments cs).0 (segments cs).1 f n)
  unfolding add_exact
  add_exact_lem [] f n n' h = absurd (none_some h)
    where
      none_some : ◌≡◌ {A = Option (Node A)} none (some n') → ⊥
      none_some e = cc
  add_exact_lem (c ∷ cs) f n n' h = elim (Bool-cases (c == b'/')) [
    | inl e ↦ (cs, ap (λ k. k ∷ cs) ((==_iff c b'/').0 e), sym (some_inj (rw e at h)))
    | inr e ↦ absurd (none_some (rw e at h))
  ]
    where
      none_some : ◌≡◌ {A = Option (Node A)} none (some n') → ⊥
      none_some e = cc

  route-slash :
      (cs : Str) (n : Node A) → route (b'/' ∷ cs) n ≡ route_at (segments cs).0 (segments cs).1 n
  unfolding route
  route-slash cs n = refl

  route_other :
      (other cs : Str) (f : Option A → Option A) (n : Node A)
      → other ≢ b'/' ∷ cs
      → route other (add_exact_at (segments cs).0 (segments cs).1 f n) ≡ route other n
  unfolding route
  route_other [] cs f n ne = refl
  route_other (o ∷ os) cs f n ne = elim (Bool-cases (o == b'/')) [
    | inr e ↦ rw e
    | inl e ↦
        let slash : o ≡ b'/' = (==_iff o b'/').0 e in
        rw e (
          route_at-add_exact_at_other (segments cs).0 (segments os).0 (segments cs).1
            (segments os).1 f n
            (λ h. ne (ap₂ ◌∷◌ slash (sym (segments_inj cs os (λ i. (h.0 i, h.1 i)))))))
  ]

  -- Where an exact route was added, its handler is found, and the path that is left in the context is
  -- what stands behind the last slash of the path, with that slash; every other path, also one that
  -- continues the added path, is routed as before, to an exact handler, to a prefix handler or to
  -- nothing.
  pub route-add_exact :
      (path other : Str) (a : A) (n n' : Node A)
      → add_exact path (λ _. some a) n ≡ some n'
      → other ≢ path
      → (s : Str) × LastSegment path s
        × (route path n' ≡ some (some a, b'/' ∷ s))
        × (route other n' ≡ route other n)
  route-add_exact path other a n n' h ne =
      let (cs, p, q) = add_exact_lem path (λ _. some a) n n' h in
      rw (p, q)
        (
          last_of (segments cs).0 (segments cs).1,
          last_of-segments cs,
          route-slash cs (add_exact_at (segments cs).0 (segments cs).1 (λ _. some a) n)
              ∙ route_at-add_exact_at_self (segments cs).0 (segments cs).1 a n,
          route_other other cs (λ _. some a) n (λ e. ne (e ∙ sym p)),
        )
