-- ===== src/Asio/Http/Service/Valid.antt =====
-- The builder keeps its ids in order.
use net_cpp.Prelude.{
  ℕ, suc, ◌<◌, ◌≡◌, refl, ◌⊎◌, inl, inr, Bool, Option, none, some, List, [], ◌∷◌, arith, ◌==◌,
  some_inj, Bool-cases, Option-cases, Str,
}
use mathlib.Core.Path.{subst}
use net_cpp.Http.Router.{Node, add_exact, add_prefix}
use net_cpp.Http.Proto.{unknown}
use net_cpp.Asio.Http.Service.{
  Handler, ServiceBuilder, new_builder, exact_id, prefix_id, updated, emplace_handler, with_router,
  find_by, add_route, add_prefix_route,
}
use net_cpp.Asio.Http.Service.Ids.{
  BelowId, Below, BelowKeys, Below-suc, Below-empty, add_exact_at-Below, add_prefix_at-Below,
  exact_id_at-Below, prefix_id_at-Below, add_prefix_unchecked-Below, prefix_id_unchecked-Below,
}

BelowKeys-suc : (n : ℕ) (hs : List ((ℕ × ℕ) × Handler)) → BelowKeys n hs → BelowKeys (suc n) hs
BelowKeys-suc n [] h = tt
BelowKeys-suc n (((i, m), f) ∷ hs) (h, t) = (omega arith, BelowKeys-suc n hs t)

-- All ids are below the next one, which is not the value of an id that is not set.
pub record IsValid (b : ServiceBuilder) : Type 0 where
  pub next : 0 < b.next_id
  pub routes : Below b.next_id b.s.router
  pub keys : BelowKeys b.next_id b.s.handlers

pub new-IsValid : IsValid new_builder
new-IsValid = record { next = omega arith; routes = Below-empty 1; keys = tt }

-- The id for a reference, and the next id.
updated_lem :
    (o : Option ℕ) (b : ServiceBuilder)
    → IsValid b
    → BelowId b.next_id o
    → ((updated o b.next_id).0 < (updated o b.next_id).1)
      × (0 < (updated o b.next_id).1)
      × Below (updated o b.next_id).1 b.s.router
      × BelowKeys (updated o b.next_id).1 b.s.handlers
updated_lem none b h k =
    (omega arith, omega arith, Below-suc _ _ h.routes, BelowKeys-suc _ _ h.keys)
updated_lem (some i) b h k = (k, h.next, h.routes, h.keys)

emplace_handler-BelowKeys :
    (n i m : ℕ) (f : Handler) (hs : List ((ℕ × ℕ) × Handler))
    → i < n
    → BelowKeys n hs
    → BelowKeys n (emplace_handler (i, m) f hs)
unfolding emplace_handler
emplace_handler-BelowKeys n i m f hs l h = elim (Option-cases (find_by (i, m) hs)) [
  | inl e ↦ rw e (l, h)
  | inr (g, e) ↦ rw e h
]

with_router-IsValid :
    (i m next : ℕ) (f : Handler) (b b' : ServiceBuilder) (r : Option (Node ℕ))
    → with_router (i, m) f next b r ≡ some b'
    → ((n' : Node ℕ) → r ≡ some n' → Below next n')
    → i < next
    → 0 < next
    → BelowKeys next b.s.handlers
    → IsValid b'
with_router-IsValid i m next f b b' none e g l p k = absurd (no e)
  where
    no : ◌≡◌ {A = Option ServiceBuilder} none (some b') → ⊥
    no e = cc
with_router-IsValid i m next f b b' (some n') e g l p k = subst IsValid (some_inj e) (record {
  next = p;
  routes = g n' refl;
  keys = emplace_handler-BelowKeys next i m f b.s.handlers l k;
})

exact_id-Below : (n : ℕ) (path : Str) (m : Node ℕ) → Below n m → BelowId n (exact_id path m)
exact_id-Below n [] m h = tt
exact_id-Below n (c ∷ cs) m h = exact_id_at-Below n _ _ m h

prefix_id-Below : (n : ℕ) (path : Str) (m : Node ℕ) → Below n m → BelowId n (prefix_id path m)
prefix_id-Below n [] m h = tt
prefix_id-Below n (c ∷ cs) m h = elim (Bool-cases (c == b'/')) [
  | inl e ↦ rw e (prefix_id_at-Below n _ _ m h)
  | inr e ↦ rw e (prefix_id_unchecked-Below n _ _ m h)
]

add_exact-Below :
    (n i : ℕ) (path : Str) (m m' : Node ℕ)
    → i < n
    → Below n m
    → add_exact path (λ _. some i) m ≡ some m'
    → Below n m'
unfolding add_exact
add_exact-Below n i [] m m' l h e = absurd (no e)
  where
    no : ◌≡◌ {A = Option (Node ℕ)} none (some m') → ⊥
    no e = cc
add_exact-Below n i (c ∷ cs) m m' l h e = elim (Bool-cases (c == b'/')) [
  | inl f ↦ subst (Below n) (some_inj (rw f at e)) (add_exact_at-Below n _ _ i m l h)
  | inr f ↦ absurd (no (rw f at e))
]
  where
    no : ◌≡◌ {A = Option (Node ℕ)} none (some m') → ⊥
    no e = cc

add_prefix-Below :
    (n i : ℕ) (asserts : Bool) (path : Str) (m m' : Node ℕ)
    → i < n
    → Below n m
    → add_prefix asserts path (λ _. some i) m ≡ some m'
    → Below n m'
unfolding add_prefix
add_prefix-Below n i asserts [] m m' l h e = absurd (no e)
  where
    no : ◌≡◌ {A = Option (Node ℕ)} none (some m') → ⊥
    no e = cc
add_prefix-Below n i asserts (c ∷ cs) m m' l h e = elim (Bool-cases (c == b'/')) [
  | inl f ↦ subst (Below n) (some_inj (rw f at e)) (add_prefix_at-Below n _ _ i m l h)
  | inr f ↦ elim (Bool-cases asserts) [
    | inl g ↦ absurd (no (rw (f, g) at e))
    | inr g ↦ subst (Below n) (some_inj (rw (f, g) at e)) (add_prefix_unchecked-Below n _ _ i m l h)
  ]
]
  where
    no : ◌≡◌ {A = Option (Node ℕ)} none (some m') → ⊥
    no e = cc

-- A route that is added to a valid builder, exact or for a prefix, leaves a valid builder: every id
-- in the router and among the keys of the handlers is below the next id, and that is not 0.
pub add-IsValid :
    (asserts : Bool) (method : ℕ) (path : Str) (h : Handler) (b b' : ServiceBuilder)
    → IsValid b
    → (add_route method path h b ≡ some b') ⊎ (add_prefix_route asserts path h b ≡ some b')
    → IsValid b'
unfolding add_route add_prefix_route
add-IsValid asserts method path h b b' v (inl e) =
    let (l, p, r, k) =
      updated_lem (exact_id path b.s.router) b v (exact_id-Below _ path _ v.routes) in
    with_router-IsValid _ method _ h b b' _ e (λ n' g. add_exact-Below _ _ path _ n' l r g) l p k
add-IsValid asserts method path h b b' v (inr e) =
    let (l, p, r, k) =
      updated_lem (prefix_id path b.s.router) b v (prefix_id-Below _ path _ v.routes) in
    with_router-IsValid _ unknown _ h b b' _ e
      (λ n' g. add_prefix-Below _ _ asserts path _ n' l r g) l p k
