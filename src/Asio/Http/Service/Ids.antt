-- ===== src/Asio/Http/Service/Ids.antt =====
-- Every id that the builder has given out is below the next one.
use net_cpp.Prelude.{
  ℕ, suc, ◌<◌, ◌≡◌, refl, inl, inr, Option, none, some, List, [], ◌∷◌, arith, Bool-cases, Str,
  str_eq,
}
use net_cpp.Http.Router.{
  Node, Children, node, nil, child, Routed, empty_node, find_handler, set_handler, find_child,
  at_child, add_exact_at, set_prefix, at_last, add_prefix_at, add_prefix_unchecked, fallback,
  or_else, exact_or, in_child, route_at,
}
use net_cpp.Asio.Http.Service.{
  Handler, id_in, exact_id_at, prefix_of, last_id, prefix_id_at, prefix_id_unchecked,
}

module _ (n : ℕ) where
  abbrev pub BelowId : Option ℕ → Type 0
  BelowId none = Unit {0}
  BelowId (some i) = i < n

  abbrev pub BelowHandlers : List (Str × Option ℕ) → Type 0
  BelowHandlers [] = Unit {0}
  BelowHandlers ((k, i) ∷ hs) = BelowId i × BelowHandlers hs

  mutual
    pub Below : Node ℕ → Type 0
    Below (node hs p cs) = BelowHandlers hs × BelowId p × BelowChildren cs

    pub BelowChildren : Children ℕ → Type 0
    BelowChildren nil = Unit {0}
    BelowChildren (child k m cs) = Below m × BelowChildren cs

  abbrev pub BelowKeys : List ((ℕ × ℕ) × Handler) → Type 0
  BelowKeys [] = Unit {0}
  BelowKeys (((i, m), h) ∷ hs) = (i < n) × BelowKeys hs

  abbrev pub BelowRouted : Routed ℕ → Type 0
  BelowRouted none = Unit {0}
  BelowRouted (some (i, s)) = BelowId i

  pub Below-empty : Below empty_node
  unfolding Below BelowChildren
  Below-empty = (tt, tt, tt)

  find_handler-Below :
      (s : Str) (hs : List (Str × Option ℕ))
      → BelowHandlers hs
      → (o : Option (Option ℕ)) × (find_handler s hs ≡ o) × BelowRouted (exact_or o s none)
  find_handler-Below s [] h = (none, refl, tt)
  find_handler-Below s ((k, i) ∷ hs) (h, t) = elim (Bool-cases (str_eq k s)) [
    | inl e ↦ (some i, rw e refl, h)
    | inr e ↦ let (o, f, g) = find_handler-Below s hs t in (o, rw e f, g)
  ]

  set_handler-Below :
      (s : Str) (i : ℕ) (hs : List (Str × Option ℕ))
      → i < n
      → BelowHandlers hs
      → BelowHandlers (set_handler s (λ _. some i) hs)
  set_handler-Below s i [] l h = (l, tt)
  set_handler-Below s i ((k, j) ∷ hs) l (h, t) = elim (Bool-cases (str_eq k s)) [
    | inl e ↦ rw e (l, t)
    | inr e ↦ rw e (h, set_handler-Below s i hs l t)
  ]

  -- What a child that is there, or a new one, becomes.
  at_child-Below :
      (s : Str) (f : Node ℕ → Node ℕ) (cs : Children ℕ)
      → ((m : Node ℕ) → Below m → Below (f m))
      → BelowChildren cs
      → BelowChildren (at_child s f cs)
  unfolding BelowChildren Below
  at_child-Below s f nil g h = (g empty_node Below-empty, tt)
  at_child-Below s f (child k m cs) g (h, t) = elim (Bool-cases (str_eq k s)) [
    | inl e ↦ rw e (g m h, t)
    | inr e ↦ rw e (h, at_child-Below s f cs g t)
  ]

  pub add_exact_at-Below :
      (s : Str) (ts : List Str) (i : ℕ) (m : Node ℕ)
      → i < n
      → Below m
      → Below (add_exact_at s ts (λ _. some i) m)
  unfolding add_exact_at Below
  add_exact_at-Below s [] i (node hs p cs) l (h, h', h'') = (set_handler-Below s i hs l h, h', h'')
  add_exact_at-Below s (t ∷ ts) i (node hs p cs) l (h, h', h'') = (
    h,
    h',
    at_child-Below s (add_exact_at t ts (λ _. some i)) cs (λ m. add_exact_at-Below t ts i m l) h'',
  )

  set_prefix-Below : (i : ℕ) (m : Node ℕ) → i < n → Below m → Below (set_prefix (λ _. some i) m)
  unfolding Below
  set_prefix-Below i (node hs p cs) l (h, h', h'') = (h, l, h'')

  at_last-Below :
      (s : Str) (i : ℕ) (m : Node ℕ) → i < n → Below m → Below (at_last s (λ _. some i) m)
  unfolding Below
  at_last-Below s i (node hs p cs) l (h, h', h'') =
      (h, h', at_child-Below s _ cs (λ m. set_prefix-Below i m l) h'')

  pub add_prefix_at-Below :
      (s : Str) (ts : List Str) (i : ℕ) (m : Node ℕ)
      → i < n
      → Below m
      → Below (add_prefix_at s ts (λ _. some i) m)
  unfolding add_prefix_at Below
  add_prefix_at-Below [] [] i m l h = set_prefix-Below i m l h
  add_prefix_at-Below (c ∷ s) [] i m l h = at_last-Below (c ∷ s) i m l h
  add_prefix_at-Below s (t ∷ ts) i (node hs p cs) l (h, h', h'') = (
    h,
    h',
    at_child-Below s (add_prefix_at t ts (λ _. some i)) cs (λ m. add_prefix_at-Below t ts i m l)
        h'',
  )

  pub add_prefix_unchecked-Below :
      (s : Str) (ts : List Str) (i : ℕ) (m : Node ℕ)
      → i < n
      → Below m
      → Below (add_prefix_unchecked s ts (λ _. some i) m)
  unfolding add_prefix_unchecked
  add_prefix_unchecked-Below s [] i m l h = at_last-Below s i m l h
  add_prefix_unchecked-Below s (t ∷ ts) i m l h = add_prefix_at-Below s (t ∷ ts) i m l h

  -- What is below is found below.
  handler_id-Below :
      (s : Str) (hs : List (Str × Option ℕ)) (path : Str)
      → BelowHandlers hs
      → (d : Routed ℕ) → BelowRouted d
      → BelowRouted (exact_or (find_handler s hs) path d)
  handler_id-Below s [] path h d k = k
  handler_id-Below s ((j, i) ∷ hs) path (h, t) d k = elim (Bool-cases (str_eq j s)) [
    | inl e ↦ rw e h
    | inr e ↦ rw e (handler_id-Below s hs path t d k)
  ]

  fallback-Below : (p : Option ℕ) (path : Str) → BelowId p → BelowRouted (fallback p path)
  fallback-Below none path h = tt
  fallback-Below (some i) path h = h

  or_else-Below : (r d : Routed ℕ) → BelowRouted r → BelowRouted d → BelowRouted (or_else r d)
  or_else-Below none d h k = k
  or_else-Below (some r) d h k = h

  find_child-Below :
      (s : Str) (f : Node ℕ → Routed ℕ) (cs : Children ℕ)
      → ((m : Node ℕ) → Below m → BelowRouted (f m))
      → BelowChildren cs
      → BelowRouted (in_child f (find_child s cs))
  unfolding BelowChildren
  find_child-Below s f nil g h = tt
  find_child-Below s f (child k m cs) g (h, t) = elim (Bool-cases (str_eq k s)) [
    | inl e ↦ rw e (g m h)
    | inr e ↦ rw e (find_child-Below s f cs g t)
  ]

  pub route_at-Below :
      (s : Str) (ts : List Str) (m : Node ℕ) → Below m → BelowRouted (route_at s ts m)
  unfolding route_at Below
  route_at-Below s [] (node hs p cs) (h, h', h'') =
      handler_id-Below s hs _ h _ (fallback-Below p _ h')
  route_at-Below s (t ∷ ts) (node hs p cs) (h, h', h'') =
      or_else-Below _ _ (find_child-Below s (route_at t ts) cs (route_at-Below t ts) h'')
        (fallback-Below p _ h')

  id_in-Below :
      (s : Str) (f : Node ℕ → Option ℕ) (cs : Children ℕ)
      → ((m : Node ℕ) → Below m → BelowId (f m))
      → BelowChildren cs
      → BelowId (id_in f (find_child s cs))
  unfolding BelowChildren
  id_in-Below s f nil g h = tt
  id_in-Below s f (child k m cs) g (h, t) = elim (Bool-cases (str_eq k s)) [
    | inl e ↦ rw e (g m h)
    | inr e ↦ rw e (id_in-Below s f cs g t)
  ]

  pub exact_id_at-Below :
      (s : Str) (ts : List Str) (m : Node ℕ) → Below m → BelowId (exact_id_at s ts m)
  unfolding exact_id_at Below
  exact_id_at-Below s [] (node [] p cs) (h, h', h'') = tt
  exact_id_at-Below s [] (node ((k, i) ∷ hs) p cs) ((h, t), h', h'') =
      elim (Bool-cases (str_eq k s)) [
        | inl e ↦ rw e h
        | inr e ↦ rw e (exact_id_at-Below s [] (node hs p cs) (t, h', h''))
      ]
  exact_id_at-Below s (t ∷ ts) (node hs p cs) (h, h', h'') =
      id_in-Below s (exact_id_at t ts) cs (exact_id_at-Below t ts) h''

  prefix_of-Below : (m : Node ℕ) → Below m → BelowId (prefix_of m)
  unfolding Below
  prefix_of-Below (node hs p cs) (h, h', h'') = h'

  last_id-Below : (s : Str) (m : Node ℕ) → Below m → BelowId (last_id s m)
  unfolding Below
  last_id-Below s (node hs p cs) (h, h', h'') = id_in-Below s prefix_of cs prefix_of-Below h''

  pub prefix_id_at-Below :
      (s : Str) (ts : List Str) (m : Node ℕ) → Below m → BelowId (prefix_id_at s ts m)
  unfolding prefix_id_at Below
  prefix_id_at-Below [] [] m h = prefix_of-Below m h
  prefix_id_at-Below (c ∷ s) [] m h = last_id-Below (c ∷ s) m h
  prefix_id_at-Below s (t ∷ ts) (node hs p cs) (h, h', h'') =
      id_in-Below s (prefix_id_at t ts) cs (prefix_id_at-Below t ts) h''

  pub prefix_id_unchecked-Below :
      (s : Str) (ts : List Str) (m : Node ℕ) → Below m → BelowId (prefix_id_unchecked s ts m)
  unfolding prefix_id_unchecked
  prefix_id_unchecked-Below s [] m h = last_id-Below s m h
  prefix_id_unchecked-Below s (t ∷ ts) m h = prefix_id_at-Below s (t ∷ ts) m h

pub BelowId-suc : (n : ℕ) (o : Option ℕ) → BelowId n o → BelowId (suc n) o
BelowId-suc n none h = tt
BelowId-suc n (some i) h = omega arith

pub BelowHandlers-suc :
    (n : ℕ) (hs : List (Str × Option ℕ)) → BelowHandlers n hs → BelowHandlers (suc n) hs
BelowHandlers-suc n [] h = tt
BelowHandlers-suc n ((k, i) ∷ hs) (h, t) = (BelowId-suc n i h, BelowHandlers-suc n hs t)

mutual
  unfolding Below BelowChildren

  pub Below-suc : (n : ℕ) (m : Node ℕ) → Below n m → Below (suc n) m
  Below-suc n (node hs p cs) (h, h', h'') =
      (BelowHandlers-suc n hs h, BelowId-suc n p h', BelowChildren-suc n cs h'')

  BelowChildren-suc : (n : ℕ) (cs : Children ℕ) → BelowChildren n cs → BelowChildren (suc n) cs
  BelowChildren-suc n nil h = tt
  BelowChildren-suc n (child k m cs) (h, t) = (Below-suc n m h, BelowChildren-suc n cs t)
