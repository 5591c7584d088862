-- ===== src/Wheel/Rc/Alive.antt =====
-- References that are counted, and objects that live as long as there are some.
use net_cpp.Prelude.{
  ℕ, zero, suc, ◌+◌, ◌-◌, ◌≤◌, ◌≡◌, refl, sym, ap, ◌∙◌, ◌≢◌, inl, inr, false, Option, none, some,
  List, [], ◌∷◌, arith, ◌<◌, ◌==◌, if◌then◌else◌, some_inj, ==_iff, Bool-cases, get_elem?, set,
}
use net_cpp.Wheel.Rc.{Handle, returned, set_object, unless_zero, give_up, share}

abbrev pub refers : ℕ → Handle → ℕ
refers a none = 0
refers a (some b) = if a == b then 1 else 0

-- The number of variables that refer to an address.
abbrev pub references : ℕ → List Handle → ℕ
references a [] = 0
references a (h ∷ hs) = refers a h + references a hs

-- What an object with this many references is: it lives just when there is one.
abbrev pub alive : ℕ → Option ℕ
alive zero = none
alive (suc n) = some (suc n)

pub references-set :
    (a i : ℕ) (h g : Handle) (hs : List Handle)
    → get_elem? hs i ≡ some h
    → references a (set hs i g) + refers a h ≡ references a hs + refers a g
references-set a i h g [] e = absurd (no_value e)
  where
    no_value : ◌≡◌ {A = Option Handle} none (some h) → ⊥
    no_value f = cc
references-set a zero h g (k ∷ hs) e = omega (arith, ap (refers a) (some_inj e))
references-set a (suc i) h g (k ∷ hs) e = omega (arith, references-set a i h g hs e)

pub set-other :
    (i j : ℕ) (h g : Handle) (hs : List Handle)
    → i ≢ j
    → get_elem? hs j ≡ some h
    → get_elem? (set hs i g) j ≡ some h
set-other i j h g [] n e = e
set-other zero zero h g (k ∷ hs) n e = absurd (n refl)
set-other zero (suc j) h g (k ∷ hs) n e = e
set-other (suc i) zero h g (k ∷ hs) n e = e
set-other (suc i) (suc j) h g (k ∷ hs) n e = set-other i j h g hs (λ f. n (ap suc f)) e

pub refers_self : (a : ℕ) → refers a (some a) ≡ 1
refers_self a = ground arith

refers_other : (a b : ℕ) → (a == b) ≡ false → refers a (some b) ≡ 0
refers_other a b e = ground arith

unless_zero-alive : (n : ℕ) → unless_zero n ≡ alive n
unless_zero-alive zero = refl
unless_zero-alive (suc n) = let e : (suc n == 0) ≡ false = ground arith in rw e refl

-- Objects that live as numbers of references say.
abbrev pub Alive : (ℕ → Option ℕ) → (ℕ → ℕ) → Type 0
Alive objects r = (a : ℕ) → objects a ≡ alive (r a)

set_object-Alive :
    (b n : ℕ) (objects : ℕ → Option ℕ) (r r' : ℕ → ℕ)
    → Alive objects r
    → r' b ≡ n
    → ((a : ℕ) → (a == b) ≡ false → r' a ≡ r a)
    → Alive (set_object b (alive n) objects) r'
set_object-Alive b n objects r r' h here there a = elim (Bool-cases (a == b)) [
  | inl e ↦ rw e (ap alive (sym (ap r' ((==_iff a b).0 e) ∙ here)))
  | inr e ↦ rw e (h a ∙ ap alive (sym (there a e)))
]

-- A variable that refers to an address gives the reference up.
pub give_up-Alive :
    (h : Handle) (objects : ℕ → Option ℕ) (r : ℕ → ℕ)
    → Alive objects r
    → ((a : ℕ) → refers a h ≤ r a)
    → (objects' : ℕ → Option ℕ) × (give_up h objects ≡ returned objects')
      × Alive objects' (λ a. r a - refers a h)
give_up-Alive none objects r h l = (objects, refl, λ a. h a ∙ ap alive (omega arith))
give_up-Alive (some b) objects r h l = from (r b) refl
  where
    from :
        (n : ℕ)
        → r b ≡ n
        → (objects' : ℕ → Option ℕ) × (give_up (some b) objects ≡ returned objects')
          × Alive objects' (λ a. r a - refers a (some b))
    from zero e = absurd (omega (arith, l b, refers_self b))
    from (suc n) e =
        let lives : objects b ≡ some (suc n) = h b ∙ ap alive e in
        (
          set_object b (alive n) objects,
          rw lives (ap (λ o. returned (set_object b o objects)) (unless_zero-alive n)),
          set_object-Alive b n objects r (λ a. r a - refers a (some b)) h
              (omega (arith, refers_self b)) (λ a f. omega (arith, refers_other a b f)),
        )

pub share-Alive :
    (b : ℕ) (objects : ℕ → Option ℕ) (r : ℕ → ℕ)
    → Alive objects r
    → 0 < r b
    → (objects' : ℕ → Option ℕ) × (share (some b) objects ≡ returned objects')
      × Alive objects' (λ a. r a + refers a (some b))
share-Alive b objects r h l = from (r b) refl
  where
    from :
        (n : ℕ)
        → r b ≡ n
        → (objects' : ℕ → Option ℕ) × (share (some b) objects ≡ returned objects')
          × Alive objects' (λ a. r a + refers a (some b))
    from zero e = absurd (omega arith)
    from (suc n) e =
        let lives : objects b ≡ some (suc n) = h b ∙ ap alive e in
        (
          set_object b (alive (suc (suc n))) objects,
          rw lives (ap (λ k. returned (set_object b (some k) objects)) (omega arith)),
          set_object-Alive b (suc (suc n)) objects r (λ a. r a + refers a (some b)) h
              (omega (arith, refers_self b)) (λ a f. omega (arith, refers_other a b f)),
        )
