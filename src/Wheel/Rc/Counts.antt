-- ===== src/Wheel/Rc/Counts.antt =====
-- The counts of the store, and the life of its objects.
use net_cpp.Prelude.{
  ℕ, ◌-◌, ◌≤◌, ◌≡◌, refl, ap, ◌∙◌, ◌≢◌, inl, inr, Bool, true, false, Option, none, some, arith, ◌<◌,
  ◌⊎◌, ◌==◌, if◌then◌else◌, Bool-cases, set,
}
use net_cpp.Wheel.Rc.{
  Handle, Store, Applied, returned, no_variable, null_pointer, use_after_free, handle_at, on_handle,
  make, copy, move, destroy, assign_copy, assign_move, Op, making, copying, moving, destroying,
  assigning, assigning_moved, apply,
}
use net_cpp.Wheel.Rc.Alive.{
  refers, references, alive, references-set, set-other, refers_self, give_up-Alive, share-Alive,
}

-- An object lives just when a variable refers to it, its count is then the number of these
-- variables, and no variable refers to an address not yet used.
pub record Counted (s : Store) : Type 0 where
  pub exact : (a : ℕ) → s.object a ≡ alive (references a s.handles)
  pub fresh : (a : ℕ) → s.next ≤ a → references a s.handles ≡ 0

-- The result of an operation: it leaves the counts exact, or it fails for a reason of the caller's;
-- it never goes through a pointer to a deleted object.
abbrev pub Intact : Type 0 → Type 0 → Applied Store → Type 0
Intact Null Missing (returned s) = Counted s
Intact Null Missing no_variable = Missing
Intact Null Missing null_pointer = Null
Intact Null Missing use_after_free = ⊥

-- The operation copies from a null handle.
abbrev pub CopiesNull : Op → Store → Type 0
CopiesNull (copying i) s = handle_at i s ≡ some none
CopiesNull (assigning i j) s = handle_at j s ≡ some none
CopiesNull _ s = ⊥

-- The operation is on a variable that is not there.
abbrev pub IsMissing : Op → Store → Type 0
IsMissing making s = ⊥
IsMissing (copying i) s = handle_at i s ≡ none
IsMissing (moving i) s = handle_at i s ≡ none
IsMissing (destroying i) s = handle_at i s ≡ none
IsMissing (assigning i j) s = (handle_at i s ≡ none) ⊎ (handle_at j s ≡ none)
IsMissing (assigning_moved i j) s = (handle_at i s ≡ none) ⊎ (handle_at j s ≡ none)

make-Counted : (s : Store) → Counted s → Counted (make s)
make-Counted s c = record {
  exact = λ a. elim (Bool-cases (a == s.next)) [
    | inl e ↦
        let first : references a s.handles ≡ 0 = c.fresh a (ground arith) in rw (e, first) refl
    | inr e ↦ rw e (c.exact a ∙ ap alive (omega arith))
  ];
  fresh = λ a l.
      let e : (a == s.next) ≡ false = ground arith in rw e (omega (arith, c.fresh a (omega arith)));
}

-- What a variable with a handle adds to the references.
one_of :
    (s : Store) (i a : ℕ) (h : Handle)
    → handle_at i s ≡ some h
    → refers a h ≤ references a s.handles
one_of s i a h e = omega (arith, references-set a i h none s.handles e)

move-Counted :
    (s : Store) (i : ℕ) (h : Handle) → handle_at i s ≡ some h → Counted s → Counted (move i h s)
move-Counted s i h e c = record {
  exact = λ a. c.exact a ∙ ap alive (omega (arith, references-set a i h none s.handles e));
  fresh = λ a l. omega (arith, c.fresh a l, references-set a i h none s.handles e);
}

module _ (Missing : Type 0) where
  copy-Intact :
      (s : Store) (i : ℕ) (h : Handle)
      → handle_at i s ≡ some h
      → Counted s
      → Intact (handle_at i s ≡ some none) Missing (copy h s)
  copy-Intact s i none e c = e
  copy-Intact s i (some b) e c =
      let (objects, f, lives) =
        share-Alive b s.object (λ a. references a s.handles) c.exact
          (omega (arith, one_of s i b (some b) e, refers_self b)) in
      rw f (record {
        exact = λ a. lives a ∙ ap alive (omega arith);
        fresh = λ a l. omega (arith, c.fresh a l, one_of s i a (some b) e);
      })

  destroy-Intact :
      (s : Store) (i : ℕ) (h : Handle)
      → handle_at i s ≡ some h
      → Counted s
      → Intact ⊥ Missing (destroy i h s)
  destroy-Intact s i h e c =
      let (objects, f, lives) =
        give_up-Alive h s.object (λ a. references a s.handles) c.exact (λ a. one_of s i a h e) in
      rw f (record {
        exact = λ a. lives a ∙ ap alive (omega (arith, references-set a i h none s.handles e));
        fresh = λ a l. omega (arith, c.fresh a l, references-set a i h none s.handles e);
      })

  assign_copy-Intact :
      (s : Store) (i j : ℕ) (h g : Handle)
      → i ≢ j
      → handle_at i s ≡ some h
      → handle_at j s ≡ some g
      → Counted s
      → Intact (handle_at j s ≡ some none) Missing (assign_copy i h g s)
  assign_copy-Intact s i j h none n e f c =
      let (objects, k, lives) =
        give_up-Alive h s.object (λ a. references a s.handles) c.exact (λ a. one_of s i a h e) in
      rw k f
  assign_copy-Intact s i j h (some b) n e f c =
      let left : ℕ → ℕ = λ a. references a s.handles - refers a h in
      let (objects, k, lives) =
        give_up-Alive h s.object (λ a. references a s.handles) c.exact (λ a. one_of s i a h e) in
      let kept : 0 < left b = omega (
        arith,
        references-set b i h none s.handles e,
        references-set b j (some b) none (set s.handles i none)
            (set-other i j (some b) none s.handles n f),
        refers_self b,
      ) in
      let (objects', k', lives') = share-Alive b objects left lives kept in
      rw (k, k')
        (record {
          exact = λ a.
              lives' a
              ∙ ap alive
                  (omega (arith, one_of s i a h e, references-set a i h (some b) s.handles e));
          fresh = λ a l. omega (
            arith,
            c.fresh a l,
            one_of s j a (some b) f,
            references-set a i h (some b) s.handles e,
          );
        })

  assign_move-Intact :
      (s : Store) (i j : ℕ) (h g : Handle)
      → i ≢ j
      → handle_at i s ≡ some h
      → handle_at j s ≡ some g
      → Counted s
      → Intact ⊥ Missing (assign_move i j h g s)
  assign_move-Intact s i j h g n e f c =
      let there = set-other i j g g s.handles n f in
      let (objects, k, lives) =
        give_up-Alive h s.object (λ a. references a s.handles) c.exact (λ a. one_of s i a h e) in
      rw k (record {
        exact = λ a.
            lives a
            ∙ ap alive (
                omega (
                  arith,
                  references-set a i h g s.handles e,
                  references-set a j g none (set s.handles i g) there,
                  one_of s i a h e,
                ));
        fresh = λ a l. omega (
          arith,
          c.fresh a l,
          references-set a i h g s.handles e,
          references-set a j g none (set s.handles i g) there,
        );
      })

on_handle-Intact :
    (Null Missing : Type 0) (o : Option Handle) (k : Handle → Applied Store)
    → (o ≡ none → Missing)
    → ((h : Handle) → o ≡ some h → Intact Null Missing (k h))
    → Intact Null Missing (on_handle o k)
on_handle-Intact Null Missing none k m f = m refl
on_handle-Intact Null Missing (some h) k m f = f h refl

unless_same :
    (Null Missing : Type 0) (b : Bool) (s : Store) (r : Applied Store)
    → Counted s
    → (b ≡ false → Intact Null Missing r)
    → Intact Null Missing (if b then returned s else r)
unless_same Null Missing true s r c f = c
unless_same Null Missing false s r c f = f refl

test-ne : (i j : ℕ) → (i == j) ≡ false → i ≢ j
test-ne i j n e = ground arith

-- Every operation on a store with exact counts either returns, and keeps them exact, so an object is
-- deleted just when the last variable that refers to it is gone; or it copies from a null handle; or
-- it is on a variable that is not there. It never goes through a pointer to a deleted object.
pub apply-Intact :
    (op : Op) (s : Store) → Counted s → Intact (CopiesNull op s) (IsMissing op s) (apply op s)
unfolding apply
apply-Intact making s c = make-Counted s c
apply-Intact (copying i) s c = on_handle-Intact _ _ _ _ (λ m. m) (λ h e. copy-Intact _ s i h e c)
apply-Intact (moving i) s c = on_handle-Intact _ _ _ _ (λ m. m) (λ h e. move-Counted s i h e c)
apply-Intact (destroying i) s c =
    on_handle-Intact _ _ _ _ (λ m. m) (λ h e. destroy-Intact _ s i h e c)
apply-Intact (assigning i j) s c = on_handle-Intact _ _ _ _ inl (λ h e.
    on_handle-Intact _ _ _ _ inr (λ g f.
      unless_same _ _ (i == j) s _ c (λ n. assign_copy-Intact _ s i j h g (test-ne i j n) e f c)))
apply-Intact (assigning_moved i j) s c = on_handle-Intact _ _ _ _ inl (λ h e.
    on_handle-Intact _ _ _ _ inr (λ g f.
      unless_same _ _ (i == j) s _ c (λ n. assign_move-Intact _ s i j h g (test-ne i j n) e f c)))
