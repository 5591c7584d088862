-- ===== src/Wheel/Rc.antt =====
-- include/xsl/wheel/rc.h: `Rc`, the counted reference of one thread, as handles into a store.
pub mod Alive
pub mod Counts
mod Tests
use net_cpp.Prelude.{
  ℕ, zero, suc, ◌+◌, ◌-◌, ◌*◌, ◌/◌, ◌%◌, ◌^◌, ◌≤◌, ◌<◌, min, bit_and, bit_or, ◌≡◌, refl, sym, ap,
  ap₂, ◌∙◌, ◌≢◌, ◌↔◌, ◌⊎◌, inl, inr, Bool, true, false, not, ◌&&◌, ◌||◌, Option, none, some, List,
  [], ◌∷◌, ◌++◌, append-nil, append_assoc, arith, ltb, leb, ◌==◌, if◌then◌else◌, ltb→lt, lt→ltb,
  leb→le, le→leb, some_inj, ==_iff, Bool-cases, Option-cases, length, get_elem?, get_or, set, take,
  drop, replicate, length-append, length-set, get_or-set_self, get_or-set_ne, take-append,
  drop-append, length-take, length-drop, Str, codes, str_eq, str_eq→eq, str_eq_refl, eq→str_eq,
  str_eq_iff, all_below, all_below_sound,
}

-- `inner_`: an address, none for the null pointer.
abbrev pub Handle : Type 0
Handle = Option ℕ

-- The `ref_count` of the object that lives at each address, none where none lives, the next free
-- address, and the variables of type `Rc`; a destroyed variable stays in its place as a null handle.
-- A count does not wrap upwards: each reference is a variable of eight bytes.
pub record Store : Type 0 where
  pub object : ℕ → Option ℕ
  pub next : ℕ
  pub handles : List Handle

-- What an operation does: there is no such variable, it goes through a null pointer, or it goes
-- through a pointer to an object that was deleted.
pub data Applied {ℓ} (A : Type ℓ) : Type ℓ where
  returned : A → Applied A
  no_variable null_pointer use_after_free : Applied A

abbrev pub on_applied {ℓ ℓ'} : {A : Type ℓ} {B : Type ℓ'} → Applied A → (A → Applied B) → Applied B
on_applied (returned x) k = k x
on_applied no_variable k = no_variable
on_applied null_pointer k = null_pointer
on_applied use_after_free k = use_after_free

abbrev pub set_object : ℕ → Option ℕ → (ℕ → Option ℕ) → ℕ → Option ℕ
set_object a o objects b = if b == a then o else objects b

-- `--ref_count`
abbrev pub decremented : ℕ → ℕ
decremented zero = 2 ^ 64 - 1
decremented (suc n) = n

-- `if (... == 0) delete inner_;` on the count that is left
abbrev pub unless_zero : ℕ → Option ℕ
unless_zero n = if n == 0 then none else some n

abbrev pub decrement : ℕ → Option ℕ → (ℕ → Option ℕ) → Applied (ℕ → Option ℕ)
decrement a none objects = use_after_free
decrement a (some n) objects = returned (set_object a (unless_zero (decremented n)) objects)

-- `if (inner_ && --inner_->ref_count == 0) delete inner_;`
abbrev pub give_up : Handle → (ℕ → Option ℕ) → Applied (ℕ → Option ℕ)
give_up none objects = returned objects
give_up (some a) objects = decrement a (objects a) objects

abbrev pub increment : ℕ → Option ℕ → (ℕ → Option ℕ) → Applied (ℕ → Option ℕ)
increment a none objects = use_after_free
increment a (some n) objects = returned (set_object a (some (n + 1)) objects)

-- `++inner_->ref_count`
abbrev pub share : Handle → (ℕ → Option ℕ) → Applied (ℕ → Option ℕ)
share none objects = null_pointer
share (some a) objects = increment a (objects a) objects

abbrev pub handle_at : ℕ → Store → Option Handle
handle_at i s = get_elem? s.handles i

-- Go on with the handle of a variable.
abbrev pub on_handle : Option Handle → (Handle → Applied Store) → Applied Store
on_handle none k = no_variable
on_handle (some h) k = k h

-- The store with the objects that an operation leaves, and new handles.
abbrev pub with_objects : List Handle → Store → Applied (ℕ → Option ℕ) → Applied Store
with_objects hs s r =
    on_applied r (λ objects. returned (record s { object = objects; handles = hs }))

-- `new Inner(...)` into a new variable
abbrev pub make : Store → Store
make s = record {
  object = set_object s.next (some 1) s.object;
  next = suc s.next;
  handles = some s.next ∷ s.handles;
}

-- `Rc(const Rc& other)` from a variable with the handle `h`
abbrev pub copy : Handle → Store → Applied Store
copy h s = with_objects (h ∷ s.handles) s (share h s.object)

-- `Rc(Rc&& other)` from the variable `i`
abbrev pub move : ℕ → Handle → Store → Store
move i h s = record s { handles = h ∷ set s.handles i none }

-- `~Rc()` of the variable `i`
abbrev pub destroy : ℕ → Handle → Store → Applied Store
destroy i h s = with_objects (set s.handles i none) s (give_up h s.object)

-- `operator=(const Rc& other)` of the variable `i` with the handle `h`, for another variable with `g`
abbrev pub assign_copy : ℕ → Handle → Handle → Store → Applied Store
assign_copy i h g s = with_objects (set s.handles i g) s (on_applied (give_up h s.object) (share g))

-- `operator=(Rc&& other)`, where `other` is the variable `j`
abbrev pub assign_move : ℕ → ℕ → Handle → Handle → Store → Applied Store
assign_move i j h g s = with_objects (set (set s.handles i g) j none) s (give_up h s.object)

pub data Op : Type 0 where
  making : Op
  copying moving destroying : (i : ℕ) → Op
  assigning assigning_moved : (i j : ℕ) → Op

-- An operation on the variables with the given numbers.
pub apply : Op → Store → Applied Store
apply making s = returned (make s)
apply (copying i) s = on_handle (handle_at i s) (λ h. copy h s)
apply (moving i) s = on_handle (handle_at i s) (λ h. returned (move i h s))
apply (destroying i) s = on_handle (handle_at i s) (λ h. destroy i h s)
apply (assigning i j) s =
    on_handle (handle_at i s)
      λ h. on_handle (handle_at j s) (λ g. if i == j then returned s else assign_copy i h g s)
apply (assigning_moved i j) s =
    on_handle (handle_at i s)
      λ h. on_handle (handle_at j s) (λ g. if i == j then returned s else assign_move i j h g s)
