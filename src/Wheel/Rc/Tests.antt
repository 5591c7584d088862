-- ===== src/Wheel/Rc/Tests.antt =====
-- Two variables that share an object.
use net_cpp.Prelude.{◌≡◌, refl, none, some, [], ◌∷◌}
use net_cpp.Wheel.Rc.{
  Store, returned, null_pointer, use_after_free, set_object, making, copying, destroying, assigning,
  apply,
}
use net_cpp.Wheel.Rc.Counts.{Counted, Intact, CopiesNull, IsMissing, apply-Intact}

abbrev empty_store : Store
empty_store = record { object = λ a. none; next = 0; handles = [] }

empty-Counted : Counted empty_store
empty-Counted = record { exact = λ a. refl; fresh = λ a l. refl }

abbrev one_object : Store
one_object = record { object = set_object 0 (some 1) (λ a. none); next = 1; handles = some 0 ∷ [] }

one-Counted : Counted one_object
unfolding apply
one-Counted = apply-Intact making empty_store empty-Counted

abbrev shared : Store
shared = record {
  object = set_object 0 (some 2) (set_object 0 (some 1) (λ a. none));
  next = 1;
  handles = some 0 ∷ some 0 ∷ [];
}

shared_test : apply (copying 0) one_object ≡ returned shared
unfolding apply
shared_test = refl

shared-Counted : Counted shared
unfolding apply
shared-Counted = apply-Intact (copying 0) one_object one-Counted

-- One of the two variables goes.
apply-Intact_example :
    Intact
      (CopiesNull (destroying 0) shared)
      (IsMissing (destroying 0) shared)
      (apply (destroying 0) shared)
apply-Intact_example = apply-Intact (destroying 0) shared shared-Counted

-- The destruction of the only variable deletes the object.
abbrev deleted : Store
deleted = record {
  object = set_object 0 none (set_object 0 (some 1) (λ a. none));
  next = 1;
  handles = none ∷ [];
}

delete_test : apply (destroying 0) one_object ≡ returned deleted
unfolding apply
delete_test = refl

-- A copy of a variable that was moved from goes through a null pointer.
null_copy_test :
    apply (copying 0) (record one_object { handles = none ∷ some 0 ∷ [] }) ≡ null_pointer
unfolding apply
null_copy_test = refl

-- With counts that are not exact an assignment goes through a pointer to a deleted object.
inexact_test :
    apply (assigning 0 1) (record one_object { handles = some 0 ∷ some 0 ∷ [] }) ≡ use_after_free
unfolding apply
inexact_test = refl
