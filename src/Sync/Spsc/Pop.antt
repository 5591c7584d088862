-- ===== src/Sync/Spsc/Pop.antt =====
-- The consumer's end against the list, and a pop that pushes interrupt.
use net_cpp.Prelude.{
  ℕ, zero, suc, ◌+◌, ◌-◌, ◌%◌, ◌^◌, ◌<◌, bit_and, ◌≡◌, refl, sym, ap, ◌∙◌, ◌≢◌, inl, inr, Bool,
  true, false, none, some, List, [], ◌∷◌, ◌++◌, append-nil, append_assoc, arith, ◌==◌, ==_iff,
  Bool-cases, length, get_elem?,
}
use mathlib.Core.Bool.{true≢false}
use net_cpp.Prelude.Lists.{get_elem?-lt}
use mathlib.Core.Path.{subst}
use native.Mathlib.Decide.{dec_lt}
use native.Mathlib.Nat.{zero-mod, one-le-pow}
use net_cpp.Prelude.Cyclic.{apart}
use net_cpp.Sync.Spsc.{
  Storage, set_slot, construct, refresh_head, push, advance_head, pop_begin, pop_end, pop,
}
use net_cpp.Sync.Spsc.Queue.{Holds, next_ctl, push_room, push_full}

-- What the producer pushes, one value after the other.
abbrev pub pushes : {A : Type 0} → List A → Storage A → Storage A
pushes [] q = q
pushes (v ∷ vs) q = pushes vs (push v q).1

module _ {A : Type 0} (k b : ℕ) where
  pub refresh_head-Holds :
      (q : Storage A) (held xs : List A) → Holds k b q held xs → Holds k b (refresh_head q) held xs
  refresh_head-Holds q held xs h = record {
    seen_head = h.seen_head;
    seen_tail = b + length held + length xs;
    mask = h.mask;
    head = h.head;
    tail = h.tail;
    head_local = h.tail;
    tail_local = h.tail_local;
    ahead = omega arith;
    behind = omega arith;
    passed = h.passed;
    room = h.room;
    one = h.one;
    slots = h.slots;
  }

  -- If the head differs from the cached tail, there is a value.
  pub seen_later :
      (q : Storage A) (xs : List A) (h : Holds k b q [] xs)
      → (q.head.ctl == q.head.local) ≡ false
      → b < h.seen_tail
  seen_later q xs h e = elim (dec_lt b h.seen_tail) [
    | yes p ↦ p
    | no p ↦
        let same : q.head.ctl ≡ q.head.local =
          h.head
          ∙ ap (λ i. i % 2 ^ k) (let e' : b + 0 ≡ h.seen_tail = omega (arith, h.ahead) in e')
          ∙ sym h.head_local in
        absurd (true≢false (sym ((==_iff _ _).1 same) ∙ e))
  ]

  pub advance_head-Holds :
      (q : Storage A) (x : A) (xs : List A)
      → (h : Holds k b q [] (x ∷ xs)) → b < h.seen_tail
      → Holds k b (advance_head q) (x ∷ []) xs
  advance_head-Holds q x xs h l = record {
    seen_head = h.seen_head;
    seen_tail = h.seen_tail;
    mask = h.mask;
    head =
        ap (λ c. bit_and (c + 1) q.size_mask) h.head
        ∙ next_ctl k b q (b + 0) h.mask
        ∙ ap (λ i. i % 2 ^ k) (let e : b + 0 + 1 ≡ b + 1 = omega arith in e);
    tail =
        h.tail
        ∙ ap (λ i. i % 2 ^ k)
            (let e : b + 0 + suc (length xs) ≡ b + 1 + length xs = omega arith in e);
    head_local = h.head_local;
    tail_local = h.tail_local;
    ahead = omega arith;
    behind = omega (arith, h.behind);
    passed = omega (arith, h.passed);
    room = omega (arith, h.room);
    one = omega arith;
    slots = h.slots;
  }

  popped_slot :
      (q : Storage A) (x a : A) (xs : List A) (j : ℕ)
      → Holds k b q (x ∷ []) xs
      → get_elem? xs j ≡ some a
      → set_slot (b % 2 ^ k) none q.buffer ((suc b + j) % 2 ^ k) ≡ some a
  popped_slot q x a xs j h e =
      let below = get_elem?-lt xs j a e in
      let ne : (suc b + j) % 2 ^ k ≢ b % 2 ^ k =
        λ g. apart b (suc b + j) (2 ^ k) (omega arith) (omega (arith, h.room, h.passed)) (sym g) in
      let test : ((suc b + j) % 2 ^ k == b % 2 ^ k) ≡ false = ground arith in
      rw (test, set_slot)
        (ap (λ i. q.buffer (i % 2 ^ k)) (let e' : suc b + j ≡ b + suc j = omega arith in e')
          ∙ h.slots (suc j) a e)

  -- The second part of a pop moves out the value that the first has passed.
  pub pop_end-Holds :
      (q : Storage A) (x : A) (xs : List A)
      → Holds k b q (x ∷ []) xs
      → (q' : Storage A) × (pop_end (b % 2 ^ k) q ≡ (some x, q')) × Holds k (suc b) q' [] xs
  unfolding pop_end
  pop_end-Holds q x xs h = (
    record q { buffer = set_slot (b % 2 ^ k) none q.buffer },
    ap (λ o. (o, record q { buffer = set_slot (b % 2 ^ k) none q.buffer }))
        (ap (λ i. q.buffer (i % 2 ^ k)) (let e : b ≡ b + 0 = omega arith in e) ∙ h.slots 0 x refl),
    record {
      seen_head = h.seen_head;
      seen_tail = h.seen_tail;
      mask = h.mask;
      head = h.head ∙ ap (λ i. i % 2 ^ k) (let e : b + 1 ≡ suc b + 0 = omega arith in e);
      tail =
          h.tail
          ∙ ap (λ i. i % 2 ^ k)
              (let e : b + 1 + length xs ≡ suc b + 0 + length xs = omega arith in e);
      head_local = h.head_local;
      tail_local = h.tail_local;
      ahead = omega (arith, h.ahead);
      behind = omega (arith, h.behind);
      passed = omega (arith, h.passed);
      room = omega (arith, h.room);
      one = omega arith;
      slots = λ j a e. popped_slot q x a xs j h e;
    },
  )

  -- The first part of a pop finds a value and passes it.
  pop_begin_found :
      (q : Storage A) (x : A) (xs : List A)
      → Holds k b q [] (x ∷ xs)
      → (q' : Storage A) × (pop_begin q ≡ (true, q')) × Holds k b q' (x ∷ []) xs
  unfolding pop_begin
  pop_begin_found q x xs h = elim (Bool-cases (q.head.ctl == q.head.local)) [
    | inr e ↦ (_, rw e refl, advance_head-Holds q x xs h (seen_later q (x ∷ xs) h e))
    | inl e ↦
        let fresh = refresh_head-Holds q [] (x ∷ xs) h in
        let apart_ends : q.head.ctl ≢ q.tail.ctl = λ g.
          apart (b + 0) (b + 0 + suc (length xs)) (2 ^ k) (omega arith)
            (omega (arith, h.room, h.passed)) (sym h.head ∙ g ∙ h.tail) in
        let ne : (q.head.ctl == q.tail.ctl) ≡ false = ground arith in
        (
          _,
          rw (e, ne) refl,
          advance_head-Holds (refresh_head q) x xs fresh
              (seen_later (refresh_head q) (x ∷ xs) fresh ne),
        )
  ]

  -- From a queue that holds values a pop takes the first one, and the others stay.
  pub pop_first :
      (q : Storage A) (x : A) (xs : List A)
      → Holds k b q [] (x ∷ xs)
      → (q' : Storage A) × (pop q ≡ (some x, q')) × Holds k (suc b) q' [] xs
  unfolding pop
  pop_first q x xs h =
      let (q1, e1, h1) = pop_begin_found q x xs h in
      let (q2, e2, h2) = pop_end-Holds q1 x xs h1 in
      let place : q.head.ctl ≡ b % 2 ^ k =
        h.head ∙ ap (λ i. i % 2 ^ k) (let e : b + 0 ≡ b = omega arith in e) in
      (q2, rw e1 (rw place e2), h2)

  -- From an empty queue a pop takes nothing, and the queue stays empty.
  pub pop_empty :
      (q : Storage A)
      → Holds k b q [] []
      → (q' : Storage A) × (pop q ≡ (none, q')) × Holds k b q' [] []
  unfolding pop pop_begin
  pop_empty q h =
      let cached : (q.head.ctl == q.head.local) ≡ true = (==_iff _ _).1 (
        h.head
        ∙ ap (λ i. i % 2 ^ k) (let e : b + 0 ≡ h.seen_tail = omega (arith, h.ahead, h.behind) in e)
        ∙ sym h.head_local) in
      let ends : (q.head.ctl == q.tail.ctl) ≡ true = (==_iff _ _).1 (
        h.head ∙ ap (λ i. i % 2 ^ k) (let e : b + 0 ≡ b + 0 + 0 = omega arith in e) ∙ sym h.tail) in
      (refresh_head q, rw (cached, ends), refresh_head-Holds q [] [] h)

  push-Holds :
      (q : Storage A) (held xs : List A) (v : A)
      → Holds k b q held xs
      → (more : List A) × Holds k b (push v q).1 held (xs ++ more)
  push-Holds q held xs v h = elim (dec_lt (length xs + 1) (2 ^ k)) [
    | yes l ↦
        let (q', e, h') = push_room k b q held xs v h l in
        (v ∷ [], subst (λ (r : Bool × Storage A). Holds k b r.1 held (xs ++ v ∷ [])) (sym e) h')
    | no l ↦
        let (q', e, h') = push_full k b q held xs v h (omega (arith, h.room, h.passed)) in
        (
          [],
          subst (λ (r : Bool × Storage A). Holds k b r.1 held (xs ++ [])) (sym e)
              (subst (Holds k b q' held) (sym (append-nil xs)) h'),
        )
  ]

  pushes-Holds :
      (vs : List A) (q : Storage A) (held xs : List A)
      → Holds k b q held xs
      → (more : List A) × Holds k b (pushes vs q) held (xs ++ more)
  pushes-Holds [] q held xs h = ([], subst (Holds k b q held) (sym (append-nil xs)) h)
  pushes-Holds (v ∷ vs) q held xs h =
      let (m1, h1) = push-Holds q held xs v h in
      let (m2, h2) = pushes-Holds vs (push v q).1 held (xs ++ m1) h1 in
      (m1 ++ m2, subst (Holds k b _ held) (append_assoc xs m1 m2) h2)

  -- A pop publishes the new head before it moves its value out. Whatever the producer pushes in
  -- between, full queue or not, the slot is not written to: the pop takes the first value, and
  -- the other values are left, with any new ones behind them.
  pub pop_interrupted :
      (q : Storage A) (x : A) (xs vs : List A)
      → Holds k b q [] (x ∷ xs)
      → (q1 q2 : Storage A) × (more : List A) × (pop_begin q ≡ (true, q1))
        × (pop_end q.head.ctl (pushes vs q1) ≡ (some x, q2))
        × Holds k (suc b) q2 [] (xs ++ more)
  pop_interrupted q x xs vs h =
      let (q1, e1, h1) = pop_begin_found q x xs h in
      let (more, hm) = pushes-Holds vs q1 (x ∷ []) xs h1 in
      let (q2, e2, h2) = pop_end-Holds (pushes vs q1) x (xs ++ more) hm in
      let place : q.head.ctl ≡ b % 2 ^ k =
        h.head ∙ ap (λ i. i % 2 ^ k) (let e : b + 0 ≡ b = omega arith in e) in
      (q1, q2, more, e1, ap (λ i. pop_end i (pushes vs q1)) place ∙ e2, h2)

-- A new queue is empty.
pub construct-Holds : {A : Type 0} (k : ℕ) → Holds k 0 (construct {A = A} (2 ^ k - 1)) [] []
construct-Holds k =
    let start : 0 ≡ 0 % 2 ^ k = sym (zero-mod (2 ^ k)) in
    record {
      seen_head = 0;
      seen_tail = 0;
      mask = refl;
      head = start;
      tail = start;
      head_local = start;
      tail_local = start;
      ahead = omega arith;
      behind = omega arith;
      passed = omega arith;
      room = omega (arith, one-le-pow k 2 (omega arith));
      one = omega arith;
      slots = λ j a e. absurd (no_element j e);
    }
  where
    no_element : {A : Type 0} {a : A} (j : ℕ) → get_elem? {A = A} [] j ≡ some a → ⊥
    no_element zero e = cc
    no_element (suc j) e = cc
