-- ===== src/Sync/Spsc/Queue.antt =====
-- The queue against a bounded list.
use net_cpp.Prelude.{
  ℕ, zero, suc, ◌+◌, ◌-◌, ◌%◌, ◌^◌, ◌≤◌, ◌<◌, bit_and, ◌≡◌, refl, sym, ap, ◌∙◌, ◌≢◌, ◌⊎◌, inl, inr,
  true, false, Option, none, some, List, [], ◌∷◌, ◌++◌, append_assoc, arith, ◌==◌, some_inj, ==_iff,
  Bool-cases, length, get_elem?, length-append,
}
use net_cpp.Prelude.Bits.{bit_and-mask}
use mathlib.Core.Bool.{true≢false}
use mathlib.Core.Path.{subst}
use native.Mathlib.Decide.{dec_lt}
use net_cpp.Prelude.Cyclic.{apart, next_place, full_round}
use net_cpp.Sync.Spsc.{Storage, set_slot, put_value, refresh_tail, push}

-- The storage holds `xs`, from the head on, and just before the head the values `held`, which a pop
-- has passed but not moved out yet; `b` values have been moved out before. The counts `b`, `seen_head`
-- and `seen_tail` run on where the places start again.
pub record Holds {A : Type 0} (k b : ℕ) (q : Storage A) (held xs : List A) : Type 0 where
  pub seen_head : ℕ  -- the head that the producer has cached
  pub seen_tail : ℕ  -- the tail that the consumer has cached
  pub mask : q.size_mask ≡ 2 ^ k - 1
  pub head : q.head.ctl ≡ (b + length held) % 2 ^ k
  pub tail : q.tail.ctl ≡ (b + length held + length xs) % 2 ^ k
  pub head_local : q.head.local ≡ seen_tail % 2 ^ k
  pub tail_local : q.tail.local ≡ seen_head % 2 ^ k
  pub ahead : b + length held ≤ seen_tail
  pub behind : seen_tail ≤ b + length held + length xs
  pub passed : seen_head ≤ b + length held
  pub room : b + length held + length xs < seen_head + 2 ^ k
  pub one : length held ≤ 1
  pub slots :
      (j : ℕ) (a : A) → get_elem? (held ++ xs) j ≡ some a → q.buffer ((b + j) % 2 ^ k) ≡ some a

module _ {A : Type 0} (k b : ℕ) where
  -- The next place of an end.
  pub next_ctl :
      (q : Storage A) (c : ℕ)
      → q.size_mask ≡ 2 ^ k - 1
      → bit_and (c % 2 ^ k + 1) q.size_mask ≡ (c + 1) % 2 ^ k
  next_ctl q c e = rw e (bit_and-mask k (c % 2 ^ k + 1) ∙ next_place c (2 ^ k))

  refresh_tail-Holds :
      (q : Storage A) (held xs : List A)
      → Holds k b q held xs
      → length xs < 2 ^ k
      → Holds k b (refresh_tail q) held xs
  refresh_tail-Holds q held xs h l = record {
    seen_head = b + length held;
    seen_tail = h.seen_tail;
    mask = h.mask;
    head = h.head;
    tail = h.tail;
    head_local = h.head_local;
    tail_local = h.head;
    ahead = h.ahead;
    behind = h.behind;
    passed = omega arith;
    room = omega arith;
    one = h.one;
    slots = h.slots;
  }

  snoc_cases :
      (ys : List A) (v a : A) (j : ℕ)
      → get_elem? (ys ++ v ∷ []) j ≡ some a
      → ((j < length ys) × (get_elem? ys j ≡ some a)) ⊎ ((j ≡ length ys) × (v ≡ a))
  snoc_cases [] v a zero e = inr (refl, some_inj e)
  snoc_cases [] v a (suc j) e = absurd (none_some e)
    where
      none_some : ◌≡◌ {A = Option A} none (some a) → ⊥
      none_some g = cc
  snoc_cases (y ∷ ys) v a zero e = inl (omega arith, e)
  snoc_cases (y ∷ ys) v a (suc j) e = elim (snoc_cases ys v a j e) [
    | inl (l, f) ↦ inl (omega arith, f)
    | inr (l, f) ↦ inr (omega arith, f)
  ]

  -- The slot at the tail is none of those that hold a value.
  put_slot :
      (q : Storage A) (ys : List A) (v a : A) (base j : ℕ)
      → q.tail.ctl ≡ (base + length ys) % 2 ^ k
      → length ys < 2 ^ k
      → ((i : ℕ) (b : A) → get_elem? ys i ≡ some b → q.buffer ((base + i) % 2 ^ k) ≡ some b)
      → get_elem? (ys ++ v ∷ []) j ≡ some a
      → set_slot q.tail.ctl (some v) q.buffer ((base + j) % 2 ^ k) ≡ some a
  put_slot q ys v a base j t l old e = elim (snoc_cases ys v a j e) [
    | inl (below, f) ↦
        let ne : (base + j) % 2 ^ k ≢ q.tail.ctl =
          λ g. apart (base + j) (base + length ys) (2 ^ k) (omega arith) (omega arith) (g ∙ t) in
        let test : ((base + j) % 2 ^ k == q.tail.ctl) ≡ false = ground arith in
        rw (test, set_slot) (old j a f)
    | inr (here, f) ↦
        let same : ((base + j) % 2 ^ k == q.tail.ctl) ≡ true =
          (==_iff _ _).1 (ap (λ i. (base + i) % 2 ^ k) here ∙ sym t) in
        rw (same, set_slot) (ap some f)
  ]

  put_value-Holds :
      (q : Storage A) (held xs : List A) (v : A) (h : Holds k b q held xs)
      → b + length held + length xs + 1 < h.seen_head + 2 ^ k
      → Holds k b (put_value v ((b + length held + length xs + 1) % 2 ^ k) q) held (xs ++ v ∷ [])
  put_value-Holds q held xs v h l = record {
    seen_head = h.seen_head;
    seen_tail = h.seen_tail;
    mask = h.mask;
    head = h.head;
    tail =
        ap (λ i. i % 2 ^ k)
          (let e : b + length held + length xs + 1 ≡ b + length held + length (xs ++ v ∷ []) =
              omega (arith, length-append xs (v ∷ [])) in
            e);
    head_local = h.head_local;
    tail_local = h.tail_local;
    ahead = h.ahead;
    behind = omega (arith, length-append xs (v ∷ []), h.behind);
    passed = h.passed;
    room = omega (arith, length-append xs (v ∷ []));
    one = h.one;
    slots = λ j a e.
        put_slot q (held ++ xs) v a b j
          (h.tail
            ∙ ap (λ i. i % 2 ^ k)
                (let e' : b + length held + length xs ≡ b + length (held ++ xs) =
                    omega (arith, length-append held xs) in
                  e'))
          (omega (arith, length-append held xs, h.one, h.passed)) h.slots
          (ap (λ l. get_elem? l j) (append_assoc held xs (v ∷ [])) ∙ e);
  }

  next_tail :
      (q : Storage A) (held xs : List A) (h : Holds k b q held xs)
      → bit_and (q.tail.ctl + 1) q.size_mask ≡ (b + length held + length xs + 1) % 2 ^ k
  next_tail q held xs h =
      ap (λ c. bit_and (c + 1) q.size_mask) h.tail ∙ next_ctl q (b + length held + length xs) h.mask

  -- The cached head tells full from free only in one direction: if the next place differs from it,
  -- there is room.
  cached_room :
      (q : Storage A) (held xs : List A) (h : Holds k b q held xs)
      → (bit_and (q.tail.ctl + 1) q.size_mask == q.tail.local) ≡ false
      → b + length held + length xs + 1 < h.seen_head + 2 ^ k
  cached_room q held xs h e =
      elim (dec_lt (b + length held + length xs + 1) (h.seen_head + 2 ^ k)) [
        | yes p ↦ p
        | no p ↦
            let reached : b + length held + length xs + 1 ≡ h.seen_head + 2 ^ k =
              omega (arith, h.room) in
            let same : bit_and (q.tail.ctl + 1) q.size_mask ≡ q.tail.local =
              next_tail q held xs h
              ∙ ap (λ i. i % 2 ^ k) reached
              ∙ full_round h.seen_head (2 ^ k)
              ∙ sym h.tail_local in
            absurd (true≢false (sym ((==_iff _ _).1 same) ∙ e))
      ]

  head_free :
      (q : Storage A) (held xs : List A) (h : Holds k b q held xs)
      → length xs + 1 < 2 ^ k
      → (bit_and (q.tail.ctl + 1) q.size_mask == q.head.ctl) ≡ false
  head_free q held xs h l =
      let ne : bit_and (q.tail.ctl + 1) q.size_mask ≢ q.head.ctl = λ g.
        apart (b + length held) (b + length held + length xs + 1) (2 ^ k) (omega arith)
          (omega arith) (sym h.head ∙ sym g ∙ next_tail q held xs h) in
      ground arith

  -- While fewer values than the mask stand in the queue, a push succeeds and appends its value, also
  -- while the consumer stands in the middle of a pop.
  pub push_room :
      (q : Storage A) (held xs : List A) (v : A)
      → Holds k b q held xs
      → length xs + 1 < 2 ^ k
      → (q' : Storage A) × (push v q ≡ (true, q')) × Holds k b q' held (xs ++ v ∷ [])
  unfolding push
  push_room q held xs v h l =
      elim (Bool-cases (bit_and (q.tail.ctl + 1) q.size_mask == q.tail.local)) [
        | inr e ↦ (
          _,
          rw e refl,
          subst (λ n. Holds k b (put_value v n q) held (xs ++ v ∷ [])) (sym (next_tail q held xs h))
              (put_value-Holds q held xs v h (cached_room q held xs h e)),
        )
        | inl e ↦
            let fresh = refresh_tail-Holds q held xs h (omega arith) in
            let free = head_free q held xs h l in
            (
              _,
              rw (e, free) refl,
              subst (λ n. Holds k b (put_value v n (refresh_tail q)) held (xs ++ v ∷ []))
                  (sym (next_tail (refresh_tail q) held xs fresh))
                  (put_value-Holds (refresh_tail q) held xs v fresh
                    (cached_room (refresh_tail q) held xs fresh free)),
            )
      ]

  -- With as many values as the mask a push fails and changes nothing that the queue holds.
  pub push_full :
      (q : Storage A) (held xs : List A) (v : A)
      → Holds k b q held xs
      → length xs + 1 ≡ 2 ^ k
      → (q' : Storage A) × (push v q ≡ (false, q')) × Holds k b q' held xs
  unfolding push
  push_full q held xs v h l =
      let fresh = refresh_tail-Holds q held xs h (omega arith) in
      let all : b + length held + length xs + 1 ≡ b + length held + 2 ^ k = omega arith in
      let at_head : (bit_and (q.tail.ctl + 1) q.size_mask == q.head.ctl) ≡ true = (==_iff _ _).1 (
        next_tail q held xs h
        ∙ ap (λ i. i % 2 ^ k) all
        ∙ full_round (b + length held) (2 ^ k)
        ∙ sym h.head) in
      elim (Bool-cases (bit_and (q.tail.ctl + 1) q.size_mask == q.tail.local)) [
        | inl e ↦ (_, rw (e, at_head) refl, fresh)
        | inr e ↦ absurd (omega (arith, cached_room q held xs h e, h.passed))
      ]
