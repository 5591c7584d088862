-- ===== src/Coro/Channel/Wakeup.antt =====
-- What an await gives, and that no wake-up is missed between operations.
use net_cpp.Prelude.{
  ℕ, suc, ◌+◌, ◌%◌, ◌^◌, ◌<◌, bit_and, ◌≡◌, refl, sym, ap, ◌∙◌, ◌≢◌, inl, inr, Bool, true, false,
  Option, none, some, List, [], ◌∷◌, arith, ◌==◌, if◌then◌else◌, ==_iff, Bool-cases, length, set,
}
use mathlib.Core.Path.{subst}
use net_cpp.Prelude.Cyclic.{apart}
use net_cpp.Sync.Spsc.{Storage, set_slot, refresh_head, advance_head, pop_end}
use net_cpp.Sync.Spsc
use net_cpp.Sync.Spsc.Queue.{Holds, push_room}
use net_cpp.Sync.Spsc.Pop.{refresh_head-Holds, seen_later, advance_head-Holds, pop_end-Holds}
use net_cpp.Coro.Channel.{
  Channel, suspended, resumed, with_queue, await_ready, await_suspend, take_value, await_resume,
  resume_with, await, notify, push,
}

module _ {A : Type 0} (k b : ℕ) where
  ends_apart :
      (q : Storage A) (x : A) (xs : List A)
      → Holds k b q [] (x ∷ xs)
      → (q.head.ctl == q.tail.ctl) ≡ false
  ends_apart q x xs h =
      let ne : q.head.ctl ≢ q.tail.ctl = λ g.
        apart (b + 0) (b + 0 + suc (length xs)) (2 ^ k) (omega arith)
          (omega (arith, h.room, h.passed)) (sym h.head ∙ g ∙ h.tail) in
      ground arith

  take_value-Holds :
      (q : Storage A) (x : A) (xs : List A) (h : Holds k b q [] (x ∷ xs))
      → b < h.seen_tail
      → (q.buffer q.head.ctl ≡ some x) × Holds k (suc b) (take_value q) [] xs
  unfolding pop_end
  take_value-Holds q x xs h l =
      let (q', e, h2) =
        pop_end-Holds k b (advance_head q) x xs (advance_head-Holds k b q x xs h l) in
      let place : b % 2 ^ k ≡ q.head.ctl =
        ap (λ i. i % 2 ^ k) (let e' : b ≡ b + 0 = omega arith in e') ∙ sym h.head in
      let same : q' ≡ take_value q =
        sym (ap (λ (r : Option A × Storage A). r.1) e)
        ∙ ap (λ i. (pop_end i (advance_head q)).1) place in
      (ap q.buffer h.head ∙ h.slots 0 x refl, subst (λ r. Holds k (suc b) r [] xs) same h2)

  await_resume_value :
      (c : Channel A) (x : A) (xs : List A) (h : Holds k b c.queue [] (x ∷ xs))
      → b < h.seen_tail
      → (await_resume c ≡ (some x, with_queue (take_value c.queue) c))
        × Holds k (suc b) (take_value c.queue) [] xs
  unfolding await_resume
  await_resume_value c x xs h l =
      let apart_ends = ends_apart c.queue x xs h in
      let (first, h') = take_value-Holds c.queue x xs h l in
      (rw apart_ends (ap (λ o. (o, with_queue (take_value c.queue) c)) first), h')

  -- An await on a channel that holds values does not suspend: it takes the first value.
  pub await_value :
      (c : Channel A) (x : A) (xs : List A)
      → Holds k b c.queue [] (x ∷ xs)
      → (c' : Channel A) × (await c ≡ (resumed (some x), c'))
        × Holds k (suc b) c'.queue [] xs
        × (c'.callback ≡ c.callback)
        × (c'.closed ≡ c.closed)
  unfolding await await_ready
  await_value c x xs h = elim (Bool-cases (c.queue.head.ctl == c.queue.head.local)) [
    | inr e ↦
        let (r, h') = await_resume_value c x xs h (seen_later k b c.queue (x ∷ xs) h e) in
        (with_queue (take_value c.queue) c, rw e (ap resume_with r), h', refl, refl)
    | inl e ↦
        let fresh = refresh_head-Holds k b c.queue [] (x ∷ xs) h in
        let apart_ends = ends_apart c.queue x xs h in
        let c1 = with_queue (refresh_head c.queue) c in
        let (r, h') =
          await_resume_value c1 x xs fresh
            (seen_later k b (refresh_head c.queue) (x ∷ xs) fresh apart_ends) in
        (with_queue (take_value c1.queue) c1, rw (e, apart_ends) (ap resume_with r), h', refl, refl)
  ]

  empty_ends :
      (q : Storage A)
      → Holds k b q [] []
      → ((q.head.ctl == q.head.local) ≡ true) × ((q.head.ctl == q.tail.ctl) ≡ true)
  empty_ends q h = (
    (==_iff _ _).1 (
        h.head
        ∙ ap (λ i. i % 2 ^ k) (let e : b + 0 ≡ h.seen_tail = omega (arith, h.ahead, h.behind) in e)
        ∙ sym h.head_local),
    (==_iff _ _).1
        (h.head ∙ ap (λ i. i % 2 ^ k) (let e : b + 0 ≡ b + 0 + 0 = omega arith in e) ∙ sym h.tail),
  )

  -- An await on an empty channel reports the end if the channel is closed; otherwise it suspends, and
  -- the callback is set.
  pub await_empty :
      (c : Channel A)
      → Holds k b c.queue [] []
      → (c' : Channel A) × (await c ≡ ((if c.closed then resumed none else suspended), c'))
        × Holds k b c'.queue [] []
        × (c'.callback ≡ (if c.closed then c.callback else true))
  unfolding await await_ready await_suspend await_resume
  await_empty c h =
      let (local, ends) = empty_ends c.queue h in
      let fresh = refresh_head-Holds k b c.queue [] [] h in
      let c1 = with_queue (refresh_head c.queue) c in
      elim (Bool-cases c.closed) [
        | inl e ↦ (c1, rw (local, ends, e) (rw ends refl), fresh, rw e refl)
        | inr e ↦
            (record c1 { callback = true }, rw (local, ends, e) (rw ends refl), fresh, rw e refl)
      ]

  -- The push of an open channel is that of its queue, and a notification if that succeeds.
  abbrev after_push : Channel A → Bool × Storage A → Bool × (Bool × Channel A)
  after_push c (true, q) = (true, notify (with_queue q c))
  after_push c (false, q) = (false, (false, with_queue q c))

  push-queue :
      (v : A) (c : Channel A) → c.closed ≡ false → push v c ≡ after_push c (Spsc.push v c.queue)
  unfolding push Spsc.push
  push-queue v c opened =
      let q = c.queue in
      let n_tail : ℕ = bit_and (q.tail.ctl + 1) q.size_mask in
      elim (Bool-cases (n_tail == q.tail.local)) [
        | inr e ↦ rw (opened, e) refl
        | inl e ↦ elim (Bool-cases (n_tail == q.head.ctl)) [
          | inr f ↦ rw (opened, e, f) refl
          | inl f ↦ rw (opened, e, f) refl
        ]
      ]

  -- A push into an open and empty channel that has room for a value, while the consumer is suspended,
  -- succeeds and wakes it, and the woken consumer gets the value.
  pub push_wakes :
      (c : Channel A) (v : A)
      → Holds k b c.queue [] []
      → c.closed ≡ false
      → c.callback ≡ true
      → 1 < 2 ^ k
      → (c' c'' : Channel A) × (push v c ≡ (true, (true, c')))
        × (await_resume c' ≡ (some v, c''))
        × Holds k (suc b) c''.queue [] []
        × (c''.callback ≡ false)
  push_wakes c v h opened set room =
      let (q', e, h') = push_room k b c.queue [] [] v h (omega arith) in
      let fresh = refresh_head-Holds k b q' [] (v ∷ []) h' in
      let c' = record c { callback = false; queue = refresh_head q' } in
      let later = seen_later k b (refresh_head q') (v ∷ []) fresh (ends_apart q' v [] h') in
      let (r, h2) = await_resume_value c' v [] fresh later in
      (
        c',
        with_queue (take_value c'.queue) c',
        push-queue v c opened ∙ ap (after_push c) e ∙ rw set refl,
        r,
        h2,
        refl,
      )
