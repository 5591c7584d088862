-- ===== src/Asio/Io/Datagrams.antt =====
-- A send to an address is a send that never sees a call without progress.
use net_cpp.Prelude.{
  ℕ, ◌+◌, ◌-◌, ◌<◌, min, ◌≡◌, refl, ap, ◌∙◌, inl, inr, true, false, Option, none, some, List, [],
  ◌∷◌, arith, ltb, ◌==◌, if◌then◌else◌, lt→ltb, Bool-cases, length, take, drop, Str,
}
use net_cpp.Asio.Io.{
  Turn, room, blocked, fault, Sent, ends, then_wire, send_from, send, sendto_from, sendto,
}

-- The turns without the calls that move nothing.
abbrev pub moving : List Turn → List Turn
moving [] = []
moving (room k ∷ ts) = if k == 0 then moving ts else room k ∷ moving ts
moving (t ∷ ts) = t ∷ moving ts

abbrev pub with_moving : Option Sent → Option Sent
with_moving none = none
with_moving (some s) = some (record s { rest = moving s.rest })

with_moving-then_wire :
    (b : Str) (r : Option Sent) → with_moving (then_wire b r) ≡ then_wire b (with_moving r)
unfolding then_wire
with_moving-then_wire b none = refl
with_moving-then_wire b (some s) = refl

then_wire-nil : (r : Option Sent) → then_wire [] r ≡ r
unfolding then_wire
then_wire-nil none = refl
then_wire-nil (some s) = refl

sendto_agrees :
    (buf : Str) (ts : List Turn) (n : ℕ)
    → n < length buf
    → with_moving (sendto_from ts buf n) ≡ send_from (moving ts) buf n
unfolding sendto_from send_from ends
sendto_agrees buf [] n h = refl
sendto_agrees buf (room k ∷ ts) n h = elim (Bool-cases (k == 0)) [
  | inl e ↦
      let none_moved : min k (length buf - n) ≡ 0 = ground arith in
      let same : n + 0 ≡ n = omega arith in
      let more : ltb 0 (length buf - n) ≡ true = ground arith in
      rw (e, none_moved, same, more)
        (ap with_moving (then_wire-nil (sendto_from ts buf n)) ∙ sendto_agrees buf ts n h)
  | inr e ↦
      let m = min k (length buf - n) in
      let moved : (m == 0) ≡ false = ground arith in
      elim (Bool-cases (ltb (n + m) (length buf))) [
        | inl f ↦
            let more : ltb 0 (length buf - (n + m)) ≡ true = ground arith in
            rw e (
              rw (moved, f, more)
                (with_moving-then_wire (take m (drop n buf)) _
                  ∙ ap (then_wire (take m (drop n buf)))
                      (sendto_agrees buf ts (n + m) (ground arith))))
        | inr f ↦
            let last : ltb 0 (length buf - (n + m)) ≡ false = ground arith in
            rw e (rw (moved, f, last) (with_moving-then_wire (take m (drop n buf)) _))
      ]
]
sendto_agrees buf (blocked true ∷ ts) n h =
    let more : ltb 0 (length buf - n) ≡ true = ground arith in
    rw (more, lt→ltb n (length buf) h) (sendto_agrees buf ts n h)
sendto_agrees buf (blocked false ∷ ts) n h = refl
sendto_agrees buf (fault e ∷ ts) n h = refl

-- A nonempty datagram is sent as by `send`, except that a call which moves no byte, where `send`
-- stops, is passed over: the result, the bytes and the later turns are those of a `send` that does
-- not see such calls. So while the system gives nothing but such calls, `sendto` does not end.
sendto-send :
    (ts : List Turn) (buf : Str)
    → 0 < length buf
    → with_moving (sendto ts buf) ≡ send (moving ts) buf
unfolding sendto send
sendto-send ts buf h = sendto_agrees buf ts 0 h
