-- ===== src/Asio/Io/Whole.antt =====
-- What a send puts on the wire, and that it ends.
use net_cpp.Prelude.{
  ℕ, zero, suc, ◌+◌, ◌-◌, ◌≤◌, ◌<◌, min, ◌≡◌, refl, sym, ap, ◌∙◌, inl, inr, true, false, Option,
  some, List, [], ◌∷◌, ◌++◌, arith, ltb, ◌==◌, Bool-cases, length, take, drop, Str,
}
use net_cpp.Prelude.Search.{drop-drop}
use net_cpp.Errc.{Errc, ok, not_connected, from_errno}
use net_cpp.Asio.Io.{Turn, room, blocked, fault, Sent, ends, then_wire, send_from, send}

-- The write calls among the turns.
abbrev pub rooms : List Turn → ℕ
rooms [] = 0
rooms (room k ∷ ts) = suc (rooms ts)
rooms (_ ∷ ts) = rooms ts

-- Every write call has room for a byte, no wait is stopped and no call fails.
abbrev pub Works : List Turn → Type 0
Works [] = Unit {0}
Works (room k ∷ ts) = (0 < k) × Works ts
Works (blocked true ∷ ts) = Works ts
Works (_ ∷ ts) = ⊥

-- What the end of a send that starts at `n` says.
pub record Good (ts : List Turn) (msg : Str) (n : ℕ) (s : Sent) : Type 0 where
  from : n ≤ s.result.size
  within : s.result.size ≤ length msg
  sent : s.wire ≡ take (s.result.size - n) (drop n msg)
  whole : Works ts → (s.result.size ≡ length msg) × (s.result.ec ≡ ok)
  later : Works ts → Works s.rest
  spent : rooms ts + n ≤ rooms s.rest + s.result.size + 1

abbrev Ends : List Turn → Str → ℕ → Option Sent → Type 0
Ends ts msg n r = (s : Sent) × (r ≡ some s) × Good ts msg n s

Good-ends :
    (ts ts' : List Turn) (msg : Str) (n : ℕ) (ec : Errc)
    → n ≤ length msg
    → (Works ts → (n ≡ length msg) × (ec ≡ ok))
    → (Works ts → Works ts')
    → rooms ts ≤ rooms ts' + 1
    → Ends ts msg n (ends n ec ts')
unfolding ends
Good-ends ts ts' msg n ec h w v l = (
  _,
  refl,
  record {
    from = omega arith;
    within = h;
    sent = ap (λ k. take k (drop n msg)) (let e : 0 ≡ n - n = omega arith in e);
    whole = w;
    later = v;
    spent = omega arith;
  },
)

take-nil {ℓ} : {A : Type ℓ} (n : ℕ) → take {A = A} n [] ≡ []
take-nil zero = refl
take-nil (suc n) = refl

take-take-drop {ℓ} :
    {A : Type ℓ} (m j : ℕ) (s : List A) → take m s ++ take j (drop m s) ≡ take (m + j) s
take-take-drop zero j s = ap (λ k. take k s) (omega arith)
take-take-drop (suc m) j [] =
    take-nil j
    ∙ sym (take-nil (suc (m + j)))
    ∙ ap (λ k. take k []) (let e : suc (m + j) ≡ suc m + j = omega arith in e)
take-take-drop (suc m) j (x ∷ s) =
    ap (λ l. x ∷ l) (take-take-drop m j s)
    ∙ ap (λ k. take k (x ∷ s)) (let e : suc (m + j) ≡ suc m + j = omega arith in e)

-- A round that moves bytes, before a send of the rest.
Good-moved :
    (k : ℕ) (ts : List Turn) (msg : Str) (n m : ℕ) (r : Option Sent)
    → 0 < m
    → Ends ts msg (n + m) r
    → Ends (room k ∷ ts) msg n (then_wire (take m (drop n msg)) r)
unfolding then_wire
Good-moved k ts msg n m r pos (s, e, g) = (
  record s { wire = take m (drop n msg) ++ s.wire },
  rw e refl,
  record {
    from = omega (arith, g.from);
    within = g.within;
    sent =
        ap (λ l. take m (drop n msg) ++ l)
          (g.sent ∙ ap (take (s.result.size - (n + m))) (sym (drop-drop n m msg)))
        ∙ take-take-drop m (s.result.size - (n + m)) (drop n msg)
        ∙ ap (λ j. take j (drop n msg))
            (let e' : m + (s.result.size - (n + m)) ≡ s.result.size - n = omega (arith, g.from) in
              e');
    whole = λ w. g.whole w.1;
    later = λ w. g.later w.1;
    spent = omega (arith, g.spent);
  },
)

Good-waited :
    (ts : List Turn) (msg : Str) (n : ℕ) (r : Option Sent)
    → Ends ts msg n r
    → Ends (blocked true ∷ ts) msg n r
Good-waited ts msg n r (s, e, g) = (
  s,
  e,
  record {
    from = g.from;
    within = g.within;
    sent = g.sent;
    whole = g.whole;
    later = g.later;
    spent = g.spent;
  },
)

send_from-Ends :
    (ts : List Turn) (msg : Str) (n : ℕ)
    → n ≤ length msg
    → length msg < rooms ts + n
    → Ends ts msg n (send_from ts msg n)
unfolding send_from
send_from-Ends [] msg n h l = absurd (omega arith)
send_from-Ends (room k ∷ ts) msg n h l =
    let m = min k (length msg - n) in
    elim (Bool-cases (m == 0)) [
      | inl e ↦ rw e (
          Good-ends (room k ∷ ts) ts msg n ok h (λ w. (ground arith, refl)) (λ w. w.1)
            (omega arith))
      | inr e ↦ elim (Bool-cases (ltb (n + m) (length msg))) [
        | inl f ↦
            rw (e, f)
              (Good-moved k ts msg n m _ (ground arith)
                (send_from-Ends ts msg (n + m) (omega arith) (ground arith)))
        | inr f ↦
            rw (e, f)
              (Good-moved k ts msg n m _ (ground arith) (
                Good-ends ts ts msg (n + m) ok (omega arith) (λ w. (ground arith, refl)) (λ w. w)
                  (omega arith)))
      ]
    ]
send_from-Ends (blocked true ∷ ts) msg n h l = elim (Bool-cases (ltb n (length msg))) [
  | inl f ↦ rw f (Good-waited ts msg n _ (send_from-Ends ts msg n h l))
  | inr f ↦ rw f (
      Good-ends (blocked true ∷ ts) ts msg n ok h (λ w. (ground arith, refl)) (λ w. w)
        (omega arith))
]
send_from-Ends (blocked false ∷ ts) msg n h l =
    Good-ends (blocked false ∷ ts) ts msg n not_connected h (λ w. absurd w) (λ w. absurd w)
      (omega arith)
send_from-Ends (fault e ∷ ts) msg n h l =
    Good-ends (fault e ∷ ts) ts msg n (from_errno e) h (λ w. absurd w) (λ w. absurd w) (omega arith)

-- A send ends if there are more write calls than bytes. Its size is the number of bytes that went
-- out, also after an error, and these are the first ones of the text. If every call has room and
-- nothing fails, then all of it is sent, without an error.
pub send-Good :
    (ts : List Turn) (msg : Str)
    → length msg < rooms ts
    → (s : Sent) × (send ts msg ≡ some s)
      × (s.result.size ≤ length msg)
      × (s.wire ≡ take s.result.size msg)
      × (Works ts → (s.result.size ≡ length msg) × (s.result.ec ≡ ok))
unfolding send
send-Good ts msg l =
    let (s, e, g) = send_from-Ends ts msg 0 (omega arith) (omega arith) in
    (s, e, g.within, g.sent ∙ ap (λ k. take k msg) (omega arith), g.whole)

take-length : (s : Str) → take (length s) s ≡ s
take-length [] = refl
take-length (x ∷ s) = ap (λ l. x ∷ l) (take-length s)

-- A send on turns that work, and the turns that it leaves.
pub record Done (ts : List Turn) (msg : Str) (s : Sent) : Type 0 where
  pub size : s.result.size ≡ length msg
  pub ec : s.result.ec ≡ ok
  pub wire : s.wire ≡ msg
  pub works : Works s.rest
  pub enough : rooms ts ≤ rooms s.rest + length msg + 1

pub send-Done :
    (ts : List Turn) (msg : Str)
    → Works ts
    → length msg < rooms ts
    → (s : Sent) × (send ts msg ≡ some s) × Done ts msg s
unfolding send
send-Done ts msg w l =
    let (s, e, g) = send_from-Ends ts msg 0 (omega arith) (omega arith) in
    let all : s.result.size ≡ length msg = (g.whole w).0 in
    (
      s,
      e,
      record {
        size = all;
        ec = (g.whole w).1;
        wire = g.sent ∙ ap (λ k. take k msg) (omega arith) ∙ take-length msg;
        works = g.later w;
        enough = omega (arith, g.spent);
      },
    )
