-- ===== src/Asio/Io/Chunks.antt =====
-- Several chunks in one call are written like their concatenation.
use net_cpp.Prelude.{
  ℕ, zero, suc, ◌+◌, ◌-◌, ◌≤◌, ◌<◌, min, ◌≡◌, refl, sym, ap, ◌∙◌, inl, inr, true, false, Option,
  List, [], ◌∷◌, ◌++◌, append-nil, arith, ltb, leb, ◌==◌, ltb→lt, lt→ltb, leb→le, Bool-cases,
  length, drop, length-append, drop-append, length-drop, Str,
}
use net_cpp.Prelude.Search.{drop-drop, drop-append_le}
use mathlib.Core.Path.{subst}
use net_cpp.Asio.Io.{
  Turn, room, blocked, fault, Sent, send_from, send, keep, gather, joined, skip_written,
  unless_empty, sendv_from, writev_max_chunks, sum_sizes, sendv,
}

length-joined : (cs : List Str) → length (joined cs) ≡ sum_sizes cs
unfolding joined sum_sizes
length-joined [] = refl
length-joined (c ∷ cs) = omega (arith, length-append c (joined cs), length-joined cs)

joined-keep : (s : Str) (cs : List Str) → joined (keep s cs) ≡ s ++ joined cs
unfolding joined keep
joined-keep [] cs = refl
joined-keep (x ∷ xs) cs = refl

joined-gather : (cs : List Str) → joined (gather 0 cs) ≡ joined cs
unfolding joined gather
joined-gather [] = refl
joined-gather (c ∷ cs) = joined-keep c (gather 0 cs) ∙ ap (λ l. c ++ l) (joined-gather cs)

-- What is left of a list of chunks from a place on.
pub record Left (o : ℕ) (cs : List Str) (s : Str) : Type 0 where
  gathered : joined (gather o cs) ≡ s
  dropped : drop o (joined cs) ≡ s
  inside : o ≤ length (joined cs)

Left-all : (cs : List Str) → Left 0 cs (joined cs)
Left-all cs = record { gathered = joined-gather cs; dropped = refl; inside = omega arith }

Left-here :
    (o : ℕ) (c : Str) (cs : List Str) → o < length c → Left o (c ∷ cs) (drop o (joined (c ∷ cs)))
unfolding joined gather
Left-here o c cs h = record {
  gathered =
      joined-keep (drop o c) (gather 0 cs)
      ∙ ap (λ l. drop o c ++ l) (joined-gather cs)
      ∙ sym (drop-append_le o c (joined cs) (omega arith));
  dropped = refl;
  inside = omega (arith, length-append c (joined cs));
}

abbrev pub LeftAt : ℕ × List Str → Str → Type 0
LeftAt (o, cs) s = Left o cs s

skip_written-Left :
    (o : ℕ) (cs : List Str)
    → o ≤ length (joined cs)
    → LeftAt (skip_written o cs) (drop o (joined cs))
unfolding skip_written joined gather
skip_written-Left zero [] h = record { gathered = refl; dropped = refl; inside = omega arith }
skip_written-Left (suc o) [] h = absurd (omega arith)
skip_written-Left o (c ∷ cs) h = elim (Bool-cases (leb (length c) o)) [
  | inl e ↦
      let le : length c ≤ o = leb→le (length c) o e in
      let past : drop (o - length c) (joined cs) ≡ drop o (c ++ joined cs) =
        ap (drop (o - length c)) (sym (drop-append c (joined cs)))
        ∙ drop-drop (length c) (o - length c) (c ++ joined cs)
        ∙ ap (λ k. drop k (c ++ joined cs))
            (let e' : length c + (o - length c) ≡ o = omega arith in e') in
      rw e (
        subst (LeftAt (skip_written (o - length c) cs)) past
          (skip_written-Left (o - length c) cs (omega (arith, length-append c (joined cs)))))
  | inr e ↦ rw e (Left-here o c cs (ground arith))
]

-- The bytes that a turn moves, and what is left behind them.
Left-moved :
    (n o : ℕ) (cs : List Str) (s : Str)
    → Left o cs s
    → n ≤ length s
    → LeftAt (skip_written (o + n) cs) (drop n s)
Left-moved n o cs s h l =
    subst (LeftAt (skip_written (o + n) cs))
      (sym (drop-drop o n (joined cs)) ∙ ap (drop n) h.dropped)
      (skip_written-Left (o + n) cs
        (omega (arith, h.inside, length-drop o (joined cs), ap length h.dropped)))

-- A list of chunks with bytes left has a chunk to write.
unless_empty-joined :
    (cs : List Str) (w : ℕ) (ts : List Turn) (r : Option Sent)
    → 0 < length (joined cs)
    → unless_empty cs w ts r ≡ r
unfolding unless_empty joined
unless_empty-joined [] w ts r h = absurd (omega arith)
unless_empty-joined (c ∷ cs) w ts r h = refl

nonempty :
    {o : ℕ} {cs : List Str} {s : Str} (w : ℕ) (ts : List Turn) (r : Option Sent)
    → Left o cs s
    → 0 < length s
    → unless_empty (gather o cs) w ts r ≡ r
nonempty {o} {cs} w ts r h l =
    unless_empty-joined (gather o cs) w ts r (omega (arith, ap length h.gathered))

-- Both loops agree as long as the chunks that are left are the bytes that are left.
module _ (msg : Str) where
  abbrev Agree : List Turn → Type 0
  Agree ts =
      (o : ℕ) (cs : List Str) (n : ℕ)
      → Left o cs (drop n msg)
      → n < length msg
      → sendv_from ts o cs n (length msg) ≡ send_from ts msg n

  Agree-room : (k : ℕ) (ts : List Turn) → Agree ts → Agree (room k ∷ ts)
  unfolding sendv_from send_from
  Agree-room k ts ih o cs n h l =
      let m = min k (length msg - n) in
      nonempty n _ _ h (omega (arith, length-drop n msg))
      ∙ rw (h.gathered, length-drop n msg)
          (elim (Bool-cases (ltb (n + m) (length msg))) [
            | inr e ↦ rw e refl
            | inl e ↦
                let there = Left-moved m o cs (drop n msg) h (omega (arith, length-drop n msg)) in
                rw
                  (
                    e,
                    ih _ _ (n + m)
                        (subst (LeftAt (skip_written (o + m) cs)) (drop-drop n m msg) there)
                        (ltb→lt (n + m) (length msg) e),
                  )
                  refl
          ])

  Agree-wait : (ts : List Turn) → Agree ts → Agree (blocked true ∷ ts)
  unfolding sendv_from send_from
  Agree-wait ts ih o cs n h l =
      let below : 0 < length (drop n msg) = omega (arith, length-drop n msg) in
      nonempty n _ _ h below ∙ rw (lt→ltb n (length msg) l) (ih o cs n h l)

  sendv_from-send_from : (ts : List Turn) → Agree ts
  unfolding sendv_from send_from
  sendv_from-send_from [] o cs n h l = nonempty n _ _ h (omega (arith, length-drop n msg))
  sendv_from-send_from (room k ∷ ts) o cs n h l =
      Agree-room k ts (sendv_from-send_from ts) o cs n h l
  sendv_from-send_from (blocked true ∷ ts) o cs n h l =
      Agree-wait ts (sendv_from-send_from ts) o cs n h l
  sendv_from-send_from (blocked false ∷ ts) o cs n h l =
      nonempty n _ _ h (omega (arith, length-drop n msg))
  sendv_from-send_from (fault e ∷ ts) o cs n h l =
      nonempty n _ _ h (omega (arith, length-drop n msg))

-- Up to eight chunks that are not all empty are sent just as their concatenation by `send`: the same
-- result and the same bytes, for any course of partial writes, waits and errors.
pub sendv-send :
    (ts : List Turn) (cs : List Str)
    → length cs ≤ writev_max_chunks
    → 0 < length (joined cs)
    → sendv ts cs ≡ send ts (joined cs)
unfolding sendv send
sendv-send ts cs h l =
    let no : ltb writev_max_chunks (length cs) ≡ false = ground arith in
    let some_bytes : (sum_sizes cs == 0) ≡ false = ground (arith, length-joined cs) in
    rw (no, some_bytes, sym (length-joined cs))
      (sendv_from-send_from (joined cs) ts 0 cs 0 (Left-all cs) l)

pub sendv_two :
    (ts : List Turn) (a b : Str) → 0 < length b → sendv ts (a ∷ b ∷ []) ≡ send ts (a ++ b)
unfolding joined
sendv_two ts a b h =
    let two : a ++ (b ++ []) ≡ a ++ b = ap (λ l. a ++ l) (append-nil b) in
    sendv-send ts (a ∷ b ∷ []) (omega arith)
      (omega (arith, length-append a (b ++ []), ap length (append-nil b)))
    ∙ ap (send ts) two
