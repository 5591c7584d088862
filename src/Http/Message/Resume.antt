-- ===== src/Http/Message/Resume.antt =====
-- A head that arrives in pieces: parsing goes on where it stopped for want of bytes.
use net_cpp.Prelude.{
  ℕ, zero, suc, ◌+◌, ◌≤◌, ◌<◌, ◌≡◌, refl, ap, ◌∙◌, ◌≢◌, inl, inr, Option, none, some, ◌++◌, arith,
  length, drop, length-append, length-drop, Str,
}
use net_cpp.Prelude.Search.{drop-append_le, drop-drop}
use net_cpp.Errc.{Errc, ok, illegal_byte_sequence, resource_unavailable_try_again}
use net_cpp.Http.Message.{
  MessageRestView, put, Parsed, entry, malformed, blank, round, parse_from, parse,
}
use native.Mathlib.Nat.{add_assoc}
use mathlib.Core.Path.{subst}
use net_cpp.Prelude.Tests.{some_inj}
use net_cpp.Http.Message.Lines.{Line-cases, entry_skips, blank_skips, round-append}

abbrev pub advance : ℕ → Option Parsed → Option Parsed
advance k none = none
advance k (some (p, ec, m)) = some (k + p, ec, m)

-- With a fuel above its length a rest is parsed to the same result, and `pos` is only added to.
pub parse_from-fuel :
    (f g k pos : ℕ) (m : MessageRestView) (rest : Str)
    → length rest < f
    → length rest < g
    → parse_from f (k + pos) m rest ≡ advance k (parse_from g pos m rest)
unfolding parse_from
parse_from-fuel zero g k pos m rest h i = absurd (omega arith)
parse_from-fuel (suc f) zero k pos m rest h i = absurd (omega arith)
parse_from-fuel (suc f) (suc g) k pos m rest h i = elim (Line-cases (round rest)) [
  | inl e ↦ rw (e, parse_from)
  | inr (inl e) ↦ rw (e, parse_from)
  | inr (inr (inl e)) ↦
      rw (e, parse_from)
        (ap (λ p. some (p, ok, record m { content_part = drop 2 rest })) (omega arith))
  | inr (inr (inr (s, key, v, e))) ↦
      let (two, within) = entry_skips rest s key v e in
      let m' = record m { headers = put key v m.headers } in
      rw (e, parse_from)
        (ap (λ p. parse_from f p m' (drop s rest)) (add_assoc k pos s)
          ∙ parse_from-fuel f g k (pos + s) m' (drop s rest) (omega (arith, length-drop s rest))
              (omega (arith, length-drop s rest)))
]

advance-zero : (r : Option Parsed) → advance 0 r ≡ r
advance-zero none = refl
advance-zero (some (p, ec, m)) = ap (λ k. some (k, ec, m)) (omega arith)

pub parse_from-any :
    (f g pos : ℕ) (m : MessageRestView) (rest : Str)
    → length rest < f
    → length rest < g
    → parse_from f pos m rest ≡ parse_from g pos m rest
parse_from-any f g pos m rest h i =
    ap (λ p. parse_from f p m rest) (let e : pos ≡ 0 + pos = omega arith in e)
    ∙ parse_from-fuel f g 0 pos m rest h i
    ∙ advance-zero (parse_from g pos m rest)

-- What the result of a parse of `a` says of a parse of `a ++ b` on the same fuel.
abbrev Extends : ℕ → ℕ → MessageRestView → Str → Str → Parsed → Type 0
Extends f pos m a b (p, resource_unavailable_try_again, m') =
    (n : ℕ) × (p ≡ pos + n)
    × (n ≤ length a)
    × (parse_from f pos m (a ++ b) ≡ parse_from f p m' (drop n a ++ b))
Extends f pos m a b (p, ok, m') =
    parse_from f pos m (a ++ b) ≡ some (p, ok, record m' { content_part = m'.content_part ++ b })
Extends f pos m a b (p, ec, m') = parse_from f pos m (a ++ b) ≡ some (p, ec, m')

Extends-here :
    (f pos : ℕ) (m : MessageRestView) (a b : Str)
    → Extends f pos m a b (pos, resource_unavailable_try_again, m)
Extends-here f pos m a b = (0, omega arith, omega arith, refl)

-- One round further on.
Extends-later :
    (f pos s : ℕ) (m m' : MessageRestView) (a b : Str) (r : Parsed)
    → length (a ++ b) < suc f
    → (2 ≤ s) × (s ≤ length a)
    → (parse_from (suc f) pos m (a ++ b) ≡ parse_from f (pos + s) m' (drop s a ++ b))
    → Extends f (pos + s) m' (drop s a) b r
    → Extends (suc f) pos m a b r
Extends-later f pos s m m' a b (p, resource_unavailable_try_again, m2) h w e (n, q, le, x) =
    let shorter : drop n (drop s a) ++ b ≡ drop (s + n) a ++ b =
      ap (λ l. l ++ b) (drop-drop s n a) in
    let small : length (drop n (drop s a) ++ b) < f = omega (
      arith,
      length-append (drop n (drop s a)) b,
      length-append a b,
      length-drop n (drop s a),
      length-drop s a,
    ) in
    (
      s + n,
      omega arith,
      omega (arith, length-drop s a),
      e
          ∙ x
          ∙ parse_from-any f (suc f) p m2 (drop n (drop s a) ++ b) small (omega arith)
          ∙ ap (parse_from (suc f) p m2) shorter,
    )
Extends-later f pos s m m' a b (p, ok, m2) h w e x = e ∙ x
Extends-later f pos s m m' a b (p, _, m2) h w e x = e ∙ x

parse_from-Extends :
    (f pos : ℕ) (m : MessageRestView) (a b : Str) (r : Parsed)
    → length (a ++ b) < f
    → parse_from f pos m a ≡ some r
    → Extends f pos m a b r
unfolding parse_from
parse_from-Extends zero pos m a b r h e = absurd (omega arith)
parse_from-Extends (suc f) pos m a b r h e = elim (Line-cases (round a)) [
  | inl l ↦
      let q : some (pos, resource_unavailable_try_again, m) ≡ some r = rw (l, parse_from) at e in
      subst (Extends (suc f) pos m a b) (some_inj q) (Extends-here (suc f) pos m a b)
  | inr (inl l) ↦
      let q : some (pos, illegal_byte_sequence, m) ≡ some r = rw (l, parse_from) at e in
      subst (Extends (suc f) pos m a b) (some_inj q)
        (rw (round-append a b malformed l (λ z. cc), parse_from))
  | inr (inr (inl l)) ↦
      let q : some (pos + 2, ok, record m { content_part = drop 2 a }) ≡ some r =
        rw (l, parse_from) at e in
      subst (Extends (suc f) pos m a b) (some_inj q) (
        rw (round-append a b blank l (λ z. cc), drop-append_le 2 a b (blank_skips a l), parse_from))
  | inr (inr (inr (s, k, v, l))) ↦
      let m' = record m { headers = put k v m.headers } in
      let (two, within) = entry_skips a s k v l in
      let small : length (drop s a ++ b) < f =
        omega (arith, length-append (drop s a) b, length-append a b, length-drop s a) in
      Extends-later f pos s m m' a b r h (two, within)
        (rw (round-append a b (entry s k v) l (λ z. cc), parse_from)
          (rw (drop-append_le s a b within)))
        (parse_from-Extends f (pos + s) m' (drop s a) b r small (rw (l, parse_from) at e))
]

parse_from-total :
    (f pos : ℕ) (m : MessageRestView) (rest : Str)
    → length rest < f
    → (r : Parsed) × (parse_from f pos m rest ≡ some r)
unfolding parse_from
parse_from-total zero pos m rest h = absurd (omega arith)
parse_from-total (suc f) pos m rest h = elim (Line-cases (round rest)) [
  | inl e ↦ ((pos, resource_unavailable_try_again, m), rw (e, parse_from))
  | inr (inl e) ↦ ((pos, illegal_byte_sequence, m), rw (e, parse_from))
  | inr (inr (inl e)) ↦ ((pos + 2, ok, record m { content_part = drop 2 rest }), rw (e, parse_from))
  | inr (inr (inr (s, k, v, e))) ↦
      let (two, within) = entry_skips rest s k v e in
      rw (e, parse_from)
        (parse_from-total f (pos + s) _ (drop s rest) (omega (arith, length-drop s rest)))
]

parse_from-le :
    (f pos : ℕ) (m : MessageRestView) (rest : Str) (r : Parsed)
    → parse_from f pos m rest ≡ some r
    → r.0 ≤ pos + length rest
unfolding parse_from
parse_from-le zero pos m rest r h = cc
parse_from-le (suc f) pos m rest r h = elim (Line-cases (round rest)) [
  | inl e ↦
      let q : pos ≡ r.0 = ap (λ (x : Parsed). x.0) (some_inj (rw (e, parse_from) at h)) in
      omega arith
  | inr (inl e) ↦
      let q : pos ≡ r.0 = ap (λ (x : Parsed). x.0) (some_inj (rw (e, parse_from) at h)) in
      omega arith
  | inr (inr (inl e)) ↦
      let q : pos + 2 ≡ r.0 = ap (λ (x : Parsed). x.0) (some_inj (rw (e, parse_from) at h)) in
      omega (arith, blank_skips rest e)
  | inr (inr (inr (s, k, v, e))) ↦
      let (two, within) = entry_skips rest s k v e in
      let m' = record m { headers = put k v m.headers } in
      let le : r.0 ≤ pos + s + length (drop s rest) =
        parse_from-le f (pos + s) m' (drop s rest) r (rw (e, parse_from) at h) in
      omega (arith, length-drop s rest)
]

-- The position that a parse returns is inside the view or at its end.
pub parse-le :
    (m : MessageRestView) (view : Str) (r : Parsed) → parse m view ≡ some r → r.0 ≤ length view
unfolding parse
parse-le m view r h =
    let le : r.0 ≤ 0 + length view = parse_from-le (suc (length view)) 0 m view r h in omega arith

-- The call always returns: the fuel that `parse` gives suffices.
pub parse_total : (m : MessageRestView) (view : Str) → (r : Parsed) × (parse m view ≡ some r)
unfolding parse
parse_total m view = parse_from-total (suc (length view)) 0 m view (omega arith)

-- If the head is incomplete, then parsing goes on from the returned position as soon as more bytes
-- follow, with the headers found so far: the result is that of one parse of all bytes.
pub parse_resume :
    (m m' : MessageRestView) (a b : Str) (p : ℕ)
    → parse m a ≡ some (p, resource_unavailable_try_again, m')
    → (p ≤ length a) × (parse m (a ++ b) ≡ advance p (parse m' (drop p a ++ b)))
unfolding parse
parse_resume m m' a b p e = go (
    parse_from-Extends f 0 m a b _ (omega arith) (
      parse_from-any f (suc (length a)) 0 m a (omega (arith, length-append a b)) (omega arith) ∙ e))
  where
    f : ℕ
    f = suc (length (a ++ b))

    go :
        Extends f 0 m a b (p, resource_unavailable_try_again, m')
        → (p ≤ length a)
          × (parse_from f 0 m (a ++ b)
              ≡ advance p (parse_from (suc (length (drop p a ++ b))) 0 m' (drop p a ++ b)))
    go (n, q, le, x) =
        let pn : n ≡ p = omega arith in
        let y : parse_from f 0 m (a ++ b) ≡ parse_from f p m' (drop p a ++ b) =
          x ∙ ap (λ k. parse_from f p m' (drop k a ++ b)) pn in
        (
          omega arith,
          y
              ∙ ap (λ k. parse_from f k m' (drop p a ++ b)) (let e' : p ≡ p + 0 = omega arith in e')
              ∙ parse_from-fuel f (suc (length (drop p a ++ b))) p 0 m' (drop p a ++ b)
                  (omega (arith, length-append (drop p a) b, length-append a b, length-drop p a))
                  (omega arith),
        )

-- The bytes that follow a complete head go to the content.
abbrev pub with_more : Errc → Str → MessageRestView → MessageRestView
with_more ok b m = record m { content_part = m.content_part ++ b }
with_more _ b m = m

Extends-final :
    (f : ℕ) (m m' : MessageRestView) (a b : Str) (p : ℕ) (ec : Errc)
    → ec ≢ resource_unavailable_try_again
    → Extends f 0 m a b (p, ec, m')
    → parse_from f 0 m (a ++ b) ≡ some (p, ec, with_more ec b m')
Extends-final f m m' a b p resource_unavailable_try_again n x = absurd (n refl)
Extends-final f m m' a b p ok n x = x
Extends-final f m m' a b p _ n x = x

-- A head that is complete or malformed stays so when more bytes follow: the status, the position
-- and the headers are the same, and after a complete head the bytes go to the content.
pub parse_final :
    (m m' : MessageRestView) (a b : Str) (p : ℕ) (ec : Errc)
    → ec ≢ resource_unavailable_try_again
    → parse m a ≡ some (p, ec, m')
    → parse m (a ++ b) ≡ some (p, ec, with_more ec b m')
unfolding parse
parse_final m m' a b p ec n e = Extends-final (suc (length (a ++ b))) m m' a b p ec n (
    parse_from-Extends (suc (length (a ++ b))) 0 m a b (p, ec, m') (omega arith)
      (parse_from-any (suc (length (a ++ b))) (suc (length a)) 0 m a
          (omega (arith, length-append a b)) (omega arith)
        ∙ e))
