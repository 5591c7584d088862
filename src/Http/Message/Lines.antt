-- ===== src/Http/Message/Lines.antt =====
-- One round of the header loop, and that bytes which follow do not change a line found whole.
use net_cpp.Prelude.{
  ℕ, zero, suc, ◌+◌, ◌≤◌, ◌<◌, ◌≡◌, refl, sym, ◌∙◌, ◌≢◌, ◌⊎◌, inl, inr, true, some, [], ◌++◌, arith,
  ltb, lt→ltb, Bool-cases, Option-cases, length, take, drop, length-drop, Str,
}
use net_cpp.Prelude.Search.{
  find_char, find_not, find_crlf, find_char-append, find_char-lt, find_char-past, find_not-append,
  find_crlf-append, find_crlf-lt, take-append_le, drop-append_le,
}
use net_cpp.Http.Message.{
  Line, entry, incomplete, malformed, blank, round, value_at, after_colon, header_line,
}

abbrev pub SkipsWithin : Line → ℕ → Type 0
SkipsWithin (entry skip key value) n = (2 ≤ skip) × (skip ≤ n)
SkipsWithin incomplete n = Unit {0}
SkipsWithin malformed n = Unit {0}
SkipsWithin blank n = 2 ≤ n

-- More bytes do not change a line that was decided.
abbrev pub Kept : Line → Line → ℕ → Type 0
Kept l l' n = (l ≡ incomplete) ⊎ ((l' ≡ l) × SkipsWithin l n)

value_at-Kept :
    (rest b key : Str) (v : ℕ)
    → Kept (value_at rest key v) (value_at (rest ++ b) key v) (length rest)
value_at-Kept rest b key v = elim (Option-cases (find_crlf (drop v rest))) [
  | inl e ↦ inl (rw (e, value_at))
  | inr (n, e) ↦ inr (found n e)
]
  where
    found :
        (n : ℕ)
        → find_crlf (drop v rest) ≡ some n
        → (value_at (rest ++ b) key v ≡ value_at rest key v)
          × SkipsWithin (value_at rest key v) (length rest)
    found n e =
        let fits : n + 2 ≤ length (drop v rest) = find_crlf-lt (drop v rest) n e in
        let inside : v ≤ length rest = omega (arith, length-drop v rest) in
        let shift : drop v (rest ++ b) ≡ drop v rest ++ b = drop-append_le v rest b inside in
        let e' : find_crlf (drop v rest ++ b) ≡ some n = find_crlf-append (drop v rest) b n e in
        let same : take n (drop v rest ++ b) ≡ take n (drop v rest) =
          take-append_le n (drop v rest) b (omega arith) in
        (
          rw (shift, e', e, value_at) (rw (shift, same)),
          rw (e, SkipsWithin) (omega arith, omega (arith, length-drop v rest)),
        )

after_colon-Kept :
    (rest b : Str) (colon : ℕ)
    → colon < length rest
    → Kept (after_colon rest colon) (after_colon (rest ++ b) colon) (length rest)
after_colon-Kept rest b colon h = elim (Option-cases (find_not b' ' (drop (suc colon) rest))) [
  | inl e ↦ inl (rw (e, after_colon))
  | inr (n, e) ↦
      let shift : drop (suc colon) (rest ++ b) ≡ drop (suc colon) rest ++ b =
        drop-append_le (suc colon) rest b h in
      let e' : find_not b' ' (drop (suc colon) rest ++ b) ≡ some n =
        find_not-append b' ' (drop (suc colon) rest) b n e in
      rw (shift, e', e, after_colon)
        (rw (take-append_le colon rest b (omega arith))
          (value_at-Kept rest b (take colon rest) (suc colon + n)))
]

pub header_line-Kept :
    (rest b : Str) (end : ℕ)
    → suc end ≤ length rest
    → Kept (header_line rest end) (header_line (rest ++ b) end) (length rest)
header_line-Kept rest b end h = elim (Option-cases (find_char b':' rest)) [
  | inl e ↦ elim (Option-cases (find_char b':' (rest ++ b))) [
    | inl f ↦ inr (rw (e, f, header_line) refl, rw (e, SkipsWithin, header_line) tt)
    | inr (i, f) ↦
        let past : ltb end i ≡ true =
          lt→ltb end i (omega (arith, find_char-past b':' rest b i e f)) in
        inr (rw (e, f, past, header_line) refl, rw (e, SkipsWithin, header_line) tt)
  ]
  | inr (i, e) ↦
      let f : find_char b':' (rest ++ b) ≡ some i = find_char-append b':' rest b i e in
      elim (Bool-cases (ltb end i)) [
        | inl past ↦
            inr (rw (e, f, past, header_line) refl, rw (e, past, SkipsWithin, header_line) tt)
        | inr before ↦
            rw (e, f, before, header_line) (after_colon-Kept rest b i (find_char-lt b':' rest i e))
      ]
]

-- A round that decides something decides the same when more bytes follow, and skips between two
-- bytes and all of them.
pub round-Kept : (rest b : Str) → Kept (round rest) (round (rest ++ b)) (length rest)
round-Kept rest b = elim (Option-cases (find_crlf rest)) [
  | inl e ↦ inl (rw (e, round))
  | inr (n, e) ↦ found n e
]
  where
    found : (n : ℕ) → find_crlf rest ≡ some n → Kept (round rest) (round (rest ++ b)) (length rest)
    found zero e = inr (
      rw (e, find_crlf-append rest b 0 e, round) refl,
      rw (e, round, SkipsWithin) (omega (arith, find_crlf-lt rest 0 e)),
    )
    found (suc n) e =
        rw (e, find_crlf-append rest b (suc n) e, round)
          (header_line-Kept rest b (suc n) (omega (arith, find_crlf-lt rest (suc n) e)))

pub Line-cases :
    (l : Line)
    → (l ≡ incomplete)
      ⊎ ((l ≡ malformed) ⊎ ((l ≡ blank) ⊎ ((s : ℕ) × (k : Str) × (v : Str) × (l ≡ entry s k v))))
Line-cases incomplete = inl refl
Line-cases malformed = inr (inl refl)
Line-cases blank = inr (inr (inl refl))
Line-cases (entry s k v) = inr (inr (inr (s, k, v, refl)))

pub entry_skips :
    (rest : Str) (s : ℕ) (k v : Str) → round rest ≡ entry s k v → (2 ≤ s) × (s ≤ length rest)
entry_skips rest s k v e = elim (round-Kept rest []) [ inl f ↦ cc | inr (same, w) ↦ rw e at w ]

pub blank_skips : (rest : Str) → round rest ≡ blank → 2 ≤ length rest
blank_skips rest e = elim (round-Kept rest []) [ inl f ↦ cc | inr (same, w) ↦ rw e at w ]

pub round-append :
    (rest b : Str) (l : Line) → round rest ≡ l → l ≢ incomplete → round (rest ++ b) ≡ l
round-append rest b l e n = elim (round-Kept rest b) [
  | inl f ↦ absurd (n (sym e ∙ f))
  | inr (same, w) ↦ same ∙ e
]
