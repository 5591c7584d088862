-- ===== src/Http/Message/Print.antt =====
-- Headers that are printed as lines are parsed back.
use net_cpp.Prelude.{
  ℕ, zero, suc, ◌+◌, ◌≤◌, ◌<◌, ◌≡◌, refl, sym, ap, ap₂, ◌∙◌, inl, inr, Bool, false, Option, none,
  some, [], ◌∷◌, ◌++◌, append_assoc, arith, ltb, ◌==◌, Bool-cases, Option-cases, length, take, drop,
  length-append, take-append, drop-append, Str, codes,
}
use net_cpp.Prelude.Search.{find_char, find_not, find_crlf, drop-drop}
use net_cpp.Errc.{ok}
use net_cpp.Http.Message.{
  MessageRestView, Headers, put, Line, entry, incomplete, value_at, after_colon, header_line, round,
  parse_from, parse,
}

-- A line as the program writes it, and the lines of several headers.
abbrev pub line_of : Str → Str → Str
line_of k v = k ++ (codes ": " ++ (v ++ (13 ∷ 10 ∷ [])))

abbrev pub lines_of : Headers → Str
lines_of [] = []
lines_of ((k, v) ∷ hs) = line_of k v ++ lines_of hs

-- The headers that a sequence of lines leaves.
abbrev pub puts : Headers → Headers → Headers
puts [] m = m
puts ((k, v) ∷ hs) m = puts hs (put k v m)

abbrev starts_with : ℕ → Str → Bool
starts_with c [] = false
starts_with c (x ∷ xs) = x == c

-- A key without a colon, and neither a key nor a value with a carriage return; no value begins with a
-- blank.
abbrev pub Printable : Headers → Type 0
Printable [] = Unit {0}
Printable ((k, v) ∷ hs) =
    (find_char b':' k ≡ none)
    × (find_char 13 k ≡ none)
    × (find_char 13 v ≡ none)
    × (starts_with b' ' v ≡ false)
    × Printable hs

none_cons :
    (c x : ℕ) (s : Str) → find_char c (x ∷ s) ≡ none → ((x == c) ≡ false) × (find_char c s ≡ none)
none_cons c x s h = elim (Bool-cases (x == c)) [
  | inl e ↦ absurd (no (rw e at h))
  | inr e ↦ elim (Option-cases (find_char c s)) [
    | inl f ↦ (e, f)
    | inr (i, f) ↦ absurd (no (rw (e, f) at h))
  ]
]
  where
    no : {i : ℕ} → ◌≡◌ {A = Option ℕ} (some i) none → ⊥
    no e = cc

pub find_char-here :
    (c : ℕ) (k r : Str) → find_char c k ≡ none → find_char c (k ++ (c ∷ r)) ≡ some (length k)
find_char-here c [] r h = ground arith
find_char-here c (x ∷ k) r h = let (e, f) = none_cons c x k h in rw (e, find_char-here c k r f) refl

pub find_crlf-here :
    (s r : Str) → find_char 13 s ≡ none → find_crlf (s ++ (13 ∷ 10 ∷ r)) ≡ some (length s)
find_crlf-here [] r h = refl
find_crlf-here (x ∷ []) r h = rw ((none_cons 13 x [] h).0) refl
find_crlf-here (x ∷ y ∷ s) r h =
    let (e, f) = none_cons 13 x (y ∷ s) h in rw (e, find_crlf-here (y ∷ s) r f) refl

pub none_append :
    (c : ℕ) (a b : Str) → find_char c a ≡ none → find_char c b ≡ none → find_char c (a ++ b) ≡ none
none_append c [] b h g = g
none_append c (x ∷ a) b h g = let (e, f) = none_cons c x a h in rw (e, none_append c a b f g) refl

-- The blank behind the colon, and what the value begins with.
find_not-here :
    (v r : Str) → starts_with b' ' v ≡ false → find_not b' ' (b' ' ∷ (v ++ (13 ∷ r))) ≡ some 1
find_not-here [] r h = refl
find_not-here (x ∷ v) r h = rw h refl

value_at-here :
    (rest key v r : Str) (n : ℕ)
    → find_char 13 v ≡ none
    → drop n rest ≡ v ++ (13 ∷ 10 ∷ r)
    → value_at rest key n ≡ entry (n + length v + 2) key v
value_at-here rest key v r n h e =
    rw (value_at, e, find_crlf-here v r h)
      (ap (entry (n + length v + 2) key) (ap (take (length v)) e ∙ take-append v (13 ∷ 10 ∷ r)))

after_colon-here :
    (rest v r : Str) (n : ℕ)
    → find_char 13 v ≡ none
    → starts_with b' ' v ≡ false
    → drop (suc n) rest ≡ b' ' ∷ (v ++ (13 ∷ 10 ∷ r))
    → drop (suc n + 1) rest ≡ v ++ (13 ∷ 10 ∷ r)
    → after_colon rest n ≡ entry (suc n + 1 + length v + 2) (take n rest) v
after_colon-here rest v r n h s e f = go (drop (suc n) rest) e
  where
    go :
        (d : Str)
        → d ≡ b' ' ∷ (v ++ (13 ∷ 10 ∷ r))
        → elim (find_not b' ' d) as (λ _. Line) [
          | none ↦ incomplete
          | some i ↦ value_at rest (take n rest) (suc n + i)
        ]
          ≡ entry (suc n + 1 + length v + 2) (take n rest) v
    go d g =
        rw (g, find_not-here v (10 ∷ r) s) (value_at-here rest (take n rest) v r (suc n + 1) h f)

-- A line is an entry of its key and value.
module _ (k v r : Str) where
  line_text : line_of k v ++ r ≡ k ++ (b':' ∷ b' ' ∷ (v ++ (13 ∷ 10 ∷ r)))
  line_text = append_assoc k _ r ∙ ap (λ l. k ++ (b':' ∷ b' ' ∷ l)) (append_assoc v _ r)

  length-line : length (line_of k v) ≡ length k + length v + 4
  length-line =
      omega (
        arith,
        length-append k (codes ": " ++ (v ++ (13 ∷ 10 ∷ []))),
        length-append v (13 ∷ 10 ∷ []),
      )

  behind :
      (i n : ℕ)
      → n ≡ length k + i
      → drop n (line_of k v ++ r) ≡ drop i (b':' ∷ b' ' ∷ (v ++ (13 ∷ 10 ∷ r)))
  behind i n e =
      ap₂ drop e line_text
      ∙ sym (drop-drop (length k) i _)
      ∙ ap (drop i) (drop-append k (b':' ∷ b' ' ∷ (v ++ (13 ∷ 10 ∷ r))))

  after_colon-line :
      find_char 13 v ≡ none
      → starts_with b' ' v ≡ false
      → after_colon (line_of k v ++ r) (length k) ≡ entry (length (line_of k v)) k v
  after_colon-line h s =
      after_colon-here (line_of k v ++ r) v r (length k) h s
        (behind 1 (suc (length k)) (omega arith)) (behind 2 (suc (length k) + 1) (omega arith))
      ∙ ap₂ (λ n key. entry n key v) (omega (arith, length-line))
          (ap (take (length k)) line_text ∙ take-append k _)

  crlf-line :
      find_char 13 k ≡ none
      → find_char 13 v ≡ none
      → find_crlf (line_of k v ++ r) ≡ some (suc (length k + length v + 1))
  crlf-line h g =
      let middle = none_append 13 k (codes ": " ++ v) h (none_append 13 (codes ": ") v refl g) in
      let text : line_of k v ++ r ≡ (k ++ (codes ": " ++ v)) ++ (13 ∷ 10 ∷ r) =
        line_text ∙ sym (append_assoc k (codes ": " ++ v) (13 ∷ 10 ∷ r)) in
      ap find_crlf text
      ∙ find_crlf-here (k ++ (codes ": " ++ v)) r middle
      ∙ ap some (omega (arith, length-append k (codes ": " ++ v)))

  round-line :
      find_char b':' k ≡ none
      → find_char 13 k ≡ none
      → find_char 13 v ≡ none
      → starts_with b' ' v ≡ false
      → round (line_of k v ++ r) ≡ entry (length (line_of k v)) k v
  round-line c h g s =
      let colon : find_char b':' (line_of k v ++ r) ≡ some (length k) =
        ap (find_char b':') line_text ∙ find_char-here b':' k _ c in
      let inside : ltb (suc (length k + length v + 1)) (length k) ≡ false = ground arith in
      rw (round, crlf-line h g, header_line, colon, inside) (after_colon-line g s)

-- The same from any position on, on a fuel above the number of headers.
parse_from-lines :
    (hs : Headers) (f pos : ℕ) (m : MessageRestView) (body : Str)
    → Printable hs
    → length hs < f
    → parse_from f pos m (lines_of hs ++ (13 ∷ 10 ∷ body))
      ≡ some (
        pos + length (lines_of hs) + 2,
        ok,
        record { headers = puts hs m.headers; content_part = body },
      )
unfolding parse_from
parse_from-lines hs zero pos m body p l = absurd (omega arith)
parse_from-lines [] (suc f) pos m body p l =
    ap (λ n. some (n + 2, ok, record { headers = m.headers; content_part = body })) (omega arith)
parse_from-lines ((k, v) ∷ hs) (suc f) pos m body (c, h, g, s, p) l =
    let rest = lines_of hs ++ (13 ∷ 10 ∷ body) in
    let line = line_of k v in
    ap (parse_from (suc f) pos m) (append_assoc line (lines_of hs) (13 ∷ 10 ∷ body))
    ∙ rw (parse_from, round-line k v rest c h g s, drop-append line rest)
        (parse_from-lines hs f (pos + length line) (record m { headers = put k v m.headers }) body p
            (omega arith)
          ∙ ap
              (λ n.
                some (n, ok, record { headers = puts hs (put k v m.headers); content_part = body }))
              (omega (arith, length-append line (lines_of hs))))

lines_long : (hs : Headers) → length hs ≤ length (lines_of hs)
lines_long [] = omega arith
lines_long ((k, v) ∷ hs) =
    omega (arith, lines_long hs, length-append (line_of k v) (lines_of hs), length-line k v [])

-- Lines of printable headers, the empty line and a body are parsed as these headers, put one after
-- the other in the order of the lines, and that body; the position is that of the body.
pub parse-lines :
    (hs : Headers) (m : MessageRestView) (body : Str)
    → Printable hs
    → parse m (lines_of hs ++ (13 ∷ 10 ∷ body))
      ≡ some (
        length (lines_of hs) + 2,
        ok,
        record { headers = puts hs m.headers; content_part = body },
      )
unfolding parse
parse-lines hs m body p =
    parse_from-lines hs (suc (length (lines_of hs ++ (13 ∷ 10 ∷ body)))) 0 m body p
      (omega (arith, lines_long hs, length-append (lines_of hs) (13 ∷ 10 ∷ body)))
    ∙ ap (λ n. some (n, ok, record { headers = puts hs m.headers; content_part = body }))
        (omega arith)
