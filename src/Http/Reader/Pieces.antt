-- ===== src/Http/Reader/Pieces.antt =====
-- Any way to cut the stream into pieces gives the headers of the whole.
use net_cpp.Prelude.{
  ℕ, zero, suc, ◌+◌, ◌-◌, ◌≤◌, ◌<◌, ◌≡◌, refl, sym, ap, ◌∙◌, ◌⊎◌, inl, inr, some, List, [], ◌∷◌,
  ◌++◌, append_assoc, arith, ◌==◌, Bool-cases, length, take, drop, length-append, length-take,
  length-drop, Str,
}
use net_cpp.Prelude.Search.{take-append-drop, drop-drop, drop-append_le}
use mathlib.Core.Path.{subst}
use net_cpp.Errc.{Errc, ok, illegal_byte_sequence, resource_unavailable_try_again}
use net_cpp.Http.Message.{MessageRestView, parse}
use net_cpp.Http.Message.Resume.{
  advance, with_more, parse_total, parse_resume, parse_final, parse-le,
}
use net_cpp.Http.Reader.{
  block_size, Window, end_of, consume, Filled, got, failed, leave, receive, rotate, fill, Outcome,
  head, gave_up, read_rest,
}

-- All bytes that the peer sends.
abbrev pub bytes : List Str → Str
bytes [] = []
bytes (c ∷ cs) = c ++ bytes cs

bytes-leave : (r : Str) (cs : List Str) → bytes (leave r cs) ≡ r ++ bytes cs
bytes-leave [] cs = refl
bytes-leave (x ∷ r) cs = refl

-- What a fill that got bytes leaves, and why one failed.
abbrev FillOk : Window → List Str → Filled → Type 0
FillOk w cs (got w' cs') =
    (w'.text ++ bytes cs' ≡ w.text ++ bytes cs)
    × (end_of w' ≤ block_size)
    × (length (bytes cs') < length (bytes cs))
FillOk w cs (failed illegal_byte_sequence) = length w.text ≡ block_size
FillOk w cs (failed _) = Unit {0}

receive-FillOk : (w : Window) (cs : List Str) → end_of w < block_size → FillOk w cs (receive w cs)
unfolding receive
receive-FillOk w [] h = tt
receive-FillOk w ([] ∷ cs) h = tt
receive-FillOk w ((x ∷ xs) ∷ cs) h = (
  append_assoc w.text (take room c) (bytes (leave (drop room c) cs))
      ∙ ap (λ l. w.text ++ l)
          (ap (λ l. take room c ++ l) (bytes-leave (drop room c) cs)
            ∙ sym (append_assoc (take room c) (drop room c) (bytes cs))
            ∙ ap (λ l. l ++ bytes cs) (take-append-drop room c)),
  omega (arith, length-append w.text (take room c), length-take room c),
  omega (
    arith,
    ap length (bytes-leave (drop room c) cs),
    length-append (drop room c) (bytes cs),
    length-drop room c,
    length-append c (bytes cs),
  ),
)
  where
    c : Str
    c = x ∷ xs

    room : ℕ
    room = block_size - end_of w

FillOk-moved :
    (w : Window) (cs : List Str) (r : Filled)
    → length w.text < block_size
    → FillOk (record { begin = 0; text = w.text }) cs r
    → FillOk w cs r
FillOk-moved w cs (got w' cs') h k = k
FillOk-moved w cs (failed illegal_byte_sequence) h k = k
FillOk-moved w cs (failed _) h k = tt

fill-FillOk : (w : Window) (cs : List Str) → end_of w ≤ block_size → FillOk w cs (fill w cs)
unfolding fill rotate
fill-FillOk w cs h = elim (Bool-cases (end_of w == block_size)) [
  | inr below ↦ rw below (receive-FillOk w cs (ground arith))
  | inl full ↦ elim (Bool-cases (length w.text == block_size)) [
    | inl long ↦ rw (full, long, FillOk) (ground arith)
    | inr short ↦
        rw (full, short)
          (FillOk-moved w cs (receive (record { begin = 0; text = w.text }) cs) (ground arith)
            (receive-FillOk (record { begin = 0; text = w.text }) cs (ground arith)))
  ]
]

-- What an outcome says of one parse of all the bytes.
abbrev pub Right : MessageRestView → Str → Outcome → Type 0
Right m all (head m' w' cs') =
    (p : ℕ) × (parse m all ≡ some (p, ok, with_more ok (bytes cs') m'))
    × (w'.text ++ bytes cs' ≡ drop p all)
Right m all (gave_up illegal_byte_sequence) =
    ((p : ℕ) × (m' : MessageRestView) × (parse m all ≡ some (p, illegal_byte_sequence, m')))
    ⊎ (block_size ≤ length all)
Right m all (gave_up _) = Unit {0}

-- A later outcome, of a parse that went on from position `p`, is one of the whole.
Right-advance :
    (m m' : MessageRestView) (all : Str) (p : ℕ) (r : Outcome)
    → parse m all ≡ advance p (parse m' (drop p all))
    → Right m' (drop p all) r
    → Right m all r
Right-advance m m' all p (head m2 w2 cs2) e (q, f, g) =
    (p + q, e ∙ ap (advance p) f, g ∙ drop-drop p q all)
Right-advance m m' all p (gave_up illegal_byte_sequence) e (inl (q, m2, f)) =
    inl (p + q, m2, e ∙ ap (advance p) f)
Right-advance m m' all p (gave_up illegal_byte_sequence) e (inr h) =
    inr (omega (arith, length-drop p all))
Right-advance m m' all p (gave_up _) e h = tt

abbrev Reads : ℕ → MessageRestView → Window → List Str → Type 0
Reads f m w cs = (r : Outcome) × (read_rest f m w cs ≡ some r) × Right m (w.text ++ bytes cs) r

abbrev Steps : ℕ → Type 0
Steps f =
    (m : MessageRestView) (w : Window) (cs : List Str)
    → end_of w ≤ block_size
    → length (bytes cs) < f
    → Reads f m w cs

-- A round whose parse asks for more.
module _ (f : ℕ) (ih : Steps f) (m m' : MessageRestView) (w : Window) (cs : List Str) (p : ℕ) where
  after_fill :
      (r : Filled)
      → parse m w.text ≡ some (p, resource_unavailable_try_again, m')
      → fill (consume p w) cs ≡ r
      → FillOk (consume p w) cs r
      → length (bytes cs) < suc f
      → Reads (suc f) m w cs
  unfolding read_rest
  after_fill (failed illegal_byte_sequence) h g k l = (
    gave_up illegal_byte_sequence,
    rw (h, g, read_rest),
    inr (omega (arith, length-drop p w.text, length-append w.text (bytes cs))),
  )
  after_fill (failed e) h g k l = (gave_up e, rw (h, g, read_rest), tt)
  after_fill (got w' cs') h g (same, room, less) l =
      let (le, step) = parse_resume m m' w.text (bytes cs) p h in
      let (r, e, right) = ih m' w' cs' room (omega arith) in
      let here : drop p w.text ++ bytes cs ≡ drop p (w.text ++ bytes cs) =
        sym (drop-append_le p w.text (bytes cs) le) in
      (
        r,
        rw (h, g, read_rest) e,
        Right-advance m m' (w.text ++ bytes cs) p r (step ∙ ap (λ l. advance p (parse m' l)) here)
            (subst (λ l. Right m' l r) (same ∙ here) right),
      )

-- A round whose parse returns something.
module _ (f : ℕ) (m m' : MessageRestView) (w : Window) (cs : List Str) (p : ℕ) where
  after_parse :
      (ec : Errc)
      → Steps f
      → parse m w.text ≡ some (p, ec, m')
      → end_of w ≤ block_size
      → length (bytes cs) < suc f
      → Reads (suc f) m w cs
  unfolding read_rest
  after_parse ok ih e h l = (
    head m' (consume p w) cs,
    rw (e, read_rest),
    (
      p,
      parse_final m m' w.text (bytes cs) p ok (λ z. cc) e,
      sym (drop-append_le p w.text (bytes cs) (parse-le m w.text (p, ok, m') e)),
    ),
  )
  after_parse resource_unavailable_try_again ih e h l =
      let le : p ≤ length w.text = parse-le m w.text (p, resource_unavailable_try_again, m') e in
      after_fill f ih m m' w cs p (fill (consume p w) cs) e refl
        (fill-FillOk (consume p w) cs (omega (arith, length-drop p w.text))) l
  after_parse illegal_byte_sequence ih e h l = (
    gave_up illegal_byte_sequence,
    rw (e, read_rest),
    inl (p, m', parse_final m m' w.text (bytes cs) p illegal_byte_sequence (λ z. cc) e),
  )
  after_parse other ih e h l = (gave_up other, rw (e, read_rest), tt)

-- However the peer cuts its stream into pieces, the loop ends on a fuel above the number of bytes.
-- If it returns a head, then that head, its headers and what is left in the window and in the stream
-- are those of one parse of all the bytes. It rejects the head only if that parse does, or if there
-- are enough bytes for a line that fills a block.
pub read_rest-Right :
    (f : ℕ) (m : MessageRestView) (w : Window) (cs : List Str)
    → end_of w ≤ block_size
    → length (bytes cs) < f
    → (r : Outcome) × (read_rest f m w cs ≡ some r) × Right m (w.text ++ bytes cs) r
read_rest-Right zero m w cs h l = absurd (omega arith)
read_rest-Right (suc f) m w cs h l =
    let ((p, ec, m'), e) = parse_total m w.text in
    after_parse f m m' w cs p ec (read_rest-Right f) e h l
