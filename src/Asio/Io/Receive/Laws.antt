-- ===== src/Asio/Io/Receive/Laws.antt =====
-- What a read gives, and the bytes that later reads still get.
use net_cpp.Prelude.{
  ℕ, ◌≤◌, ◌<◌, min, ◌≡◌, refl, sym, ap, ◌∙◌, ◌↔◌, true, false, some, List, [], ◌∷◌, ◌++◌,
  append_assoc, arith, ◌==◌, length, take, drop, length-take, Str,
}
use net_cpp.Prelude.Search.{take-append-drop}
use net_cpp.Errc.{Errc, ok, not_connected}
use net_cpp.Asio.Io.Receive.{
  Arrival, bytes, closed, blocked, fault, Received, gives, keep_rest, imm_recv, checked, recv,
}

-- All bytes that arrive.
abbrev pub all_bytes : List Arrival → Str
all_bytes [] = []
all_bytes (bytes s ∷ as') = s ++ all_bytes as'
all_bytes (_ ∷ as') = all_bytes as'

-- Every piece of the stream has a byte.
abbrev pub Pieces : List Arrival → Type 0
Pieces [] = Unit {0}
Pieces (bytes s ∷ as') = (0 < length s) × Pieces as'
Pieces (_ ∷ as') = Pieces as'

-- An end of the stream, a failure or bytes.
abbrev pub Answers : List Arrival → Type 0
Answers [] = ⊥
Answers (blocked true ∷ as') = Answers as'
Answers (_ ∷ as') = Unit {0}

record Right (size : ℕ) (as' : List Arrival) (r : Received) : Type 0 where
  length : length r.text ≡ r.result.size
  within : r.result.size ≤ size
  order : r.text ++ all_bytes r.rest ≡ all_bytes as'
  progress : (r.result.ec ≡ ok) ↔ (0 < r.result.size)

keep-all : (s : Str) (as' : List Arrival) → all_bytes (keep_rest s as') ≡ s ++ all_bytes as'
keep-all [] as' = refl
keep-all (c ∷ cs) as' = refl

ok_ne : (e : Errc) → e ≡ not_connected → e ≡ ok → ⊥
ok_ne e h g = no (sym h ∙ g)
  where
    no : not_connected ≡ ok → ⊥
    no z = cc

-- A read that gives nothing.
nothing-Right :
    (size : ℕ) (as' rest : List Arrival)
    → all_bytes rest ≡ all_bytes as'
    → Right size as'
        (record { result = record { size = 0; ec = not_connected }; text = []; rest = rest })
nothing-Right size as' rest h = record {
  length = refl;
  within = omega arith;
  order = h;
  progress = (λ e. absurd (ok_ne not_connected refl e), λ l. absurd (omega arith));
}

-- On a connection, with a buffer that is not empty and once there is an answer, a read ends. What it
-- put into the buffer is as long as it says and fits; together with what later reads still get it is
-- the stream, so no byte is lost or repeated; and it reports success just if there is a byte.
pub recv-Right :
    (as' : List Arrival) (size : ℕ)
    → Pieces as'
    → Answers as'
    → 0 < size
    → (r : Received) × (recv as' size ≡ some r)
      × (length r.text ≡ r.result.size)
      × (r.result.size ≤ size)
      × (r.text ++ all_bytes r.rest ≡ all_bytes as')
      × ((r.result.ec ≡ ok) ↔ (0 < r.result.size))
unfolding recv checked imm_recv gives
recv-Right [] size p a l = absurd a
recv-Right (bytes s ∷ as') size (p, ps) a l =
    let short : length (take size s) ≡ min size (length s) = length-take size s in
    let some_byte : (length (take size s) == 0) ≡ false = ground (arith, short) in
    (
      record {
        result = record { size = length (take size s); ec = ok };
        text = take size s;
        rest = keep_rest (drop size s) as';
      },
      rw some_byte refl,
      refl,
      omega (arith, short),
      ap (λ l. take size s ++ l) (keep-all (drop size s) as')
          ∙ sym (append_assoc (take size s) (drop size s) (all_bytes as'))
          ∙ ap (λ l. l ++ all_bytes as') (take-append-drop size s),
      (λ e. omega (arith, short), λ e. refl),
    )
recv-Right (closed ∷ as') size p a l =
    let h = nothing-Right size (closed ∷ as') (closed ∷ as') refl in
    (_, refl, h.length, h.within, h.order, h.progress)
recv-Right (blocked true ∷ as') size p a l = recv-Right as' size p a l
recv-Right (blocked false ∷ as') size p a l =
    let h = nothing-Right size (blocked false ∷ as') as' refl in
    (_, refl, h.length, h.within, h.order, h.progress)
recv-Right (fault e ∷ as') size p a l =
    let h = nothing-Right size (fault e ∷ as') as' refl in
    (_, refl, h.length, h.within, h.order, h.progress)
