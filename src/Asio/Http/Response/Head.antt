-- ===== src/Asio/Http/Response/Head.antt =====
-- The head in a buffer is the head as a text.
use net_cpp.Prelude.{
  ℕ, ◌+◌, ◌≡◌, refl, ap, inl, inr, Bool, true, false, Option, none, some, List, [], ◌∷◌, ◌++◌,
  arith, ltb, leb, if◌then◌else◌, Bool-cases, Option-cases, length, length-append, Str, codes,
}
use net_cpp.Asio.Http.Response.{
  ResponsePart, crlf, api_version, line_texts, text_entries, text_server, text_of, map_option,
  to_string, append, render_entries, render_server, or_empty, render_of, render_head,
}

-- A buffer that holds a text if it fits.
abbrev Fits : ℕ → Str → Option Str → Type 0
Fits room s r = r ≡ (if leb (length s) room then some s else none)

append-Fits :
    (room : ℕ) (s t : Str) (r : Option Str) → Fits room s r → Fits room (s ++ t) (append room t r)
unfolding append
append-Fits room s t r h = elim (Bool-cases (leb (length s) room)) [
  | inr e ↦
      let long : leb (length (s ++ t)) room ≡ false = ground (arith, length-append s t) in
      rw (h, e, long) refl
  | inl e ↦ elim (Bool-cases (leb (length (s ++ t)) room)) [
    | inl f ↦
        let short : ltb room (length s + length t) ≡ false = ground (arith, length-append s t) in
        rw (h, e, f) (rw short refl)
    | inr f ↦
        let long : ltb room (length s + length t) ≡ true = ground (arith, length-append s t) in
        rw (h, e, f) (rw long refl)
  ]
]

start-Fits : (room : ℕ) → Fits room [] (some [])
start-Fits room = let h : leb 0 room ≡ true = ground arith in rw h refl

entries-Fits :
    (room : ℕ) (m : List (Str × Str)) (s : Str) (r : Option Str)
    → Fits room s r
    → Fits room (text_entries m s) (render_entries room m r)
unfolding text_entries render_entries
entries-Fits room [] s r h = h
entries-Fits room ((k, v) ∷ m) s r h = entries-Fits room m _ _ (
    append-Fits room _ crlf _
      (append-Fits room _ v _ (append-Fits room _ (codes ": ") _ (append-Fits room s k r h))))

server-Fits :
    (room : ℕ) (b : Bool) (s : Str) (r : Option Str)
    → Fits room s r
    → Fits room (text_server b s) (render_server room b r)
unfolding text_server render_server
server-Fits room true s r h = h
server-Fits room false s r h =
    append-Fits room _ crlf _
      (append-Fits room _ api_version _ (append-Fits room s (codes "Server: ") r h))

or_empty-Fits :
    (room : ℕ) (s : Str) (r : Option Str)
    → Fits room s r
    → or_empty r ≡ (if leb (length s) room then s else [])
or_empty-Fits room s r h = elim (Bool-cases (leb (length s) room)) [
  | inl e ↦ rw (h, e) refl
  | inr e ↦ rw (h, e) refl
]

render_of-text_of :
    (p : ResponsePart) (room : ℕ) (t : Str × Str)
    → render_of p room t ≡ (if leb (length (text_of p t)) room then text_of p t else [])
unfolding render_of text_of
render_of-text_of p room (v, s) = or_empty-Fits room _ _ (
    append-Fits room _ crlf _ (
      server-Fits room _ _ _ (
        entries-Fits room p.headers.overflow _ _ (
          entries-Fits room p.headers.slots _ _ (
            append-Fits room _ crlf _ (
              append-Fits room _ p.status_message _ (
                append-Fits room _ (codes " ") _ (
                  append-Fits room _ s _ (
                    append-Fits room _ (codes " ") _
                      (append-Fits room [] v (some []) (start-Fits room)))))))))))

-- The head that is rendered into a buffer is the text of the head if that is not longer than the
-- buffer, and empty otherwise.
pub render_head-to_string :
    (p : ResponsePart) (room : ℕ)
    → render_head p room ≡ map_option (λ s. if leb (length s) room then s else []) (to_string p)
unfolding render_head to_string
render_head-to_string p room = elim (Option-cases (line_texts p)) [
  | inl e ↦ rw e refl
  | inr (t, e) ↦ rw e (ap some (render_of-text_of p room t))
]
