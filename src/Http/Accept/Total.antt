-- ===== src/Http/Accept/Total.antt =====
-- The parser of `Accept-Encoding` always returns.
use net_cpp.Prelude.{
  ℕ, zero, suc, ◌≤◌, ◌<◌, ◌≡◌, refl, ap, inl, inr, ◌||◌, Option, none, some, [], ◌∷◌, arith, ◌==◌,
  some_inj, Bool-cases, Option-cases, length, take, drop, length-drop, Str,
}
use net_cpp.Prelude.Search.{find_char, find_char-lt}
use net_cpp.Http.Accept.{
  Entry, Parsed, entries, out_of_range, add_entry, skip_blank, entry_of, go_on, at_comma,
  entries_from, parse_accept_encoding,
}

skip_blank-le : (s t : Str) → skip_blank s ≡ some t → length t ≤ length s
skip_blank-le [] t e = absurd (no_text e)
  where
    no_text : ◌≡◌ {A = Option Str} none (some t) → ⊥
    no_text f = cc
skip_blank-le (c ∷ cs) t e = elim (Bool-cases (c == b' ' || c == 9)) [
  | inl b ↦ omega (arith, skip_blank-le cs t (rw b at e))
  | inr b ↦ omega (arith, ap length (some_inj (rw b at e)))
]

module _ (first_parameter : Str → Option Str) where
  abbrev Returns : Option Parsed → Type 0
  Returns o = (r : Parsed) × (o ≡ some r)

  add_entry-Returns : (e : Entry) (o : Option Parsed) → Returns o → Returns (add_entry e o)
  add_entry-Returns e none (r, h) = (r, h)
  add_entry-Returns e (some out_of_range) h = (out_of_range, refl)
  add_entry-Returns e (some (entries es)) h = (entries (e ∷ es), refl)

  go_on-Returns :
      (k : Str → Option Parsed) (n : ℕ) (s : Str)
      → ((t : Str) → length t < n → Returns (k t))
      → length s < n
      → Returns (go_on first_parameter k (skip_blank s))
  go_on-Returns k n s f l = elim (Option-cases (skip_blank s)) [
    | inl e ↦ (out_of_range, rw (e, go_on) refl)
    | inr (t, e) ↦ let (r, h) = f t (omega (arith, skip_blank-le s t e)) in (r, rw (e, go_on) h)
  ]

  entries_from_total : (f : ℕ) (s : Str) → length s < f → Returns (entries_from first_parameter f s)
  unfolding entries_from
  entries_from_total zero s l = absurd (omega arith)
  entries_from_total (suc f) s l = elim (Option-cases (find_char b',' s)) [
    | inl e ↦ (entries (entry_of first_parameter s ∷ []), rw (e, at_comma) refl)
    | inr (comma, e) ↦
        let (r, h) =
          add_entry-Returns (entry_of first_parameter (take comma s))
            (go_on first_parameter (entries_from first_parameter f)
              (skip_blank (drop (suc comma) s)))
            (go_on-Returns (entries_from first_parameter f) f (drop (suc comma) s)
              (λ t m. entries_from_total f t m)
              (omega (arith, length-drop (suc comma) s, find_char-lt b',' s comma e))) in
        (r, rw (e, at_comma) h)
  ]

  -- Whatever the header, the parser returns, with the entries or with the exception.
  pub parse_accept_encoding_total :
      (s : Str) → (r : Parsed) × (parse_accept_encoding first_parameter s ≡ some r)
  unfolding parse_accept_encoding
  parse_accept_encoding_total [] = (entries [], refl)
  parse_accept_encoding_total (c ∷ cs) =
      entries_from_total (suc (length (c ∷ cs))) (c ∷ cs) (omega arith)
