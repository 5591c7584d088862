-- ===== src/Http/Line.antt =====
-- The first line of a message: three texts with blanks between them.
use net_cpp.Prelude.{
  ℕ, ◌+◌, ◌≡◌, refl, sym, ap, ◌∙◌, inl, inr, Bool, true, false, ◌&&◌, Option, none, some, List, ◌∷◌,
  ◌++◌, arith, Option-cases, length, get_elem?, take, drop, take-append, drop-append, Str, codes,
  all_below, all_below_sound,
}
use net_cpp.Prelude.Search.{find_char, find_crlf, drop-drop}
use net_cpp.Prelude.Lists.{get_elem?-lt}
use net_cpp.Http.Message.Print.{find_char-here, find_crlf-here, none_append}

-- A text without a blank and a carriage return.
pub record Word (s : Str) : Type 0 where
  pub no_blank : find_char b' ' s ≡ none
  pub no_return : find_char 13 s ≡ none

abbrev is_none : Option ℕ → Bool
is_none none = true
is_none (some i) = false

abbrev pub is_word : Option Str → Bool
is_word none = true
is_word (some s) = is_none (find_char b' ' s) && is_none (find_char 13 s)

is_word-Word : (s : Str) → is_word (some s) ≡ true → Word s
is_word-Word s h = elim (Option-cases (find_char b' ' s)) [
  | inr (i, e) ↦ absurd (no (rw e at h))
  | inl e ↦ elim (Option-cases (find_char 13 s)) [
    | inr (i, f) ↦ absurd (no (rw (e, f) at h))
    | inl f ↦ record { no_blank = e; no_return = f }
  ]
]
  where
    no : false ≡ true → ⊥
    no e = cc

pub words_of_table :
    (table : List Str) (i : ℕ) (s : Str)
    → all_below (length table) (λ i. is_word (get_elem? table i)) ≡ true
    → get_elem? table i ≡ some s
    → Word s
words_of_table table i s h e = is_word-Word s (
    ap is_word (sym e)
    ∙ all_below_sound (length table) (λ i. is_word (get_elem? table i)) i h
        (get_elem?-lt table i s e))

-- The search for the second separator, as its distance behind the first one; a search from
-- `npos + 1` begins at 0.
abbrev pub find_from : Option ℕ → Str → Option ℕ
find_from none line = find_char b' ' line
find_from (some sp1) line = find_char b' ' (drop (sp1 + 1) line)

abbrev pub line_text : Str → Str → Str → Str
line_text a b c = a ++ (b' ' ∷ (b ++ (b' ' ∷ c)))

-- How a line of two words and a text, with an end of the line and more behind it, is cut.
pub record Split (a b c r : Str) : Type 0 where
  pub end_found : find_crlf (line_text a b c ++ (13 ∷ 10 ∷ r)) ≡ some (length (line_text a b c))
  pub line : take (length (line_text a b c)) (line_text a b c ++ (13 ∷ 10 ∷ r)) ≡ line_text a b c
  pub first : find_char b' ' (line_text a b c) ≡ some (length a)
  pub behind : drop (length a + 1) (line_text a b c) ≡ b ++ (b' ' ∷ c)
  pub second : find_char b' ' (b ++ (b' ' ∷ c)) ≡ some (length b)
  pub start : take (length a) (line_text a b c) ≡ a
  pub middle : take (length b) (b ++ (b' ' ∷ c)) ≡ b
  pub last : drop (length a + 1 + length b + 1) (line_text a b c) ≡ c

pub split : (a b c r : Str) → Word a → Word b → find_char 13 c ≡ none → Split a b c r
split a b c r ha hb hc =
    let line = line_text a b c in
    let whole : find_char 13 line ≡ none =
      none_append 13 a (b' ' ∷ (b ++ (b' ' ∷ c))) ha.no_return (
        none_append 13 (codes " ") (b ++ (b' ' ∷ c)) refl
          (none_append 13 b (b' ' ∷ c) hb.no_return (none_append 13 (codes " ") c refl hc))) in
    let behind : drop (length a + 1) line ≡ b ++ (b' ' ∷ c) =
      sym (drop-drop (length a) 1 line) ∙ ap (drop 1) (drop-append a (b' ' ∷ (b ++ (b' ' ∷ c)))) in
    record {
      end_found = find_crlf-here line r whole;
      line = take-append line (13 ∷ 10 ∷ r);
      first = find_char-here b' ' a (b ++ (b' ' ∷ c)) ha.no_blank;
      behind = behind;
      second = find_char-here b' ' b c hb.no_blank;
      start = take-append a (b' ' ∷ (b ++ (b' ' ∷ c)));
      middle = take-append b (b' ' ∷ c);
      last =
          ap (λ n. drop n line)
            (let e : length a + 1 + length b + 1 ≡ length a + 1 + (length b + 1) = omega arith in e)
          ∙ sym (drop-drop (length a + 1) (length b + 1) line)
          ∙ ap (drop (length b + 1)) behind
          ∙ sym (drop-drop (length b) 1 (b ++ (b' ' ∷ c)))
          ∙ ap (drop 1) (drop-append b (b' ' ∷ c));
    }
