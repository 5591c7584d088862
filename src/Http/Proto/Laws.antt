-- ===== src/Http/Proto/Laws.antt =====
-- The texts of methods, versions and status codes against their numbers.
use net_cpp.Prelude.{
  ℕ, ◌<◌, ◌≡◌, refl, sym, ap, ◌∙◌, ◌≢◌, ◌↔◌, inl, inr, Bool, true, false, ◌&&◌, Option, none, some,
  arith, ◌==◌, ==_iff, Option-cases, get_elem?, Str, all_below, all_below_sound,
}
use net_cpp.Prelude.Lists.{get_elem?-lt}
use net_cpp.Http.Tables.{index_of, index_of_sound, case_from, case_from-bound, case_from-le}
use native.Mathlib.Decide.{dec_lt}
use net_cpp.Http.Proto.{
  unknown, method_strings, version_strings, or_unknown, method_of_string, method_to_string,
  method_is_valid, method_count, version_of_string, version_to_string, status_codes, reason_phrases,
  status_of_string, to_index, status_to_string, status_to_reason_phrase,
}

-- The test `f (g x) == x` of a parse against the text that it came from.
abbrev back : (Str → ℕ) → Option Str → ℕ → Bool
back f none x = false
back f (some s) x = f s == x

back_sound :
    (f : Str → ℕ) (o : Option Str) (x : ℕ)
    → back f o x ≡ true
    → (s : Str) × (o ≡ some s) × (f s ≡ x)
back_sound f none x h = ground arith
back_sound f (some s) x h = (s, refl, (==_iff (f s) x).0 h)

method_table : all_below method_count (λ m. back method_of_string (method_to_string m) m) ≡ true
unfolding all_below method_of_string method_to_string
method_table = refl

-- A text that parses to a method other than `UNKNOWN` is the text which that method prints.
pub method_parse_print :
    (s : Str) → method_of_string s ≢ unknown → method_to_string (method_of_string s) ≡ some s
unfolding method_of_string method_to_string
method_parse_print s h = elim (Option-cases (index_of s method_strings)) [
  | inl e ↦ absurd (h (ap or_unknown e))
  | inr (i, e) ↦ ground (arith, index_of_sound i s method_strings e)
]

-- A valid method prints a text, and that text parses back to the method.
pub method_print_parse :
    (m : ℕ)
    → method_is_valid m ≡ true
    → (s : Str) × (method_to_string m ≡ some s) × (method_of_string s ≡ m)
unfolding method_is_valid
method_print_parse m v =
    back_sound method_of_string (method_to_string m) m
      (all_below_sound method_count _ m method_table (ground arith))

version_table : all_below 4 (λ v. back version_of_string (version_to_string v) v) ≡ true
unfolding all_below version_of_string version_to_string
version_table = refl

-- A text that parses to a version other than `UNKNOWN` is the text which that version prints.
pub version_parse_print :
    (s : Str) → version_of_string s ≢ unknown → version_to_string (version_of_string s) ≡ some s
unfolding version_of_string version_to_string
version_parse_print s h = elim (Option-cases (index_of s version_strings)) [
  | inl e ↦ absurd (h (ap or_unknown e))
  | inr (i, e) ↦ ground (arith, index_of_sound i s version_strings e)
]

-- Each of the four versions prints a text, and that text parses back to the version.
pub version_print_parse :
    (v : ℕ) → v < 4 → (s : Str) × (version_to_string v ≡ some s) × (version_of_string s ≡ v)
version_print_parse v h =
    back_sound version_of_string (version_to_string v) v (all_below_sound 4 _ v version_table h)

-- A code of the enumeration.
abbrev pub IsListed : ℕ → Type 0
IsListed c = (i : ℕ) × (get_elem? status_codes i ≡ some c)

abbrev in_range : Option Str → Bool
in_range none = false
in_range (some s) = true

in_range_sound : (o : Option Str) → in_range o ≡ true → (s : Str) × (o ≡ some s)
in_range_sound none h = ground arith
in_range_sound (some s) h = (s, refl)

abbrev at_code : Option ℕ → Bool
at_code none = false
at_code (some c) =
    back status_of_string (status_to_string c) c && in_range (status_to_reason_phrase c)

status_table : all_below 44 (λ i. at_code (get_elem? status_codes i)) ≡ true
unfolding all_below status_of_string status_to_string status_to_reason_phrase
status_table = refl

at_listed : (c : ℕ) → IsListed c → at_code (some c) ≡ true
at_listed c (i, e) =
    ap at_code (sym e)
    ∙ all_below_sound 44 (λ i. at_code (get_elem? status_codes i)) i status_table
        (get_elem?-lt status_codes i c e)

to_index_unlisted : (c : ℕ) → ¬ (IsListed c) → to_index c ≡ 44
unfolding to_index
to_index_unlisted c h = elim (dec_lt (case_from 0 c status_codes) 44) [
  | yes p ↦ let (j, e, f) = case_from-bound 0 c status_codes p in absurd (h (j, f))
  | no p ↦ omega (arith, case_from-le 0 c status_codes)
]

-- A status code of the enumeration prints a three-digit text that parses back to it.
pub status_round_trip :
    (c : ℕ) → IsListed c → (s : Str) × (status_to_string c ≡ some s) × (status_of_string s ≡ c)
status_round_trip c l =
    back_sound status_of_string (status_to_string c) c (ground (arith, at_listed c l))

IsListed-of_index : (c : ℕ) → to_index c < 44 → IsListed c
unfolding to_index
IsListed-of_index c h = let (j, e, f) = case_from-bound 0 c status_codes h in (j, f)

IsListed-reason : (c : ℕ) → ((p : Str) × (status_to_reason_phrase c ≡ some p)) → IsListed c
unfolding status_to_reason_phrase
IsListed-reason c (p, e) = IsListed-of_index c (get_elem?-lt reason_phrases (to_index c) p e)

-- For a code that is not in the enumeration `to_index` is 44, one past the last of the 44 reason
-- phrases: `to_reason_phrase` reads outside its table.
pub reason_phrase_out_of_range : (c : ℕ) → ¬ (IsListed c) → status_to_reason_phrase c ≡ none
unfolding status_to_reason_phrase
reason_phrase_out_of_range c h = ap (get_elem? reason_phrases) (to_index_unlisted c h)

-- `to_reason_phrase` reads inside its table exactly for the codes of the enumeration.
pub reason_phrase_in_range :
    (c : ℕ) → IsListed c ↔ ((p : Str) × (status_to_reason_phrase c ≡ some p))
reason_phrase_in_range c = (
  (λ l. in_range_sound (status_to_reason_phrase c) (ground (arith, at_listed c l))),
  (λ h. IsListed-reason c h),
)
