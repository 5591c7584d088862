-- ===== src/Dns/Proto/Laws.antt =====
-- Which codes have a text.
use net_cpp.Prelude.{
  ℕ, zero, suc, ◌≤◌, ◌≡◌, refl, ◌≢◌, ◌↔◌, Bool, true, not, Option, none, some, arith, Str, codes,
  str_eq, eq→str_eq, all_below, all_below_sound,
}
use native.Mathlib.Decide.{dec_lt}
use net_cpp.Errc.{protocol_error}
use net_cpp.Dns.Proto.{rcode_to_errc, rcode_to_string, type_to_string, class_to_string}

rcode_past : (c : ℕ) → 6 ≤ c → (rcode_to_errc c ≡ protocol_error) × (rcode_to_string c ≡ none)
unfolding rcode_to_errc rcode_to_string
rcode_past (suc (suc (suc (suc (suc (suc c)))))) h = (refl, refl)
rcode_past zero h = absurd (omega arith)
rcode_past (suc zero) h = absurd (omega arith)
rcode_past (suc (suc zero)) h = absurd (omega arith)
rcode_past (suc (suc (suc zero))) h = absurd (omega arith)
rcode_past (suc (suc (suc (suc zero)))) h = absurd (omega arith)
rcode_past (suc (suc (suc (suc (suc zero))))) h = absurd (omega arith)

-- The response codes whose text is read outside its table are exactly those that `to_errc` reports
-- as a protocol error.
pub rcode_text_iff : (c : ℕ) → (rcode_to_string c ≡ none) ↔ (rcode_to_errc c ≡ protocol_error)
unfolding rcode_to_errc rcode_to_string
rcode_text_iff zero = (λ e. cc, λ e. cc)
rcode_text_iff (suc zero) = (λ e. cc, λ e. cc)
rcode_text_iff (suc (suc zero)) = (λ e. cc, λ e. cc)
rcode_text_iff (suc (suc (suc zero))) = (λ e. cc, λ e. cc)
rcode_text_iff (suc (suc (suc (suc zero)))) = (λ e. cc, λ e. cc)
rcode_text_iff (suc (suc (suc (suc (suc zero))))) = (λ e. cc, λ e. cc)
rcode_text_iff (suc (suc (suc (suc (suc (suc c)))))) = (λ e. refl, λ e. refl)

-- Not the text of the code.
abbrev differs : Str → Option Str → Bool
differs s none = true
differs s (some t) = not (str_eq t s)

differs_sound : (s : Str) (o : Option Str) → differs s o ≡ true → o ≢ some s
differs_sound s none h e = cc
differs_sound s (some t) h e = ground (arith, eq→str_eq t s)

type_table : all_below 256 (λ t. differs (codes "TXT") (type_to_string t)) ≡ true
unfolding all_below type_to_string
type_table = refl

type_past : (t : ℕ) → 256 ≤ t → differs (codes "TXT") (type_to_string t) ≡ true
unfolding type_to_string
type_past t h = ground arith

-- No type code prints as `TXT`, although the table has that text: the test for the consecutive
-- codes leaves out the last of them, 16, which prints as `Unknown`.
pub type_text_ne_txt : (t : ℕ) → type_to_string t ≢ some (codes "TXT")
type_text_ne_txt t = elim (dec_lt t 256) [
  | yes p ↦
      differs_sound _ _
        (all_below_sound 256 (λ t. differs (codes "TXT") (type_to_string t)) t type_table p)
  | no p ↦ differs_sound _ _ (type_past t (omega arith))
]

class_table : all_below 256 (λ t. differs (codes "HS") (class_to_string t)) ≡ true
unfolding all_below class_to_string
class_table = refl

class_past : (t : ℕ) → 256 ≤ t → differs (codes "HS") (class_to_string t) ≡ true
unfolding class_to_string
class_past t h = ground arith

-- No class code prints as `HS`, although the table has that text: the test for the consecutive
-- codes leaves out the last of them, 4, which prints as `Unknown`.
pub class_text_ne_hs : (c : ℕ) → class_to_string c ≢ some (codes "HS")
class_text_ne_hs c = elim (dec_lt c 256) [
  | yes p ↦
      differs_sound _ _
        (all_below_sound 256 (λ t. differs (codes "HS") (class_to_string t)) c class_table p)
  | no p ↦ differs_sound _ _ (class_past c (omega arith))
]
