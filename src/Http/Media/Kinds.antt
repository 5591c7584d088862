-- ===== src/Http/Media/Kinds.antt =====
-- The enumerations against the tables of texts.
use net_cpp.Prelude.{
  ◌≡◌, refl, ap, ◌⊎◌, inl, inr, Bool, true, false, ◌&&◌, ◌||◌, Option, none, some, List, [], ◌∷◌,
  arith, Bool-cases, Option-cases, Str, codes, str_eq, str_eq→eq,
}
use mathlib.Core.Bool.{false≢true}
use net_cpp.Http.Media.Names.{application_octet_stream}
use net_cpp.Http.Media.Tables.{extension_to_media_type}
use net_cpp.Http.Media.{MediaType, find_key, main_type, at_slash, from_extension}
use net_cpp.Http.Media.Enums.{
  MediaMainType, main_to_string, main_is, text_is, main_any, main_text, main_image, main_audio,
  main_video, main_application, main_multipart, main_message, main_model, main_unknown,
}

-- Not one of the two enumerators that stand for no type of their own.
abbrev pub is_concrete : MediaMainType → Bool
is_concrete main_any = false
is_concrete main_unknown = false
is_concrete _ = true

abbrev all_types : List MediaMainType
all_types =
    main_any ∷ main_text ∷ main_image ∷ main_audio ∷ main_video ∷ main_application ∷ main_multipart
    ∷ main_message ∷ main_model ∷ main_unknown ∷ []

abbrev among : List MediaMainType → Str → Bool
among [] s = false
among (t ∷ ts) s = (is_concrete t && main_is t s) || among ts s

abbrev known_type : Option MediaType → Bool
known_type none = false
known_type (some m) = among all_types (main_type m) || str_eq (main_type m) (codes "font")

abbrev all_known : List (Str × Str) → Bool
all_known [] = true
all_known ((k, v) ∷ m) = known_type (at_slash v) && all_known m

known_table :
    (all_known extension_to_media_type ≡ true)
    × (known_type (at_slash application_octet_stream) ≡ true)
unfolding main_is main_to_string main_type
known_table = (refl, refl)

all_known_sound :
    (k v : Str) (m : List (Str × Str))
    → all_known m ≡ true
    → find_key k m ≡ some v
    → known_type (at_slash v) ≡ true
all_known_sound k v [] h f = ground arith
all_known_sound k v ((j, w) ∷ m) h f = ground (arith, all_known_sound k v m)

text_is_sound : (o : Option Str) (s : Str) → text_is o s ≡ true → o ≡ some s
text_is_sound none s h = absurd (false≢true h)
text_is_sound (some t) s h = ap some (str_eq→eq t s h)

main_is_sound : (t : MediaMainType) (s : Str) → main_is t s ≡ true → main_to_string t ≡ some s
unfolding main_is
main_is_sound t s h = text_is_sound (main_to_string t) s h

among_sound :
    (ts : List MediaMainType) (s : Str)
    → among ts s ≡ true
    → (t : MediaMainType) × (is_concrete t ≡ true) × (main_to_string t ≡ some s)
among_sound [] s h = absurd (false≢true h)
among_sound (t ∷ ts) s h = elim (Bool-cases (is_concrete t && main_is t s)) [
  | inl e ↦ (t, ground arith, main_is_sound t s (ground arith))
  | inr e ↦ among_sound ts s (ground arith)
]

-- An enumerator with the text of the main type, or `font`.
abbrev pub HasMainType : MediaType → Type 0
HasMainType m =
    ((t : MediaMainType) × (is_concrete t ≡ true) × (main_to_string t ≡ some (main_type m)))
    ⊎ (main_type m ≡ codes "font")

known_type_sound :
    (o : Option MediaType) → known_type o ≡ true → (m : MediaType) × (o ≡ some m) × HasMainType m
known_type_sound none h = absurd (false≢true h)
known_type_sound (some m) h = elim (Bool-cases (among all_types (main_type m))) [
  | inl e ↦ (m, refl, inl (among_sound all_types (main_type m) e))
  | inr e ↦ (m, refl, inr (str_eq→eq _ _ (ground arith)))
]

-- Whatever the extension, the main type of the result is the text of an enumerator other than `ANY`
-- and `UNKNOWN`, or `font`, which has no enumerator.
pub from_extension-HasMainType :
    (extension : Str) → (m : MediaType) × (from_extension extension ≡ some m) × HasMainType m
unfolding from_extension
from_extension-HasMainType extension =
    elim (Option-cases (find_key extension extension_to_media_type)) [
      | inl e ↦ rw e (known_type_sound (at_slash application_octet_stream) known_table.1)
      | inr (v, e) ↦ rw e (
          known_type_sound (at_slash v)
            (all_known_sound extension v extension_to_media_type known_table.0 e))
    ]
