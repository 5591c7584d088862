-- ===== src/Http/Media/Laws.antt =====
-- What a file extension can give, and the order between media types.
use net_cpp.Prelude.{
  ℕ, ◌≡◌, refl, inl, inr, Bool, true, false, ◌&&◌, Option, none, some, List, [], ◌∷◌, ◌++◌, arith,
  Option-cases, get_elem?, Str, str_eq, str_eq→eq, str_eq_refl, str_eq_iff,
}
use mathlib.Core.Bool.{false≢true}
use net_cpp.Prelude.Search.{find_char}
use net_cpp.Http.Tables.{index_of, index_of_sound}
use net_cpp.Http.Media.Names.{any, application_octet_stream}
use net_cpp.Http.Media.Tables.{extension_to_media_type, common_media_types}
use net_cpp.Http.Media.{
  MediaType, find_key, main_type, sub_type, at_slash, from_extension, type_includes,
}

-- A text of the array with exactly one slash, at which it is cut.
abbrev is_common : Str → Bool
is_common s = elim (index_of s common_media_types) [ none ↦ false | some i ↦ true ]

abbrev well_cut : Option MediaType → Bool
well_cut none = false
well_cut (some m) =
    elim (find_char b'/' (main_type m)) [ none ↦ true | _ ↦ false ]
    && elim (find_char b'/' (sub_type m)) [ none ↦ true | _ ↦ false ]
    && str_eq (main_type m ++ b'/' ∷ sub_type m) m.text
    && is_common m.text

abbrev all_values : List (Str × Str) → Bool
all_values [] = true
all_values ((k, v) ∷ m) = well_cut (at_slash v) && all_values m

values_table :
    (all_values extension_to_media_type ≡ true)
    × (well_cut (at_slash application_octet_stream) ≡ true)
unfolding main_type sub_type
values_table = (refl, refl)

all_values_sound :
    (k v : Str) (m : List (Str × Str))
    → all_values m ≡ true
    → find_key k m ≡ some v
    → well_cut (at_slash v) ≡ true
all_values_sound k v [] h f = ground arith
all_values_sound k v ((j, w) ∷ m) h f = ground (arith, all_values_sound k v m)

-- What `well_cut` tests.
abbrev pub WellCut : MediaType → Type 0
WellCut m =
    (main_type m ++ b'/' ∷ sub_type m ≡ m.text)
    × (find_char b'/' (main_type m) ≡ none)
    × (find_char b'/' (sub_type m) ≡ none)
    × ((i : ℕ) × (get_elem? common_media_types i ≡ some m.text))

is_common_sound :
    (s : Str) → is_common s ≡ true → (i : ℕ) × (get_elem? common_media_types i ≡ some s)
is_common_sound s h = elim (Option-cases (index_of s common_media_types)) [
  | inl e ↦ absurd (false≢true (rw (e, is_common) at h))
  | inr (i, e) ↦ (i, index_of_sound i s common_media_types e)
]

no_char : (o : Option ℕ) → elim o [ none ↦ true | some _ ↦ false ] ≡ true → o ≡ none
no_char none h = refl
no_char (some i) h = ground arith

split_tests :
    (a b c d : Bool) → (a && b && c && d) ≡ true → (a ≡ true) × (b ≡ true) × (c ≡ true) × (d ≡ true)
split_tests a b c d h = ground arith

well_cut_sound :
    (o : Option MediaType) → well_cut o ≡ true → (m : MediaType) × (o ≡ some m) × WellCut m
well_cut_sound none h = ground arith
well_cut_sound (some m) h =
    let (a, b, c, d) = split_tests _ _ _ _ h in
    (m, refl, (str_eq→eq _ _ c, no_char _ a, no_char _ b, is_common_sound m.text d))

-- Whatever the extension, the result is a media type of `COMMON_MEDIA_TYPES` that is cut at its
-- only slash: `start`, `slash` and `end` delimit its main type and its subtype.
pub from_extension-WellCut :
    (extension : Str) → (m : MediaType) × (from_extension extension ≡ some m) × WellCut m
unfolding from_extension
from_extension-WellCut extension =
    elim (Option-cases (find_key extension extension_to_media_type)) [
      | inl e ↦ rw e (well_cut_sound (at_slash application_octet_stream) values_table.1)
      | inr (v, e) ↦ rw e (
          well_cut_sound (at_slash v)
            (all_values_sound extension v extension_to_media_type values_table.0 e))
    ]

-- A media type of an `Accept` header includes itself.
pub type_includes_refl : (m : MediaType) → type_includes m m ≡ true
unfolding type_includes
type_includes_refl m = ground (arith, str_eq_refl (main_type m), str_eq_refl (sub_type m))

-- An entry of an `Accept` header accepts all that an entry which it includes accepts.
pub type_includes_trans :
    (a b c : MediaType)
    → type_includes a b ≡ true
    → type_includes b c ≡ true
    → type_includes a c ≡ true
unfolding type_includes
type_includes_trans a b c = ground (
  arith,
  str_eq_iff (main_type a) any,
  str_eq_iff (main_type b) any,
  str_eq_iff (main_type a) (main_type b),
  str_eq_iff (main_type b) (main_type c),
  str_eq_iff (main_type a) (main_type c),
  str_eq_iff (sub_type a) any,
  str_eq_iff (sub_type b) any,
  str_eq_iff (sub_type a) (sub_type b),
  str_eq_iff (sub_type b) (sub_type c),
  str_eq_iff (sub_type a) (sub_type c),
)
