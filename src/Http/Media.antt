-- ===== src/Http/Media.antt =====
-- include/xsl/net/http/proto/media-type.h, src/net/http/proto/media-type.cpp: media types as
-- pointers into a text, and the order `type_includes` of an `Accept` header.
pub mod Names
pub mod Tables
pub mod Laws
pub mod Enums
pub mod Kinds
mod Tests
use net_cpp.Prelude.{
  ℕ, zero, suc, ◌+◌, ◌-◌, ◌*◌, ◌/◌, ◌%◌, ◌^◌, ◌≤◌, ◌<◌, min, bit_and, bit_or, ◌≡◌, refl, sym, ap,
  ap₂, ◌∙◌, ◌≢◌, ◌↔◌, ◌⊎◌, inl, inr, Bool, true, false, not, ◌&&◌, ◌||◌, Option, none, some, List,
  [], ◌∷◌, ◌++◌, append-nil, append_assoc, arith, ltb, leb, ◌==◌, if◌then◌else◌, ltb→lt, lt→ltb,
  leb→le, ==_iff, Bool-cases, Option-cases, length, get_elem?, get_or, set, take, drop, replicate,
  length-append, length-set, get_or-set_self, get_or-set_ne, take-append, drop-append, length-take,
  length-drop, Str, codes, str_eq, str_eq→eq, str_eq_refl, eq→str_eq, str_eq_iff, all_below,
  all_below_sound,
}
use net_cpp.Prelude.Search.{find_char}
use net_cpp.Http.Media.Names.{any, application_octet_stream}
use net_cpp.Http.Media.Tables.{extension_to_media_type}

-- `MediaTypeBase`: the text from `start` to `end`, and where `slash` points in it.
pub record MediaType : Type 0 where
  pub text : Str
  pub slash : ℕ

-- `us_map::find`, for any map with texts as keys.
abbrev pub find_key {ℓ} : {V : Type ℓ} → Str → List (Str × V) → Option V
find_key k [] = none
find_key k ((j, v) ∷ m) = if str_eq j k then some v else find_key k m

pub main_type : MediaType → Str
main_type m = take m.slash m.text

pub sub_type : MediaType → Str
sub_type m = drop (suc m.slash) m.text

-- `none` where `find` gives `npos` and the pointer would leave the text.
abbrev pub at_slash : Str → Option MediaType
at_slash s = elim (find_char b'/' s) [
  | none ↦ none
  | some i ↦ some (record { text = s; slash = i })
]

-- `MediaTypeBase::from_extension`
pub from_extension : Str → Option MediaType
from_extension extension = elim (find_key extension extension_to_media_type) [
  | none ↦ at_slash application_octet_stream
  | some media_type ↦ at_slash media_type
]

-- `MediaTypeBase::type_includes`
pub type_includes : MediaType → MediaType → Bool
unfolding main_type sub_type
type_includes this other =
    if str_eq (main_type this) any
    then true
    else if not (str_eq (main_type this) (main_type other))
    then false
    else if str_eq (sub_type this) any
    then true
    else str_eq (sub_type this) (sub_type other)
