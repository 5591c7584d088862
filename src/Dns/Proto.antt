-- ===== src/Dns/Proto.antt =====
-- include/xsl/net/dns/proto/def.h: response codes, types and classes of records.
-- An enumeration with an 8- or 16-bit base is that number; a read past a table is `none`.
pub mod Laws
mod Tests
use net_cpp.Prelude.{
  ℕ, zero, suc, ◌+◌, ◌-◌, ◌*◌, ◌/◌, ◌%◌, ◌^◌, ◌≤◌, ◌<◌, min, bit_and, bit_or, ◌≡◌, refl, sym, ap,
  ap₂, ◌∙◌, ◌≢◌, ◌↔◌, ◌⊎◌, inl, inr, Bool, true, false, not, ◌&&◌, ◌||◌, Option, none, some, List,
  [], ◌∷◌, ◌++◌, append-nil, append_assoc, arith, ltb, leb, ◌==◌, if◌then◌else◌, ltb→lt, lt→ltb,
  leb→le, ==_iff, Bool-cases, Option-cases, length, get_elem?, get_or, set, take, drop, replicate,
  length-append, length-set, get_or-set_self, get_or-set_ne, take-append, drop-append, length-take,
  length-drop, Str, codes, str_eq, str_eq→eq, str_eq_refl, eq→str_eq, str_eq_iff, all_below,
  all_below_sound,
}
use net_cpp.Errc.{
  Errc, ok, invalid_argument, io_error, no_such_file_or_directory, function_not_supported,
  operation_not_permitted, protocol_error,
}

abbrev pub rcode_strings : List Str
rcode_strings =
    codes "No Error"
    ∷ codes "Format Error"
    ∷ codes "Server Failure"
    ∷ codes "Name Error"
    ∷ codes "Not Implemented"
    ∷ codes "Refused"
    ∷ []

-- The status of each enumerator of `RCode`, in the order of the `case` labels of `to_errc`.
abbrev pub rcode_errcs : List Errc
rcode_errcs =
    ok ∷ invalid_argument ∷ io_error ∷ no_such_file_or_directory ∷ function_not_supported
    ∷ operation_not_permitted ∷ []

abbrev pub or_default : Option Errc → Errc
or_default none = protocol_error
or_default (some e) = e

-- `RCode::to_errc` and `RCode::to_string_view`
pub rcode_to_errc : ℕ → Errc
rcode_to_errc code = or_default (get_elem? rcode_errcs code)

pub rcode_to_string : ℕ → Option Str
rcode_to_string code = get_elem? rcode_strings code

abbrev pub type_strings : List Str
type_strings =
    codes "A"
    ∷ codes "NS"
    ∷ codes "MD"
    ∷ codes "MF"
    ∷ codes "CNAME"
    ∷ codes "SOA"
    ∷ codes "MB"
    ∷ codes "MG"
    ∷ codes "MR"
    ∷ codes "NULL"
    ∷ codes "WKS"
    ∷ codes "PTR"
    ∷ codes "HINFO"
    ∷ codes "MINFO"
    ∷ codes "MX"
    ∷ codes "TXT"
    ∷ codes "AXFR"
    ∷ codes "MAILB"
    ∷ codes "MAILA"
    ∷ codes "ANY"
    ∷ []

abbrev pub max_consecutive_type_index : ℕ
max_consecutive_type_index = 16

abbrev pub unknown_text : Option Str
unknown_text = some (codes "Unknown")

-- `Type::to_string_view`
pub type_to_string : ℕ → Option Str
type_to_string t =
    if ltb t 1
    then unknown_text
    else if ltb t max_consecutive_type_index
    then get_elem? type_strings (t - 1)
    else if ltb t 252
    then unknown_text
    else if ltb t 256
    then get_elem? type_strings (t - 252 + max_consecutive_type_index)
    else unknown_text

abbrev pub class_strings : List Str
class_strings = codes "IN" ∷ codes "CS" ∷ codes "CH" ∷ codes "HS" ∷ codes "ANY" ∷ []

abbrev pub max_consecutive_class_index : ℕ
max_consecutive_class_index = 4

-- `Class::to_string_view`
pub class_to_string : ℕ → Option Str
class_to_string c =
    if ltb c 1
    then unknown_text
    else if ltb c max_consecutive_class_index
    then get_elem? class_strings (c - 1)
    else if ltb c 255
    then unknown_text
    else get_elem? class_strings max_consecutive_class_index
