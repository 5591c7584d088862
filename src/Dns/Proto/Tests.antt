-- ===== src/Dns/Proto/Tests.antt =====
-- The texts of DNS codes at concrete codes.
use net_cpp.Prelude.{◌≡◌, refl, some, codes}
use net_cpp.Dns.Proto.{type_to_string, class_to_string}

unknown_tests :
    (type_to_string 16 ≡ some (codes "Unknown")) × (class_to_string 4 ≡ some (codes "Unknown"))
unfolding type_to_string class_to_string
unknown_tests = (refl, refl)
