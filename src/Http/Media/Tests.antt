-- ===== src/Http/Media/Tests.antt =====
-- The laws of `Http.Media` at concrete types.
use net_cpp.Prelude.{◌≡◌, refl, true, codes}
use net_cpp.Http.Media.{MediaType, type_includes}

abbrev all_types : MediaType
all_types = record { text = codes "*/*"; slash = 1 }

abbrev text_types : MediaType
text_types = record { text = codes "text/*"; slash = 4 }

abbrev html : MediaType
html = record { text = codes "text/html"; slash = 4 }

includes_tests :
    (type_includes all_types text_types ≡ true) × (type_includes text_types html ≡ true)
unfolding type_includes
includes_tests = (refl, refl)
