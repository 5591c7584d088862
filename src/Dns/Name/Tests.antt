-- ===== src/Dns/Name/Tests.antt =====
-- Names in a small message.
use net_cpp.Prelude.{◌≡◌, refl, none, some, [], ◌∷◌, ◌++◌, arith, Str, codes}
use net_cpp.Dns.Name.{finished, rest, decompress, skip_dn}
use net_cpp.Dns.Name.Encode.{Labels, AllLabels, encode}
use net_cpp.Dns.Name.Decompress.{decompress_pointer}
use net_cpp.Dns.Name.Cycle.{PointsToItself, decompress_cycle}
use net_cpp.Dns.Name.Skip.{skip_plain}

abbrev domain : Labels
domain = codes "ab" ∷ codes "c" ∷ []

abbrev host : Labels
host = codes "w" ∷ []

domain_ok : AllLabels domain
domain_ok = ((omega arith, omega arith), ((omega arith, omega arith), tt))

host_ok : AllLabels host
host_ok = ((omega arith, omega arith), tt)

-- The domain at offset 0, then the host with a pointer to the domain at offset 6.
abbrev message : Str
message = encode domain ++ (0 ∷ (encode host ++ (0xc0 ∷ 0 ∷ codes "x")))

decompress_pointer_example : decompress 5 message 6 ≡ some (finished (codes "w.ab.c.") 4)
decompress_pointer_example =
    decompress_pointer message host domain 6 0 (codes "x") (encode host ++ (0xc0 ∷ 0 ∷ codes "x"))
      host_ok domain_ok refl refl (omega arith) (omega arith) (omega arith) (omega arith)

self_pointer : PointsToItself (0xc0 ∷ 0 ∷ []) 0
self_pointer = (refl, refl, omega arith)

decompress_cycle_example : decompress 1000 (0xc0 ∷ 0 ∷ []) 0 ≡ none
decompress_cycle_example = decompress_cycle (0xc0 ∷ 0 ∷ []) 0 self_pointer 1000

skip_plain_example : skip_dn (encode domain ++ (0 ∷ codes "x")) ≡ some (rest (codes "x"))
skip_plain_example = skip_plain domain (codes "x") domain_ok
