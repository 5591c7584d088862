-- ===== src/Dns/Header/Tests.antt =====
-- The header on the bytes of a query.
use net_cpp.Prelude.{◌≡◌, refl, some, ◌++◌, arith, replicate, Str, codes}
use net_cpp.Dns.Header.FlagWord.{Flags, FitsFields}
use net_cpp.Dns.Header.{Header, serialize, deserialize}
use net_cpp.Dns.Header.RoundTrip.{FitsHeader, deserialize-serialize}

-- A standard query with recursion desired.
abbrev query_flags : Flags
query_flags = record {
  qr = 0;
  opcode = 0;
  aa = 0;
  tc = 0;
  rd = 1;
  ra = 0;
  z = 0;
  ad = 1;
  cd = 0;
  rcode = 0;
}

query_flags_fit : FitsFields query_flags
query_flags_fit = record {
  qr = omega arith;
  opcode = omega arith;
  aa = omega arith;
  tc = omega arith;
  rd = omega arith;
  ra = omega arith;
  z = omega arith;
  ad = omega arith;
  cd = omega arith;
  rcode = omega arith;
}

abbrev query : Header
query = record {
  id = 0x1234;
  flags = query_flags;
  qdcount = 1;
  ancount = 0;
  nscount = 0;
  arcount = 0;
}

query_fits : FitsHeader query
query_fits = record {
  id = omega arith;
  flags = query_flags_fit;
  qdcount = omega arith;
  ancount = omega arith;
  nscount = omega arith;
  arcount = omega arith;
}

deserialize-serialize_example :
    (buf : Str) × (serialize query (replicate 12 0 ++ codes "rest") ≡ some buf)
    × (deserialize buf ≡ some (query, codes "rest"))
deserialize-serialize_example =
    deserialize-serialize query (replicate 12 0) (codes "rest") query_fits refl
