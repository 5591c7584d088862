-- ===== src/Asio/Buf/Tests.antt =====
-- Blocks of eight bytes.
use net_cpp.Prelude.{◌≡◌, none, [], ◌∷◌, ◌++◌, arith, codes}
use net_cpp.Asio.Buf.{Buffer, write}
use net_cpp.Asio.Buf.Outside.{write_outside}

abbrev six : Buffer
six = record { blocks = []; last = codes "abcdef" ++ (0 ∷ 0 ∷ []); current = 6 }

write_outside_example : write 8 (codes "ghijkl") six ≡ none
write_outside_example =
    write_outside 8 (codes "ghijkl") six (omega arith) (omega arith) (omega arith) (omega arith)
