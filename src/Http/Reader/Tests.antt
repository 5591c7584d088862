-- ===== src/Http/Reader/Tests.antt =====
-- The reader on a head that comes in two pieces.
use net_cpp.Prelude.{◌≤◌, ◌<◌, ◌≡◌, some, List, [], ◌∷◌, ◌++◌, arith, length, Str, codes}
use net_cpp.Http.Message.{MessageRestView}
use net_cpp.Http.Reader.{Window, Outcome, end_of, block_size, read_rest}
use net_cpp.Http.Reader.Pieces.{bytes, Right, read_rest-Right}

abbrev empty : MessageRestView
empty = record { headers = []; content_part = [] }

abbrev start : Window
start = record { begin = 7; text = codes "Ho" }

abbrev pieces : List Str
pieces = codes "st: a" ∷ (13 ∷ 10 ∷ 13 ∷ []) ∷ (10 ∷ codes "body") ∷ []

start_inside : end_of start ≤ block_size
start_inside = omega arith

enough : length (bytes pieces) < 20
enough = omega arith

read_rest-Right_example :
    (r : Outcome) × (read_rest 20 empty start pieces ≡ some r)
    × Right empty (start.text ++ bytes pieces) r
read_rest-Right_example = read_rest-Right 20 empty start pieces start_inside enough
