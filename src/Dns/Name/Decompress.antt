-- ===== src/Dns/Name/Decompress.antt =====
-- The decompressor finds the labels of a name, also behind a pointer.
use net_cpp.Prelude.{
  ℕ, zero, suc, ◌+◌, ◌/◌, ◌%◌, ◌^◌, ◌≤◌, ◌<◌, ◌≡◌, refl, sym, ap, ap₂, ◌∙◌, Bool, true, false, not,
  ◌&&◌, some, [], ◌∷◌, ◌++◌, append-nil, append_assoc, arith, ◌==◌, lt→ltb, le→leb, length,
  get_elem?, drop, length-append, take-append, drop-append, length-drop, Str,
}
use net_cpp.Prelude.Search.{drop-drop}
use native.Mathlib.Nat.{zero-add, add-zero}
use net_cpp.Dns.Name.{
  finished, high_bits, copy_label, prepare_rest, decompress_from, decompress, max_name,
}
use net_cpp.Dns.Name.Encode.{
  Labels, IsLabel, AllLabels, encode, dotted, high_bits-label, high_bits-pointer, target-pointer,
}

pub get_elem?_of_drop : (n : ℕ) (xs ys : Str) (x : ℕ) → drop n xs ≡ x ∷ ys → get_elem? xs n ≡ some x
get_elem?_of_drop zero [] ys x h = cc
get_elem?_of_drop zero (y ∷ xs) ys x h = cc
get_elem?_of_drop (suc n) [] ys x h = cc
get_elem?_of_drop (suc n) (y ∷ xs) ys x h = get_elem?_of_drop n xs ys x h

-- What stands behind the bytes `l`.
pub drop_further : (n : ℕ) (xs l ys : Str) → drop n xs ≡ l ++ ys → drop (n + length l) xs ≡ ys
drop_further n xs l ys h =
    sym (drop-drop n (length l) xs) ∙ ap (drop (length l)) h ∙ drop-append l ys

-- A label at `ptr`, with room for it in the message below offset 0x4000 and in the buffer.
module _ (msg l r buf : Str) (ptr : ℕ) (at : drop ptr msg ≡ length l ∷ (l ++ r)) (label : IsLabel l)
    (low : ptr < 0x4000) (room : length buf + length l + 1 ≤ max_name) where
  label_here : get_elem? msg ptr ≡ some (length l)
  label_here = get_elem?_of_drop ptr msg (l ++ r) (length l) at

  label_text : drop (ptr + 1) msg ≡ l ++ r
  label_text = drop_further ptr msg (length l ∷ []) (l ++ r) at

  label_next : drop (ptr + (length l + 1)) msg ≡ r
  label_next =
      ap (λ k. drop k msg) (let e : ptr + (length l + 1) ≡ ptr + suc (length l) = omega arith in e)
      ∙ drop_further ptr msg (length l ∷ l) r at

  label_inside : ptr + 1 + length l ≤ length msg
  label_inside = omega (arith, ap length at, length-drop ptr msg, length-append l r)

  copy_label_lem : copy_label msg ptr (length l) buf ≡ some (buf ++ (l ++ b'.' ∷ []))
  unfolding copy_label
  copy_label_lem =
      rw (
        lt→ltb ptr 0x4000 low,
        le→leb _ _ label_inside,
        le→leb _ _ room,
        label_text,
        take-append l r,
      )

  not_end : (length l == 0) ≡ false
  not_end = ground arith

  not_end_of_rest : (inner : Bool) → (not inner && length l == 0) ≡ false
  not_end_of_rest true = refl
  not_end_of_rest false = not_end

  prepare_rest-label :
      (f size : ℕ) (inner : Bool)
      → prepare_rest (suc f) inner msg ptr buf size
        ≡ prepare_rest f false msg (ptr + (length l + 1)) (buf ++ (l ++ b'.' ∷ [])) size
  unfolding prepare_rest
  prepare_rest-label f size inner =
      rw (label_here)
        (rw (not_end_of_rest inner, high_bits-label (length l) label.1, copy_label_lem))

  decompress_from-label :
      (f size : ℕ)
      → decompress_from (suc f) msg ptr buf size
        ≡ decompress_from f msg
            (ptr + (length l + 1))
            (buf ++ (l ++ b'.' ∷ []))
            (size + 1 + length l)
  unfolding decompress_from
  decompress_from-label f size =
      rw (label_here) (rw (not_end, high_bits-label (length l) label.1, copy_label_lem))

-- The buffer after one label, and after those that follow.
dotted-step :
    (buf l : Str) (ls : Labels) → (buf ++ (l ++ b'.' ∷ [])) ++ dotted ls ≡ buf ++ dotted (l ∷ ls)
dotted-step buf l ls =
    append_assoc buf (l ++ b'.' ∷ []) (dotted ls)
    ∙ ap (λ t. buf ++ t) (append_assoc l (b'.' ∷ []) (dotted ls))

length-dotted :
    (l : Str) (ls : Labels) → length (dotted (l ∷ ls)) ≡ length l + 1 + length (dotted ls)
length-dotted l ls = omega (arith, length-append l (b'.' ∷ dotted ls))

pub length-encode :
    (l : Str) (ls : Labels) → length (encode (l ∷ ls)) ≡ length l + 1 + length (encode ls)
length-encode l ls = omega (arith, length-append l (encode ls))

module _ (msg : Str) where
  prepare_rest-labels :
      (ls : Labels) (f ptr size : ℕ) (buf post : Str)
      → AllLabels ls
      → drop ptr msg ≡ encode ls ++ (0 ∷ post)
      → ptr + length (encode ls) ≤ 0x4000
      → length buf + length (dotted ls) ≤ max_name
      → length ls < f
      → prepare_rest f false msg ptr buf size ≡ some (finished (buf ++ dotted ls) size)
  unfolding prepare_rest
  prepare_rest-labels ls zero ptr size buf post ok at low room fuel = absurd (omega arith)
  prepare_rest-labels [] (suc f) ptr size buf post ok at low room fuel =
      rw (get_elem?_of_drop ptr msg post 0 at) (rw (append-nil))
  prepare_rest-labels (l ∷ ls) (suc f) ptr size buf post (here, ok) at low room fuel =
      let at' : drop ptr msg ≡ length l ∷ (l ++ (encode ls ++ (0 ∷ post))) =
        at ∙ ap (λ t. length l ∷ t) (append_assoc l (encode ls) (0 ∷ post)) in
      let low' : ptr < 0x4000 = omega (arith, length-encode l ls) in
      let room' : length buf + length l + 1 ≤ max_name = omega (arith, length-dotted l ls) in
      prepare_rest-label msg l (encode ls ++ (0 ∷ post)) buf ptr at' here low' room' f size false
      ∙ prepare_rest-labels ls f (ptr + (length l + 1)) size (buf ++ (l ++ b'.' ∷ [])) post ok
          (label_next msg l (encode ls ++ (0 ∷ post)) buf ptr at' here low' room')
          (omega (arith, length-encode l ls))
          (omega (
            arith,
            length-dotted l ls,
            length-append buf (l ++ b'.' ∷ []),
            length-append l (b'.' ∷ []),
          ))
          (omega arith)
      ∙ ap (λ t. some (finished t size)) (dotted-step buf l ls)

  -- The same loop in `decompress`, up to what follows the labels.
  decompress_from-labels :
      (ls : Labels) (f ptr size : ℕ) (buf tail : Str)
      → AllLabels ls
      → drop ptr msg ≡ encode ls ++ tail
      → ptr + length (encode ls) ≤ 0x4000
      → length buf + length (dotted ls) ≤ max_name
      → (ptr' : ℕ) × (drop ptr' msg ≡ tail)
        × (decompress_from (length ls + f) msg ptr buf size
            ≡ decompress_from f msg ptr' (buf ++ dotted ls) (size + length (encode ls)))
  decompress_from-labels [] f ptr size buf tail ok at low room =
      (ptr, at, rw (zero-add, append-nil, add-zero))
  decompress_from-labels (l ∷ ls) f ptr size buf tail (here, ok) at low room =
      let at' : drop ptr msg ≡ length l ∷ (l ++ (encode ls ++ tail)) =
        at ∙ ap (λ t. length l ∷ t) (append_assoc l (encode ls) tail) in
      let low' : ptr < 0x4000 = omega (arith, length-encode l ls) in
      let room' : length buf + length l + 1 ≤ max_name = omega (arith, length-dotted l ls) in
      let (ptr', at2, e) =
        decompress_from-labels ls f (ptr + (length l + 1)) (size + 1 + length l)
          (buf ++ (l ++ b'.' ∷ [])) tail ok
          (label_next msg l (encode ls ++ tail) buf ptr at' here low' room')
          (omega (arith, length-encode l ls))
          (omega (
            arith,
            length-dotted l ls,
            length-append buf (l ++ b'.' ∷ []),
            length-append l (b'.' ∷ []),
          )) in
      (
        ptr',
        at2,
        ap (λ k. decompress_from k msg ptr buf size)
              (let e' : suc (length ls) + f ≡ suc (length ls + f) = omega arith in e')
            ∙ decompress_from-label msg l (encode ls ++ tail) buf ptr at' here low' room'
                (length ls + f) size
            ∙ e
            ∙ ap₂ (λ t k. decompress_from f msg ptr' t k) (dotted-step buf l ls)
                (let e'' : size + 1 + length l + length (encode ls)
                      ≡ size + length (encode (l ∷ ls)) =
                    omega (arith, length-encode l ls) in
                  e''),
      )

  decompress_from-pointer :
      (f p off size : ℕ) (buf post : Str)
      → off < 2 ^ 14
      → drop p msg ≡ (0xc0 + off / 256) ∷ (off % 256) ∷ post
      → decompress_from (suc f) msg p buf size ≡ prepare_rest f false msg off buf (size + 2)
  unfolding decompress_from
  decompress_from-pointer f p off size buf post small at =
      let first : get_elem? msg p ≡ some (0xc0 + off / 256) =
        get_elem?_of_drop p msg ((off % 256) ∷ post) (0xc0 + off / 256) at in
      let second : get_elem? msg (p + 1) ≡ some (off % 256) =
        get_elem?_of_drop (p + 1) msg post (off % 256)
          (drop_further p msg ((0xc0 + off / 256) ∷ []) ((off % 256) ∷ post) at) in
      let not_zero : (0xc0 + off / 256 == 0) ≡ false = ground arith in
      let bits : high_bits (0xc0 + off / 256) ≡ 0xc0 =
        high_bits-pointer (off / 256) (omega arith) in
      rw first (rw (not_zero, bits, second) (rw (target-pointer off small)))

  -- A name written out in full is decompressed to its labels with a dot after each, and its size is
  -- that of its bytes.
  pub decompress_plain :
      (ls : Labels) (ptr : ℕ) (post : Str)
      → AllLabels ls
      → drop ptr msg ≡ encode ls ++ (0 ∷ post)
      → ptr + length (encode ls) ≤ 0x4000
      → length (dotted ls) ≤ max_name
      → decompress (length ls + 1) msg ptr ≡ some (finished (dotted ls) (length (encode ls) + 1))
  unfolding decompress decompress_from
  decompress_plain ls ptr post ok at low room =
      let (ptr', at', e) =
        decompress_from-labels ls 1 ptr 0 [] (0 ∷ post) ok at low (omega arith) in
      e ∙ rw (get_elem?_of_drop ptr' msg post 0 at', zero-add)

  -- A name of labels and a pointer to the labels of another name is decompressed to the labels of
  -- both, and its size is that of its own bytes, the two of the pointer included.
  pub decompress_pointer :
      (ls ms : Labels) (ptr off : ℕ) (post post' : Str)
      → AllLabels ls
      → AllLabels ms
      → drop ptr msg ≡ encode ls ++ ((0xc0 + off / 256) ∷ (off % 256) ∷ post)
      → drop off msg ≡ encode ms ++ (0 ∷ post')
      → ptr + length (encode ls) ≤ 0x4000
      → off + length (encode ms) ≤ 0x4000
      → off < 2 ^ 14
      → length (dotted ls) + length (dotted ms) ≤ max_name
      → decompress (length ls + (length ms + 2)) msg ptr
        ≡ some (finished (dotted ls ++ dotted ms) (length (encode ls) + 2))
  unfolding decompress
  decompress_pointer ls ms ptr off post post' ok ok' at at' low low' small room =
      let (p, q, e) =
        decompress_from-labels ls (length ms + 2) ptr 0 [] ((0xc0 + off / 256) ∷ (off % 256) ∷ post)
          ok at low (omega arith) in
      e
      ∙ ap (λ k. decompress_from k msg p (dotted ls) (0 + length (encode ls)))
          (let e' : length ms + 2 ≡ suc (length ms + 1) = omega arith in e')
      ∙ decompress_from-pointer (length ms + 1) p off (0 + length (encode ls)) (dotted ls) post
          small q
      ∙ prepare_rest-labels ms (length ms + 1) off (0 + length (encode ls) + 2) (dotted ls) post'
          ok' at' low' room (omega arith)
      ∙ ap (λ k. some (finished (dotted ls ++ dotted ms) k))
          (ap (λ k. k + 2) (zero-add (length (encode ls))))
