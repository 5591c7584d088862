-- ===== src/Dns/Name/Skip.antt =====
-- `skip_dn` on names in the encoding of RFC 1035.
use net_cpp.Prelude.{
  ℕ, suc, ◌+◌, ◌-◌, ◌≤◌, ◌<◌, ◌≡◌, refl, ap, ◌∙◌, true, false, some, [], ◌∷◌, ◌++◌, append_assoc,
  arith, leb, ◌==◌, le→leb, length, get_elem?, drop, length-append, length-drop, Str,
}
use net_cpp.Dns.Name.{rest, bad, skip_from, skip_dn}
use native.Mathlib.Nat.{zero-add}
use net_cpp.Dns.Name.Encode.{Labels, AllLabels, encode, high_bits-label, high_bits-pointer}
use net_cpp.Dns.Name.Decompress.{get_elem?_of_drop, drop_further, length-encode}

module _ (src : Str) where
  -- The loop over the labels, up to what follows them.
  skip_from-labels :
      (ls : Labels) (f offset : ℕ) (tail : Str)
      → AllLabels ls
      → drop offset src ≡ encode ls ++ tail
      → (offset' : ℕ) × (offset' ≡ offset + length (encode ls))
        × (drop offset' src ≡ tail)
        × (skip_from (length ls + f) src offset ≡ skip_from f src offset')
  unfolding skip_from
  skip_from-labels [] f offset tail ok at = (offset, omega arith, at, rw (zero-add))
  skip_from-labels (l ∷ ls) f offset tail (here, ok) at =
      let at' : drop offset src ≡ (length l ∷ l) ++ (encode ls ++ tail) =
        at ∙ ap (λ t. length l ∷ t) (append_assoc l (encode ls) tail) in
      let next : drop (offset + (length l + 1)) src ≡ encode ls ++ tail =
        ap (λ k. drop k src)
          (let e : offset + (length l + 1) ≡ offset + suc (length l) = omega arith in e)
        ∙ drop_further offset src (length l ∷ l) (encode ls ++ tail) at' in
      let (offset', q, at2, e) = skip_from-labels ls f (offset + (length l + 1)) tail ok next in
      let first : get_elem? src offset ≡ some (length l) =
        get_elem?_of_drop offset src (l ++ (encode ls ++ tail)) (length l) at' in
      let not_end : (length l == 0) ≡ false = ground arith in
      let fuel : suc (length ls) + f ≡ suc (length ls + f) = omega arith in
      (
        offset',
        omega (arith, length-encode l ls),
        at2,
        ap (λ k. skip_from k src offset) fuel
            ∙ rw first (rw (not_end, high_bits-label (length l) here.1) e),
      )

labels-le : (ls : Labels) → length ls ≤ length (encode ls)
labels-le [] = omega arith
labels-le (l ∷ ls) = omega (arith, labels-le ls, length-encode l ls)

-- `skip_dn` stands behind the labels after as many rounds.
at_tail :
    (ls : Labels) (x : ℕ) (tail : Str)
    → AllLabels ls
    → (f offset : ℕ) × (drop offset (encode ls ++ (x ∷ tail)) ≡ x ∷ tail)
      × (skip_dn (encode ls ++ (x ∷ tail)) ≡ skip_from (suc f) (encode ls ++ (x ∷ tail)) offset)
unfolding skip_dn
at_tail ls x tail ok =
    let src = encode ls ++ (x ∷ tail) in
    let f : ℕ = length src - length ls in
    let (offset, q, at, e) = skip_from-labels src ls (suc f) 0 (x ∷ tail) ok refl in
    let fuel : suc (length src) ≡ length ls + suc f =
      omega (arith, labels-le ls, length-append (encode ls) (x ∷ tail)) in
    (f, offset, at, ap (λ k. skip_from k src 0) fuel ∙ e)

module _ (ls : Labels) (post : Str) (ok : AllLabels ls) where
  -- A name written out in full is skipped to the byte behind its end.
  pub skip_plain : skip_dn (encode ls ++ (0 ∷ post)) ≡ some (rest post)
  unfolding skip_from
  skip_plain =
      let (f, offset, at, e) = at_tail ls 0 post ok in
      let src = encode ls ++ (0 ∷ post) in
      let first : get_elem? src offset ≡ some 0 = get_elem?_of_drop offset src post 0 at in
      let inside : leb (offset + 1) (length src) ≡ true =
        le→leb _ _ (omega (arith, ap length at, length-drop offset src)) in
      e ∙ rw first (rw (inside, drop_further offset src (0 ∷ []) post at))

  -- A name that ends in a pointer to one of the first 256 bytes is skipped to the byte behind it.
  pub skip_pointer : (c : ℕ) → skip_dn (encode ls ++ (0xc0 ∷ c ∷ post)) ≡ some (rest post)
  unfolding skip_from
  skip_pointer c =
      let (f, offset, at, e) = at_tail ls 0xc0 (c ∷ post) ok in
      let src = encode ls ++ (0xc0 ∷ c ∷ post) in
      let first : get_elem? src offset ≡ some 0xc0 =
        get_elem?_of_drop offset src (c ∷ post) 0xc0 at in
      let two : offset + 1 + 1 ≡ offset + 2 = omega arith in
      let inside : leb (offset + 2) (length src) ≡ true =
        le→leb _ _ (omega (arith, ap length at, length-drop offset src)) in
      e ∙ rw first (rw (two) (rw (inside, drop_further offset src (0xc0 ∷ c ∷ []) post at)))

  -- A name that ends in a pointer to a later byte, as RFC 1035 allows, is rejected.
  pub skip_far_pointer :
      (h c : ℕ) → 0 < h → h < 64 → skip_dn (encode ls ++ ((0xc0 + h) ∷ c ∷ post)) ≡ some bad
  unfolding skip_from
  skip_far_pointer h c pos small =
      let (f, offset, at, e) = at_tail ls (0xc0 + h) (c ∷ post) ok in
      let src = encode ls ++ ((0xc0 + h) ∷ c ∷ post) in
      let first : get_elem? src offset ≡ some (0xc0 + h) =
        get_elem?_of_drop offset src (c ∷ post) (0xc0 + h) at in
      let not_end : (0xc0 + h == 0) ≡ false = ground arith in
      let not_c0 : (0xc0 + h == 0xc0) ≡ false = ground arith in
      e ∙ rw first (rw (not_end, high_bits-pointer h small, not_c0))
