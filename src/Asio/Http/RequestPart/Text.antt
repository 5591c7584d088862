-- ===== src/Asio/Http/RequestPart/Text.antt =====
-- What a builder holds is the text of its calls.
use net_cpp.Prelude.{
  ℕ, zero, suc, ◌+◌, ◌-◌, ◌*◌, ◌≤◌, ◌<◌, ◌≡◌, refl, sym, ap, ◌∙◌, inl, inr, true, false, none, some,
  List, [], ◌∷◌, ◌++◌, append-nil, append_assoc, arith, ltb, leb, ◌==◌, leb→le, Bool-cases, length,
  take, drop, length-append, take-append, length-drop, length-take, replicate, Str,
}
use net_cpp.Prelude.Search.{take-append-drop}
use net_cpp.Asio.Http.Response.{map_option}
use net_cpp.Asio.Http.RequestPart.{
  block_size, RequestPartBuilder, check_append, copy_blocks, written, append_rest, append, block_of,
  blocks_text,
}

-- The text of a builder without the end of the head.
unfoldable pub text : RequestPartBuilder → Str
text b = blocks_text b.full ++ b.last

-- The last block has its size at most.
unfoldable pub IsValid : RequestPartBuilder → Type 0
IsValid b = length b.last ≤ block_size

block_of_full : (s : Str) → length s ≡ block_size → block_of s ≡ s
unfolding block_of
block_of_full s h =
    ap (λ n. take n (s ++ replicate block_size 0)) (sym h) ∙ take-append s (replicate block_size 0)

-- A block that was filled up, behind the others.
blocks_text-append :
    (bs : List Str) (s : Str)
    → length s ≡ block_size
    → blocks_text (bs ++ (s ∷ [])) ≡ blocks_text bs ++ s
unfolding blocks_text
blocks_text-append [] s h = append-nil (block_of s) ∙ block_of_full s h
blocks_text-append (b ∷ bs) s h =
    ap (λ l. block_of b ++ l) (blocks_text-append bs s h)
    ∙ sym (append_assoc (block_of b) (blocks_text bs) s)

check_append-text :
    (b : RequestPartBuilder)
    → IsValid b
    → (text (check_append b) ≡ text b) × (length (check_append b).last < block_size)
unfolding check_append text IsValid
check_append-text b h = elim (Bool-cases (length b.last == block_size)) [
  | inl e ↦ rw e (append-nil _ ∙ blocks_text-append b.full b.last (ground arith), omega arith)
  | inr e ↦ rw e (refl, ground arith)
]

check_append_count : (b : RequestPartBuilder) → length (check_append b).full ≤ length b.full + 1
unfolding check_append
check_append_count b = elim (Bool-cases (length b.last == block_size)) [
  | inl e ↦ rw e (omega (arith, length-append b.full (b.last ∷ [])))
  | inr e ↦ rw e (omega arith)
]

copy_blocks-short :
    (f : ℕ) (s : Str) (b : RequestPartBuilder)
    → length s ≤ block_size
    → 0 < f
    → copy_blocks f s b ≡ some b
unfolding copy_blocks
copy_blocks-short zero s b h l = absurd (omega arith)
copy_blocks-short (suc f) s b h l =
    let short : ltb block_size (length s) ≡ false = ground arith in rw short refl

copy_blocks-long :
    (f : ℕ) (s : Str) (b : RequestPartBuilder) → block_size < length s → copy_blocks f s b ≡ none
unfolding copy_blocks
copy_blocks-long zero s b h = refl
copy_blocks-long (suc f) s b h =
    let long : ltb block_size (length s) ≡ true = ground arith in rw long (copy_blocks-long f s _ h)

written-text :
    (s : Str) (bs : List Str)
    → text (written s (record { full = bs; last = [] })) ≡ blocks_text bs ++ s
unfolding text
written-text [] bs = refl
written-text (c ∷ cs) bs = refl

-- What an `append` of `s` gives.
record Grown (b : RequestPartBuilder) (s : Str) (b' : RequestPartBuilder) : Type 0 where
  pub grown : text b' ≡ text b ++ s
  pub valid : IsValid b'
  pub count : length b'.full ≤ length b.full + 1

append_rest-Grown :
    (f : ℕ) (s : Str) (b : RequestPartBuilder)
    → length b.last < block_size
    → block_size < length b.last + length s
    → length s + length b.last ≤ 2 * block_size
    → 0 < f
    → (b' : RequestPartBuilder) × (append_rest f s b ≡ some b') × Grown b s b'
unfolding append_rest IsValid text blocks_text
append_rest-Grown f s b h m l p =
    let n = block_size - length b.last in
    let filled = b.last ++ take n s in
    let rest = drop n s in
    let size : length filled ≡ block_size =
      omega (arith, length-append b.last (take n s), length-take n s) in
    let short : length rest ≤ block_size = omega (arith, length-drop n s) in
    (
      written rest (record { full = b.full ++ (filled ∷ []); last = [] }),
      ap (map_option (written rest)) (copy_blocks-short f rest _ short p),
      record {
        grown =
            written-text rest (b.full ++ (filled ∷ []))
            ∙ ap (λ l. l ++ rest) (blocks_text-append b.full filled size)
            ∙ append_assoc (blocks_text b.full) filled rest
            ∙ ap (λ l. blocks_text b.full ++ l)
                (append_assoc b.last (take n s) rest ∙ ap (λ l. b.last ++ l) (take-append-drop n s))
            ∙ sym (append_assoc (blocks_text b.full) b.last s);
        valid = written_valid rest (b.full ++ (filled ∷ [])) short;
        count =
            written_count rest (b.full ++ (filled ∷ []))
              (omega (arith, length-append b.full (filled ∷ [])));
      },
    )
  where
    written_count :
        (r : Str) (bs : List Str)
        → length bs ≤ length b.full + 1
        → length (written r (record { full = bs; last = [] })).full ≤ length b.full + 1
    written_count [] bs h = h
    written_count (c ∷ cs) bs h = h

    written_valid :
        (r : Str) (bs : List Str)
        → length r ≤ block_size
        → length (written r (record { full = bs; last = [] })).last ≤ block_size
    written_valid [] bs h = omega arith
    written_valid (c ∷ cs) bs h = h

pub append-Grown :
    (f : ℕ) (s : Str) (b : RequestPartBuilder)
    → IsValid b
    → length s ≤ block_size
    → 0 < f
    → (b' : RequestPartBuilder) × (append f s b ≡ some b')
      × (text b' ≡ text b ++ s)
      × IsValid b'
      × (length b'.full ≤ length b.full + 2)
unfolding append text IsValid
append-Grown f [] b h l p = (b, refl, sym (append-nil (text b)), h, omega arith)
append-Grown f (c ∷ cs) b h l p =
    let s = c ∷ cs in
    let (same, below) = check_append-text b h in
    let b1 = check_append b in
    let few : length b1.full ≤ length b.full + 1 = check_append_count b in
    elim (Bool-cases (leb (length b1.last + length s) block_size)) [
      | inl e ↦ (
        record b1 { last = b1.last ++ s },
        rw e refl,
        sym (append_assoc (blocks_text b1.full) b1.last s) ∙ ap (λ t. t ++ s) same,
        omega (arith, leb→le _ _ e, length-append b1.last s),
        omega arith,
      )
      | inr e ↦
          let (b', r, g) = append_rest-Grown f s b1 below (ground arith) (omega arith) p in
          (b', rw e r, g.grown ∙ ap (λ t. t ++ s) same, g.valid, omega (arith, g.count))
    ]

-- On a valid builder, an `append` of a text of up to a block writes that text behind what is there
-- and leaves a valid builder, whether the text fits into the last block or goes on into a new one.
pub append-text :
    (f : ℕ) (s : Str) (b : RequestPartBuilder)
    → IsValid b
    → length s ≤ block_size
    → 0 < f
    → (b' : RequestPartBuilder) × (append f s b ≡ some b') × (text b' ≡ text b ++ s) × IsValid b'
append-text f s b h l p = let (b', e, g, v, _) = append-Grown f s b h l p in (b', e, g, v)

-- On a valid builder, an `append` of a text that does not end in the next block does not end: it
-- gives no result on any fuel.
pub append_stuck :
    (f : ℕ) (s : Str) (b : RequestPartBuilder)
    → IsValid b
    → 2 * block_size < length s + length (check_append b).last
    → append f s b ≡ none
unfolding append append_rest
append_stuck f [] b h l = absurd (omega (arith, (check_append-text b h).1))
append_stuck f (c ∷ cs) b h l =
    let s = c ∷ cs in
    let below = (check_append-text b h).1 in
    let b1 = check_append b in
    let long : leb (length b1.last + length s) block_size ≡ false = ground arith in
    rw long (
      ap (map_option (written (drop (block_size - length b1.last) s))) (
        copy_blocks-long f (drop (block_size - length b1.last) s) _
          (omega (arith, length-drop (block_size - length b1.last) s))))
