-- ===== src/Http/Tables.antt =====
-- Constant tables of texts and numbers, and the search for an entry by a counting loop.
use net_cpp.Prelude.{
  ℕ, suc, ◌+◌, ◌≤◌, ◌<◌, ◌≡◌, inl, inr, Option, none, some, List, [], ◌∷◌, arith, ◌==◌,
  if◌then◌else◌, Bool-cases, length, get_elem?, Str, str_eq, str_eq→eq,
}

-- `for (i = 0; i < N; i++) if (str == TABLE[i]) return i;`
abbrev pub index_from : ℕ → Str → List Str → Option ℕ
index_from i s [] = none
index_from i s (t ∷ ts) = if str_eq s t then some i else index_from (suc i) s ts

abbrev pub index_of : Str → List Str → Option ℕ
index_of = index_from 0

index_from_sound :
    (k i : ℕ) (s : Str) (ts : List Str)
    → index_from k s ts ≡ some i
    → (j : ℕ) × (i ≡ k + j) × (get_elem? ts j ≡ some s)
index_from_sound k i s [] h = ground arith
index_from_sound k i s (t ∷ ts) h = elim (Bool-cases (str_eq s t)) [
  | inl e ↦ (0, ground arith, ground (arith, str_eq→eq s t e))
  | inr e ↦
      let (j, p, q) = index_from_sound (suc k) i s ts (ground arith) in (suc j, omega arith, q)
]

-- What the loop finds stands in the table under that index.
pub index_of_sound :
    (i : ℕ) (s : Str) (ts : List Str) → index_of s ts ≡ some i → get_elem? ts i ≡ some s
index_of_sound i s ts h = use_it (index_from_sound 0 i s ts h)
  where
    use_it : ((j : ℕ) × (i ≡ 0 + j) × (get_elem? ts j ≡ some s)) → get_elem? ts i ≡ some s
    use_it (j, e, f) = let e' : i ≡ j = omega arith in rw e' f

-- The same loop over numbers: the `case` labels of a `switch`, in order.
abbrev pub case_from : ℕ → ℕ → List ℕ → ℕ
case_from i c [] = i
case_from i c (d ∷ ds) = if c == d then i else case_from (suc i) c ds

pub case_from-bound :
    (k c : ℕ) (ds : List ℕ)
    → case_from k c ds < k + length ds
    → (j : ℕ) × (case_from k c ds ≡ k + j) × (get_elem? ds j ≡ some c)
case_from-bound k c [] h = absurd (omega arith)
case_from-bound k c (d ∷ ds) h = elim (Bool-cases (c == d)) [
  | inl e ↦ (0, ground arith, ground arith)
  | inr e ↦ let (j, p, q) = case_from-bound (suc k) c ds (ground arith) in (suc j, ground arith, q)
]

pub case_from-le : (k c : ℕ) (ds : List ℕ) → case_from k c ds ≤ k + length ds
case_from-le k c [] = omega arith
case_from-le k c (d ∷ ds) = ground (arith, case_from-le (suc k) c ds)
