-- ===== src/Prelude/Search.antt =====
-- `find` of `std::string_view`, and what a found index says of the text, also when more text follows.
use net_cpp.Prelude.Tests.{◌==◌, if◌then◌else◌, Option-cases}
use net_cpp.Prelude.Lists.{length, take, drop}
use net_cpp.Prelude.Text.{Str}
use Prim.Native.Nat.{ℕ, zero, suc, ◌+◌, ◌≤◌, ◌<◌}
use mathlib.Core.Path.{◌≡◌, refl, ap, sym, ◌∙◌}
use mathlib.Core.Logic.{inl, inr}
use mathlib.Core.Bool.{◌&&◌}
use mathlib.Core.Option.{Option, none, some}
use mathlib.Core.List.{List, [], ◌∷◌, ◌++◌}
use native.Mathlib.Omega.{arith}

abbrev pub next : Option ℕ → Option ℕ
next none = none
next (some i) = some (suc i)

-- `text.find(c)`
abbrev pub find_char : ℕ → Str → Option ℕ
find_char c [] = none
find_char c (x ∷ xs) = let rest = next (find_char c xs) in if x == c then some 0 else rest

-- `text.find_first_not_of(c)`
abbrev pub find_not : ℕ → Str → Option ℕ
find_not c [] = none
find_not c (x ∷ xs) = let rest = next (find_not c xs) in if x == c then rest else some 0

-- `text.find("\r\n")`
abbrev pub find_crlf : Str → Option ℕ
find_crlf [] = none
find_crlf (x ∷ []) = none
find_crlf (x ∷ y ∷ xs) =
    let rest = next (find_crlf (y ∷ xs)) in if x == 13 && y == 10 then some 0 else rest

pub find_char-append :
    (c : ℕ) (a b : Str) (i : ℕ) → find_char c a ≡ some i → find_char c (a ++ b) ≡ some i
find_char-append c [] b i h = ground arith
find_char-append c (x ∷ xs) b i h = elim (Option-cases (find_char c xs)) [
  | inl e ↦ ground arith
  | inr (j, e) ↦ ground (arith, find_char-append c xs b j e)
]

pub find_char-lt : (c : ℕ) (a : Str) (i : ℕ) → find_char c a ≡ some i → i < length a
find_char-lt c [] i h = ground arith
find_char-lt c (x ∷ xs) i h = elim (Option-cases (find_char c xs)) [
  | inl e ↦ ground arith
  | inr (j, e) ↦ ground (arith, find_char-lt c xs j e)
]

-- What is not found in the first part is found past it.
pub find_char-past :
    (c : ℕ) (a b : Str) (i : ℕ)
    → find_char c a ≡ none
    → find_char c (a ++ b) ≡ some i
    → length a ≤ i
find_char-past c [] b i h e = omega arith
find_char-past c (x ∷ xs) b i h e = elim (Option-cases (find_char c (xs ++ b))) [
  | inl f ↦ ground arith
  | inr (j, f) ↦ ground (arith, find_char-past c xs b j)
]

pub find_not-append :
    (c : ℕ) (a b : Str) (i : ℕ) → find_not c a ≡ some i → find_not c (a ++ b) ≡ some i
find_not-append c [] b i h = ground arith
find_not-append c (x ∷ xs) b i h = elim (Option-cases (find_not c xs)) [
  | inl e ↦ ground arith
  | inr (j, e) ↦ ground (arith, find_not-append c xs b j e)
]

pub find_not-lt : (c : ℕ) (a : Str) (i : ℕ) → find_not c a ≡ some i → i < length a
find_not-lt c [] i h = ground arith
find_not-lt c (x ∷ xs) i h = elim (Option-cases (find_not c xs)) [
  | inl e ↦ ground arith
  | inr (j, e) ↦ ground (arith, find_not-lt c xs j e)
]

pub find_crlf-append : (a b : Str) (i : ℕ) → find_crlf a ≡ some i → find_crlf (a ++ b) ≡ some i
find_crlf-append [] b i h = ground arith
find_crlf-append (x ∷ []) b i h = ground arith
find_crlf-append (x ∷ y ∷ xs) b i h = elim (Option-cases (find_crlf (y ∷ xs))) [
  | inl e ↦ ground arith
  | inr (j, e) ↦ ground (arith, find_crlf-append (y ∷ xs) b j e)
]

pub find_crlf-lt : (a : Str) (i : ℕ) → find_crlf a ≡ some i → i + 2 ≤ length a
find_crlf-lt [] i h = ground arith
find_crlf-lt (x ∷ []) i h = ground arith
find_crlf-lt (x ∷ y ∷ xs) i h = elim (Option-cases (find_crlf (y ∷ xs))) [
  | inl e ↦ ground arith
  | inr (j, e) ↦ ground (arith, find_crlf-lt (y ∷ xs) j e)
]

pub take-append_le {ℓ} :
    {A : Type ℓ} (n : ℕ) (a b : List A) → n ≤ length a → take n (a ++ b) ≡ take n a
take-append_le zero a b h = refl
take-append_le (suc n) [] b h = absurd (omega arith)
take-append_le (suc n) (x ∷ a) b h = ap (λ l. x ∷ l) (take-append_le n a b (omega arith))

pub drop-append_le {ℓ} :
    {A : Type ℓ} (n : ℕ) (a b : List A) → n ≤ length a → drop n (a ++ b) ≡ drop n a ++ b
drop-append_le zero a b h = refl
drop-append_le (suc n) [] b h = absurd (omega arith)
drop-append_le (suc n) (x ∷ a) b h = drop-append_le n a b (omega arith)

drop-nil {ℓ} : {A : Type ℓ} (n : ℕ) → drop {A = A} n [] ≡ []
drop-nil zero = refl
drop-nil (suc n) = refl

pub drop-drop {ℓ} : {A : Type ℓ} (s n : ℕ) (a : List A) → drop n (drop s a) ≡ drop (s + n) a
drop-drop zero n a = ap (λ k. drop k a) (omega arith)
drop-drop (suc s) n [] = drop-nil n ∙ sym (drop-nil (suc s + n))
drop-drop (suc s) n (x ∷ a) =
    drop-drop s n a ∙ ap (λ k. drop k (x ∷ a)) (let e : suc (s + n) ≡ suc s + n = omega arith in e)

pub take-append-drop {ℓ} : {A : Type ℓ} (n : ℕ) (xs : List A) → take n xs ++ drop n xs ≡ xs
take-append-drop zero xs = refl
take-append-drop (suc n) [] = refl
take-append-drop (suc n) (x ∷ xs) = ap (λ l. x ∷ l) (take-append-drop n xs)
