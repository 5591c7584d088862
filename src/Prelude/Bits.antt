-- ===== src/Prelude/Bits.antt =====
-- Laws of the bitwise operations at variables: fields that do not overlap, and masks of ones.
use Prim.Native.Nat.{
  ℕ, zero, suc, ◌+◌, ◌-◌, ◌*◌, ◌/◌, ◌%◌, ◌^◌, ◌≤◌, ◌<◌, min, max, bit_and, bit_or,
}
use Prim.Native.Nat.{digits, bitwise, bit_and-bitwise, bit_or-bitwise}
use mathlib.Core.Path.{◌≡◌, refl, ap, sym, ◌∙◌}
use native.Mathlib.Nat.{
  pow-suc, mod-lt, div-add-mod, mod-eq_of_lt, one-le-pow, add-mul-mod_self_left,
}
use native.Mathlib.Omega.{arith}

-- Both operations by halves: the recursion on digits may run on any fuel from the number up.
module _ (last : ℕ → ℕ) (digit : ℕ → ℕ → ℕ) where
  more_fuel : (n m x y : ℕ) → x ≤ n → n ≤ m → digits last digit m x y ≡ digits last digit n x y
  more_fuel zero zero x y l k = refl
  more_fuel n m zero y l k = at_zero m ∙ sym (at_zero n)
    where
      at_zero : (fuel : ℕ) → digits last digit fuel 0 y ≡ last y
      at_zero zero = refl
      at_zero (suc fuel) = refl
  more_fuel zero m (suc x) y l k = absurd (omega arith)
  more_fuel (suc n) zero (suc x) y l k = absurd (omega arith)
  more_fuel (suc n) (suc m) (suc x) y l k =
      ap (λ high. high * 2 + digit (suc x % 2) (y % 2))
        (more_fuel n m (suc x / 2) (y / 2) (omega arith) (omega arith))

  halves :
      (x y : ℕ) → digits last digit x (suc x / 2) (y / 2) ≡ bitwise last digit (suc x / 2) (y / 2)
  halves x y = more_fuel (suc x / 2) x (suc x / 2) (y / 2) (omega arith) (omega arith)

bit_or_halves : (x y : ℕ) → bit_or x y ≡ max (x % 2) (y % 2) + 2 * bit_or (x / 2) (y / 2)
bit_or_halves zero y = omega (arith, bit_or-bitwise 0 y, bit_or-bitwise 0 (y / 2))
bit_or_halves (suc x) y =
    omega
      (arith, halves (λ d. d) max x y, bit_or-bitwise (suc x / 2) (y / 2), bit_or-bitwise (suc x) y)

bit_and_halves : (x y : ℕ) → bit_and x y ≡ min (x % 2) (y % 2) + 2 * bit_and (x / 2) (y / 2)
bit_and_halves zero y = omega (arith, bit_and-bitwise 0 y, bit_and-bitwise 0 (y / 2))
bit_and_halves (suc x) y =
    omega (
      arith,
      halves (λ d. 0) min x y,
      bit_and-bitwise (suc x / 2) (y / 2),
      bit_and-bitwise (suc x) y,
    )

-- A second number without digits.
or_nothing : (fuel x : ℕ) → x ≤ fuel → digits (λ d. d) max fuel x 0 ≡ x
or_nothing fuel zero l = at_zero fuel
  where
    at_zero : (n : ℕ) → digits (λ d. d) max n 0 0 ≡ 0
    at_zero zero = refl
    at_zero (suc n) = refl
or_nothing zero (suc x) l = absurd (omega arith)
or_nothing (suc fuel) (suc x) l = omega (arith, or_nothing fuel (suc x / 2) (omega arith))

and_nothing : (fuel x : ℕ) → digits (λ d. 0) min fuel x 0 ≡ 0
and_nothing zero x = refl
and_nothing (suc fuel) zero = refl
and_nothing (suc fuel) (suc x) = omega (arith, and_nothing fuel (suc x / 2))

bit_or_none : (x : ℕ) → bit_or x 0 ≡ x
bit_or_none x = bit_or-bitwise x 0 ∙ or_nothing x x (omega arith)

bit_and_none : (x : ℕ) → bit_and x 0 ≡ 0
bit_and_none x = bit_and-bitwise x 0 ∙ and_nothing x x

-- A field above the lowest `k` bits, and one in them.
pub bit_or-disjoint : (k a b : ℕ) → b < 2 ^ k → bit_or (a * 2 ^ k) b ≡ a * 2 ^ k + b
bit_or-disjoint zero a b h =
    let z : b ≡ 0 = omega arith in
    let o : a * 2 ^ 0 ≡ a = omega arith in rw (z, o) (bit_or_none a ∙ omega arith)
bit_or-disjoint (suc k) a b h =
    let p : 2 ^ suc k ≡ 2 ^ k * 2 = pow-suc 2 k in
    let q : a * 2 ^ suc k ≡ a * 2 ^ k * 2 = omega (arith, ap (λ (t : ℕ). a * t) p) in
    let half : a * 2 ^ suc k / 2 ≡ a * 2 ^ k = omega arith in
    omega (
      arith,
      bit_or_halves (a * 2 ^ suc k) b,
      ap (λ (t : ℕ). bit_or t (b / 2)) half,
      bit_or-disjoint k a (b / 2) (omega arith),
    )

half_mod : (a p : ℕ) → 1 ≤ p → (a / 2) % p * 2 + a % 2 ≡ a % (p * 2)
half_mod a p h =
    let r : ℕ = (a / 2) % p in
    let small : r < p = mod-lt (a / 2) h in
    let whole : a ≡ r * 2 + a % 2 + (p * 2) * (a / 2 / p) = omega (arith, div-add-mod (a / 2) p) in
    sym (
      ap (λ (t : ℕ). t % (p * 2)) whole
      ∙ add-mul-mod_self_left (r * 2 + a % 2) (p * 2) (a / 2 / p)
      ∙ mod-eq_of_lt (omega arith))

-- A mask of `k` ones keeps the remainder.
pub bit_and-mask : (k a : ℕ) → bit_and a (2 ^ k - 1) ≡ a % 2 ^ k
bit_and-mask zero a = bit_and_none a ∙ omega arith
bit_and-mask (suc k) a =
    let p : 2 ^ suc k ≡ 2 ^ k * 2 = pow-suc 2 k in
    let one : 1 ≤ 2 ^ k = one-le-pow k 2 (omega arith) in
    let ones : (2 ^ suc k - 1) / 2 ≡ 2 ^ k - 1 = omega arith in
    omega (
      arith,
      bit_and_halves a (2 ^ suc k - 1),
      ap (λ (t : ℕ). bit_and (a / 2) t) ones,
      bit_and-mask k (a / 2),
      half_mod a (2 ^ k) one,
      ap (λ (t : ℕ). a % t) p,
    )

-- The same for a field `x` that is written as its value.
pub bit_or-add : (k x y : ℕ) → x % 2 ^ k ≡ 0 → y < 2 ^ k → bit_or x y ≡ x + y
bit_or-add k x y e h =
    let q : x ≡ x / 2 ^ k * 2 ^ k = omega (arith, div-add-mod x (2 ^ k)) in
    ap (λ (t : ℕ). bit_or t y) q ∙ bit_or-disjoint k (x / 2 ^ k) y h ∙ ap (λ (t : ℕ). t + y) (sym q)
